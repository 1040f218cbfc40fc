-- ===== src/Pprof/Display.antt =====
-- `display_flamegraph` and `display_stacktrace` (ckb-vm-pprof/src/lib.rs): what they write. `none`
-- is a panic of `get_tag`, or the end of the fuel.
pub mod Stacktrace
pub mod Flamegraph
use mathlib.Core.List.{reverse}
use ckb_standalone_debugger.Prelude.{
  ℕ, zero, suc, Option, none, some, List, [], ◌∷◌, ◌++◌, Bytes, length,
}
use ckb_standalone_debugger.Prelude.Format.{codes, decimal}
use ckb_standalone_debugger.Pprof.Trie.{TrieNode, Trie, borrow}
use ckb_standalone_debugger.Pprof.Tags.{Tags, Addr2line, TagCache, simple, detail, get_tag}

-- A line of the flame graph: the functions down to a frame, and the cycles of the frame.
pub record Line : Type 0 where
  pub prefix_name : Bytes
  pub cycles : ℕ

-- `format!("{} {}\n", …)`
unfoldable pub render : Line → Bytes
render l = l.prefix_name ++ (codes " " ++ (decimal l.cycles ++ codes "\n"))

unfoldable pub render_all : List Line → Bytes
unfolding render
render_all [] = []
render_all (l ∷ ls) = render l ++ render_all ls

-- `for i in &stack { … }`
unfoldable pub write_lines : Bytes → List Bytes → Bytes
write_lines prefix [] = []
write_lines prefix (i ∷ stack) = (prefix ++ (i ++ codes "\n")) ++ write_lines prefix stack

-- A loop over the children: `show` is the call for one of them.
unfoldable pub display_children :
    (ℕ → TagCache → Option (List Line × TagCache))
    → List ℕ
    → TagCache
    → Option (List Line × TagCache)
display_children show [] cache = some ([], cache)
display_children show (e ∷ childs) cache = elim (show e cache) [
  | none ↦ none
  | some (lines, cache') ↦ elim (display_children show childs cache') [
    | none ↦ none
    | some (rest, cache'') ↦ some (lines ++ rest, cache'')
  ]
]

module _ (addrctx : Addr2line) where
  -- The fuel bounds the depth of the recursion.
  unfoldable pub display_flamegraph_rec :
      ℕ → List TrieNode → Bytes → ℕ → TagCache → Option (List Line × TagCache)
  unfolding display_children get_tag simple
  display_flamegraph_rec zero nodes prefix node cache = none
  display_flamegraph_rec (suc fuel) nodes prefix node cache =
      let n = borrow nodes node in
      elim (get_tag addrctx n.addr cache) [
        | none ↦ none
        | some (tag, cache') ↦
            let prefix_name = prefix ++ simple tag in
            let below =
              display_children (display_flamegraph_rec fuel nodes (prefix_name ++ codes "; "))
                n.childs cache' in
            elim below [
              | some (lines, cache'') ↦
                  some (record { prefix_name = prefix_name; cycles = n.cycles } ∷ lines, cache'')
              | none ↦ none
            ]
      ]

  -- A path down the tree meets each node at most once.
  unfoldable pub display_flamegraph : Trie → TagCache → Option (Bytes × TagCache)
  unfolding display_flamegraph_rec render_all
  display_flamegraph t cache =
      elim (display_flamegraph_rec (length t.nodes) t.nodes [] t.trie_root cache) [
        | some (lines, cache') ↦ some (render_all lines, cache')
        | none ↦ none
      ]

  -- The loop of `display_stacktrace`: what it pushes, from the frame on. A frame's caller is older,
  -- so its index plus one bounds the rounds.
  unfoldable pub push_frames : ℕ → List TrieNode → ℕ → TagCache → Option (List Bytes × TagCache)
  unfolding get_tag detail
  push_frames zero nodes frame cache = none
  push_frames (suc fuel) nodes frame cache =
      elim (get_tag addrctx (borrow nodes frame).link cache) [
        | none ↦ none
        | some (tag, cache') ↦ elim (borrow nodes frame).parent [
          | some p ↦ elim (push_frames fuel nodes p cache') [
            | some (stack, cache'') ↦ some (detail tag ∷ stack, cache'')
            | none ↦ none
          ]
          | none ↦ some (detail tag ∷ [], cache')
        ]
      ]

  unfoldable pub display_stacktrace : Bytes → Trie → TagCache → Option (Bytes × TagCache)
  unfolding push_frames write_lines
  display_stacktrace prefix t cache = elim (get_tag addrctx (borrow t.nodes t.trie_node).pc cache) [
    | none ↦ none
    | some (tag, cache') ↦ elim (push_frames (suc t.trie_node) t.nodes t.trie_node cache') [
      | some (stack, cache'') ↦ some (write_lines prefix (reverse (detail tag ∷ stack)), cache'')
      | none ↦ none
    ]
  ]
