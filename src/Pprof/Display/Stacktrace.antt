-- ===== src/Pprof/Display/Stacktrace.antt =====
-- The stack trace of a well-formed tree.
use mathlib.Core.List.{reverse}
use ckb_standalone_debugger.Prelude.{
  ℕ, zero, suc, ◌<◌, ◌≡◌, refl, none, some, List, [], ◌∷◌, Bytes, length, map, Option-cases, inl,
  inr, arith,
}
use ckb_standalone_debugger.Pprof.Trie.{TrieNode, Trie, borrow, IsValid}
use ckb_standalone_debugger.Pprof.Tags.{Tags, Addr2line, TagCache, detail, make_tag}
use ckb_standalone_debugger.Pprof.Tags.Cache.{IsCached, get_tag-some}
use ckb_standalone_debugger.Pprof.Display.{push_frames, write_lines, display_stacktrace}

-- The frames from `f` up to the one without a caller.
pub data Callers (nodes : List TrieNode) : ℕ → List ℕ → Type 0 where
  outermost : {f : ℕ} → (borrow nodes f).parent ≡ none → Callers nodes f (f ∷ [])
  called :
      {f p : ℕ} {fs : List ℕ}
      → (borrow nodes f).parent ≡ some p
      → Callers nodes p fs
      → Callers nodes f (f ∷ fs)

-- What is pushed for the frames: the return address of each, under its tag.
abbrev pub places : (ℕ → Tags) → List TrieNode → List ℕ → List Bytes
places tag nodes fs = map (λ f. detail (tag (borrow nodes f).link)) fs

module _ (addrctx : Addr2line) (tag : ℕ → Tags) where
  -- The tag of an address can be made, without a panic.
  abbrev pub Tagged : ℕ → Type 0
  Tagged addr = make_tag addrctx addr ≡ some (tag addr)

  push_frames-Callers :
      (fuel : ℕ) (nodes : List TrieNode) (f : ℕ) (cache : TagCache)
      → ((i p : ℕ) → i < length nodes → (borrow nodes i).parent ≡ some p → p < i)
      → ((i : ℕ) → i < length nodes → Tagged (borrow nodes i).link)
      → f < length nodes
      → f < fuel
      → IsCached addrctx cache
      → (fs : List ℕ) × (cache' : TagCache) × Callers nodes f fs
        × (push_frames addrctx fuel nodes f cache ≡ some (places tag nodes fs, cache'))
  unfolding push_frames
  push_frames-Callers zero nodes f cache older tagged there enough c = absurd (omega arith)
  push_frames-Callers (suc fuel) nodes f cache older tagged there enough c =
      let (cache', got, c') = get_tag-some addrctx (borrow nodes f).link cache c (tagged f there) in
      elim (Option-cases (borrow nodes f).parent) [
        | inl top ↦ (f ∷ [], cache', outermost top, rw (got, push_frames, top) refl)
        | inr (p, up) ↦
            let below = older f p there up in
            let (fs, last, callers, pushed) =
              push_frames-Callers fuel nodes p cache' older tagged (omega arith) (omega arith) c' in
            (f ∷ fs, last, called up callers, rw (got, push_frames, up, pushed) refl)
      ]

  -- On a well-formed tree and a good cache, and where the tags of the current program counter and
  -- of the return addresses of the frames can be made without a panic, the stack trace ends, and
  -- shows the place of the current instruction and the return addresses of the frames up to the
  -- outermost one, which comes first.
  pub display_stacktrace-Callers :
      (prefix : Bytes) (t : Trie) (cache : TagCache)
      → IsValid t
      → Tagged (borrow t.nodes t.trie_node).pc
      → ((i : ℕ) → i < length t.nodes → Tagged (borrow t.nodes i).link)
      → IsCached addrctx cache
      → (fs : List ℕ) × (cache' : TagCache) × Callers t.nodes t.trie_node fs
        × (display_stacktrace addrctx prefix t cache
            ≡ some (
              write_lines prefix
                  (reverse (detail (tag (borrow t.nodes t.trie_node).pc) ∷ places tag t.nodes fs)),
              cache',
            ))
  unfolding display_stacktrace
  display_stacktrace-Callers prefix t cache v at_pc tagged c =
      let (cache', got, c') = get_tag-some addrctx (borrow t.nodes t.trie_node).pc cache c at_pc in
      let (fs, last, callers, pushed) =
        push_frames-Callers (suc t.trie_node) t.nodes t.trie_node cache' v.older tagged v.current
          (omega arith) c' in
      (fs, last, callers, rw (got, display_stacktrace, pushed) refl)
