-- ===== src/Pprof/Trie.antt =====
-- `TrieNode` and the part of `Profile` that holds the tree (ckb-vm-pprof/src/lib.rs).
-- An `Rc<RefCell<TrieNode>>` is an index of `nodes`, the heap of the nodes allocated so far: no
-- node is ever freed, since its parent holds it. `IsValid` says that every index is in range.
pub mod Valid
pub mod Returns
pub mod Cycles
use ckb_standalone_debugger.Prelude.{
  ℕ, zero, suc, ◌+◌, ◌%◌, ◌<◌, ◌≤◌, ◌≡◌, ◌≢◌, Bool, true, false, Option, none, some, List, [], ◌∷◌,
  ◌++◌, length, get_or, modify, replicate, ◌==◌, if◌then◌else◌, Outcome, ok, panic,
}
use ckb_standalone_debugger.Vm.{VmError, VmResult, u64_mod, a0}

abbrev pub Registers : Type 0
Registers = List ℕ

pub record TrieNode : Type 0 where
  pub addr : ℕ
  pub link : ℕ
  pub pc : ℕ
  pub parent : Option ℕ
  pub childs : List ℕ
  pub cycles : ℕ
  -- `regs[0]`, at the call, and `regs[1]`, at the return
  pub entry_regs : Registers
  pub exit_regs : Registers

abbrev pub zeroes : Registers
zeroes = replicate 32 0

-- `TrieNode::root`
unfoldable pub root : TrieNode
root = record {
  addr = 0;
  link = 0;
  pc = 0;
  parent = none;
  childs = [];
  cycles = 0;
  entry_regs = zeroes;
  exit_regs = zeroes;
}

pub record Trie : Type 0 where
  pub nodes : List TrieNode
  pub trie_root : ℕ
  pub trie_node : ℕ
  pub sbrk_addr : ℕ
  pub sbrk_heap : ℕ

-- `p.borrow()`. An index out of range cannot occur, and reads as the root.
abbrev pub borrow : List TrieNode → ℕ → TrieNode
borrow nodes p = get_or nodes p root

-- `self.trie_node.borrow_mut().cycles += cycles; self.trie_node.borrow_mut().pc = pc;`
unfoldable pub charge : ℕ → ℕ → Trie → Trie
charge cycles pc t = record t {
  nodes =
      modify t.nodes t.trie_node λ n. record n { cycles = (n.cycles + cycles) % u64_mod; pc = pc };
}

-- The node that `call` allocates.
abbrev pub new_frame : ℕ → ℕ → ℕ → Registers → ℕ → TrieNode
new_frame addr link pc regs parent = record {
  addr = addr;
  link = link;
  pc = pc;
  parent = some parent;
  childs = [];
  cycles = 0;
  entry_regs = regs;
  exit_regs = zeroes;
}

-- `s.trie_node.borrow_mut().childs.push(chd.clone())`
abbrev pub push_child : ℕ → TrieNode → TrieNode
push_child chd n = record n { childs = n.childs ++ chd ∷ [] }

-- The closure `call`: a new node below the current one, which becomes current.
unfoldable pub call : ℕ → ℕ → ℕ → Registers → Trie → Trie
call addr link pc regs t =
    let chd = length t.nodes in
    record t {
      nodes =
          modify t.nodes t.trie_node (push_child chd)
          ++ new_frame addr link pc regs t.trie_node ∷ [];
      trie_node = chd;
    }

-- The closure `sbrk_or_skip`: a return from `_sbrk` moves the heap's end by the increment.
unfoldable pub sbrk_or_skip : Trie → Trie
sbrk_or_skip t =
    let n = borrow t.nodes t.trie_node in
    if n.addr == t.sbrk_addr
    then record t { sbrk_heap = (get_or n.entry_regs a0 0 + get_or n.exit_regs a0 0) % u64_mod }
    else t

-- `quit_or_skip` copies the machine's registers into `regs[1]` of the current node first.
unfoldable pub save_regs : Registers → Trie → Trie
unfolding sbrk_or_skip
save_regs regs t =
    sbrk_or_skip
      (record t { nodes = modify t.nodes t.trie_node (λ n. record n { exit_regs = regs }) })

-- The loop of `quit_or_skip`: the nearest frame from `f` upwards that returns to `addr`. The
-- fuel bounds the rounds; a frame's parent is older than the frame, so `f + 1` rounds are enough.
unfoldable pub find_frame : ℕ → List TrieNode → ℕ → ℕ → Option ℕ
find_frame zero nodes f addr = none
find_frame (suc fuel) nodes f addr = elim ((borrow nodes f).link == addr) [
  | true ↦ some f
  | false ↦ elim (borrow nodes f).parent [ none ↦ none | some p ↦ find_frame fuel nodes p addr ]
]

-- What the loop does at the frame that it found.
unfoldable pub quit : Registers → Option ℕ → Trie → VmResult Trie
quit regs none t = ok t
quit regs (some f) t =
    let moved = save_regs regs t in
    elim (borrow moved.nodes f).parent [
      | some p ↦ ok (record moved { trie_node = p })
      -- unimplemented!()
      | none ↦ panic
    ]

-- The closure `quit_or_skip`: a jump to a return address leaves the frames down to that one.
unfoldable pub quit_or_skip : ℕ → Registers → Trie → VmResult Trie
unfolding find_frame quit
quit_or_skip addr regs t = quit regs (find_frame (suc t.trie_node) t.nodes t.trie_node addr) t

-- Every pointer is in range, and a frame is younger than the frame that called it.
pub record IsValid (t : Trie) : Type 0 where
  pub current : t.trie_node < length t.nodes
  pub older : (i p : ℕ) → i < length t.nodes → (borrow t.nodes i).parent ≡ some p → p < i

-- The nearest frame from `f` upwards that returns to `addr` is `g`.
pub data Nearest (nodes : List TrieNode) (addr : ℕ) : ℕ → ℕ → Type 0 where
  here : {f : ℕ} → (borrow nodes f).link ≡ addr → Nearest nodes addr f f
  up :
      {f p g : ℕ}
      → (borrow nodes f).link ≢ addr
      → (borrow nodes f).parent ≡ some p
      → Nearest nodes addr p g
      → Nearest nodes addr f g

-- The cycles charged to all the frames.
unfoldable pub total_cycles : List TrieNode → ℕ
total_cycles [] = 0
total_cycles (n ∷ ns) = n.cycles + total_cycles ns
