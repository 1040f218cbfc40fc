-- ===== src/Pprof/Trie/Cycles.antt =====
-- The cycles that a frame holds: every charge is counted once, in the frame that is current.
use ckb_standalone_debugger.Prelude.{
  ℕ, zero, suc, ◌+◌, ◌%◌, ◌<◌, ◌≡◌, refl, ◌∙◌, ap, sym, none, some, List, [], ◌∷◌, ◌++◌, length,
  modify, Option-cases, inl, inr, arith, ok, ok-injective, Option,
}
use ckb_standalone_debugger.Vm.{u64_mod}
use ckb_standalone_debugger.Pprof.Trie.{
  Registers, TrieNode, Trie, borrow, new_frame, push_child, charge, call, save_regs, quit,
  quit_or_skip, IsValid, total_cycles,
}
use ckb_standalone_debugger.Pprof.Trie.Valid.{sbrk_or_skip-nodes}

total_cycles-append :
    (xs ys : List TrieNode) → total_cycles (xs ++ ys) ≡ total_cycles xs + total_cycles ys
unfolding total_cycles
total_cycles-append [] ys = omega arith
total_cycles-append (x ∷ xs) ys = omega (arith, total_cycles-append xs ys)

total_cycles-modify_same :
    (xs : List TrieNode) (i : ℕ) (f : TrieNode → TrieNode)
    → ((n : TrieNode) → (f n).cycles ≡ n.cycles)
    → total_cycles (modify xs i f) ≡ total_cycles xs
unfolding total_cycles
total_cycles-modify_same [] i f keep = refl
total_cycles-modify_same (x ∷ xs) zero f keep = omega (arith, keep x)
total_cycles-modify_same (x ∷ xs) (suc i) f keep =
    omega (arith, total_cycles-modify_same xs i f keep)

total_cycles-modify_add :
    (xs : List TrieNode) (i cycles pc : ℕ)
    → i < length xs
    → total_cycles (modify xs i (λ n. record n { cycles = (n.cycles + cycles) % u64_mod; pc = pc }))
        % u64_mod
      ≡ (total_cycles xs + cycles) % u64_mod
unfolding total_cycles
total_cycles-modify_add [] i cycles pc h = elim h [ ]
total_cycles-modify_add (x ∷ xs) zero cycles pc h = omega arith
total_cycles-modify_add (x ∷ xs) (suc i) cycles pc h =
    omega (arith, total_cycles-modify_add xs i cycles pc (omega arith))

-- A charge adds to the total of the tree, which counts modulo 2^64 as the counters do.
pub total_cycles-charge :
    (cycles pc : ℕ) (t : Trie)
    → IsValid t
    → total_cycles (charge cycles pc t).nodes % u64_mod ≡ (total_cycles t.nodes + cycles) % u64_mod
unfolding charge
total_cycles-charge cycles pc t v = total_cycles-modify_add t.nodes t.trie_node cycles pc v.current

-- A new frame starts with no cycles.
total_cycles-new_frame :
    (addr link pc p : ℕ) (regs : Registers) → total_cycles (new_frame addr link pc regs p ∷ []) ≡ 0
unfolding total_cycles
total_cycles-new_frame addr link pc p regs = omega arith

pub total_cycles-call :
    (addr link pc : ℕ) (regs : Registers) (t : Trie)
    → total_cycles (call addr link pc regs t).nodes ≡ total_cycles t.nodes
unfolding call
total_cycles-call addr link pc regs t = omega (
  arith,
  total_cycles-append (modify t.nodes t.trie_node (push_child (length t.nodes)))
      (new_frame addr link pc regs t.trie_node ∷ []),
  total_cycles-modify_same t.nodes t.trie_node (push_child (length t.nodes)) (λ n. refl),
  total_cycles-new_frame addr link pc t.trie_node regs,
)

total_cycles-save_regs :
    (regs : Registers) (t : Trie) → total_cycles (save_regs regs t).nodes ≡ total_cycles t.nodes
unfolding save_regs
total_cycles-save_regs regs t =
    ap total_cycles (sbrk_or_skip-nodes _).0
    ∙ total_cycles-modify_same t.nodes t.trie_node _ (λ n. refl)

total_cycles-quit :
    (regs : Registers) (f : Option ℕ) (t : Trie) {u : Trie}
    → quit regs f t ≡ ok u
    → total_cycles u.nodes ≡ total_cycles t.nodes
unfolding quit
total_cycles-quit regs none t e = ap (λ (x : Trie). total_cycles x.nodes) (sym (ok-injective e))
total_cycles-quit regs (some f) t {u} e =
    elim (Option-cases (borrow (save_regs regs t).nodes f).parent) [
      | inl top ↦ absurd (cc (rw (top, quit) at e))
      | inr (p, below) ↦
          ap (λ (x : Trie). total_cycles x.nodes) (sym (ok-injective (rw (below, quit) at e)))
          ∙ total_cycles-save_regs regs t
    ]

pub total_cycles-quit_or_skip :
    (addr : ℕ) (regs : Registers) (t : Trie) {u : Trie}
    → quit_or_skip addr regs t ≡ ok u
    → total_cycles u.nodes ≡ total_cycles t.nodes
unfolding quit_or_skip
total_cycles-quit_or_skip addr regs t e = total_cycles-quit regs _ t e
