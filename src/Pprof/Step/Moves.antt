-- ===== src/Pprof/Step/Moves.antt =====
-- Where the current frame goes with an instruction (`call` and `quit_or_skip`,
-- ckb-vm-pprof/src/lib.rs).
use ckb_standalone_debugger.Prelude.{
  ℕ, zero, suc, [], ◌∷◌, modify, ◌+◌, ◌%◌, ◌<◌, ◌≡◌, ◌≢◌, refl, ◌∙◌, ap, sym, true, false, Option,
  none, some, List, length, Bool-cases, Outcome-cases, inl, inr, ok, ok-injective, subst,
  length-modify, arith,
}
use ckb_standalone_debugger.Vm.{Vm, u64_mod}
use ckb_standalone_debugger.Pprof.Trie.{
  TrieNode, Trie, borrow, charge, quit_or_skip, IsValid, Nearest, here, up,
}
use ckb_standalone_debugger.Pprof.Trie.Valid.{
  modify-field, call-field, call_frame, call_frame_addr, length-call, save_regs-field,
  length-save_regs,
}
use ckb_standalone_debugger.Pprof.Trie.Returns.{quit_or_skip_cases}
use ckb_standalone_debugger.Pprof.Symbols.{Profile, contains_key}
use ckb_standalone_debugger.Pprof.Step.{copy_registers, jump}

-- From `p` to `q` by an instruction with this jump target, which is followed by `link`:
-- no jump leaves the current frame;
-- a jump to a function makes a new frame for it, called by the current one, that returns to `link`;
-- a jump to the return address of a frame on the stack goes back to the caller of that frame, the
-- nearest one; any other jump leaves the current frame.
pub data Moved (p : Profile) (link : ℕ) (q : Profile) : Option ℕ → Type 0 where
  straight :
      q.trie.trie_node ≡ p.trie.trie_node
      → length q.trie.nodes ≡ length p.trie.nodes
      → Moved p link q none
  called :
      {addr : ℕ}
      → contains_key p.cache_fun addr ≡ true
      → q.trie.trie_node ≡ length p.trie.nodes
      → length q.trie.nodes ≡ suc (length p.trie.nodes)
      → (borrow q.trie.nodes (length p.trie.nodes)).addr ≡ addr
      → (borrow q.trie.nodes (length p.trie.nodes)).link ≡ link
      → (borrow q.trie.nodes (length p.trie.nodes)).parent ≡ some p.trie.trie_node
      → Moved p link q (some addr)
  returned :
      {addr g caller : ℕ}
      → contains_key p.cache_fun addr ≡ false
      → Nearest p.trie.nodes addr p.trie.trie_node g
      → (borrow p.trie.nodes g).parent ≡ some caller
      → q.trie.trie_node ≡ caller
      → length q.trie.nodes ≡ length p.trie.nodes
      → Moved p link q (some addr)
  skipped :
      {addr : ℕ}
      → contains_key p.cache_fun addr ≡ false
      → ((g : ℕ) → ¬ Nearest p.trie.nodes addr p.trie.trie_node g)
      → q.trie.trie_node ≡ p.trie.trie_node
      → length q.trie.nodes ≡ length p.trie.nodes
      → Moved p link q (some addr)

-- The cycles of a frame, and the last program counter in it.
abbrev pub counts : TrieNode → ℕ × ℕ
counts n = (n.cycles, n.pc)

abbrev pub SameCounts : Trie → Trie → Type 0
SameCounts t u =
    (i : ℕ) → i < length t.nodes → counts (borrow u.nodes i) ≡ counts (borrow t.nodes i)

modify-other :
    (nodes : List TrieNode) (i j : ℕ) (f : TrieNode → TrieNode)
    → i ≢ j
    → counts (borrow (modify nodes i f) j) ≡ counts (borrow nodes j)
modify-other [] i j f other = refl
modify-other (n ∷ ns) zero zero f other = absurd (other refl)
modify-other (n ∷ ns) zero (suc j) f other = refl
modify-other (n ∷ ns) (suc i) zero f other = refl
modify-other (n ∷ ns) (suc i) (suc j) f other = modify-other ns i j f (λ e. other (ap suc e))

modify-at :
    (nodes : List TrieNode) (i : ℕ) (f : TrieNode → TrieNode)
    → i < length nodes
    → counts (borrow (modify nodes i f) i) ≡ counts (f (borrow nodes i))
modify-at [] i f h = absurd (omega arith)
modify-at (n ∷ ns) zero f h = refl
modify-at (n ∷ ns) (suc i) f h = modify-at ns i f (omega arith)

module _ {M D I : Type 0} (vm : Vm M D I) where
  pub jump-Moved :
      (p : Profile) (inst : I) (pc : ℕ) (m : M) (target : Option ℕ) {q : Profile}
      → IsValid p.trie
      → jump vm p inst pc m target ≡ ok q
      → SameCounts p.trie q.trie × Moved p ((pc + vm.instruction_length inst) % u64_mod) q target
  unfolding jump
  jump-Moved p inst pc m none v e =
      subst
        (λ (x : Profile).
          SameCounts p.trie x.trie × Moved p ((pc + vm.instruction_length inst) % u64_mod) x none)
        (ok-injective e) (λ i there. refl, straight refl refl)
  jump-Moved p inst pc m (some addr) {q} v e =
      let link = (pc + vm.instruction_length inst) % u64_mod in
      let regs = copy_registers vm m in
      elim (Bool-cases (contains_key p.cache_fun addr)) [
        | inl known ↦
            let (current, at, parent) = call_frame addr link pc regs p.trie in
            subst (λ (x : Profile). SameCounts p.trie x.trie × Moved p link x (some addr))
              (ok-injective (rw (known, jump) at e))
              (
                λ i there. call-field addr link pc regs p.trie counts i (λ n c. refl) there,
                called known current (length-call addr link pc regs p.trie)
                    (call_frame_addr addr link pc regs p.trie) at parent,
              )
        | inr unknown ↦ elim (Outcome-cases (quit_or_skip addr regs p.trie)) [
          | inr (inl (x, bad)) ↦ absurd (cc (rw (unknown, jump, bad) at e))
          | inr (inr gone) ↦ absurd (cc (rw (unknown, jump, gone) at e))
          | inl (u, good) ↦
              subst (λ (x : Profile). SameCounts p.trie x.trie × Moved p link x (some addr))
                (ok-injective (rw (unknown, jump, good) at e))
                (elim (quit_or_skip_cases addr regs p.trie v good) [
                  | inl (g, caller, nearest, below, same) ↦ (
                    λ i there.
                        ap (λ (x : Trie). counts (borrow x.nodes i)) same
                        ∙ save_regs-field regs p.trie counts i (λ n r. refl),
                    returned unknown nearest below (ap (λ (x : Trie). x.trie_node) same)
                        (ap (λ (x : Trie). length x.nodes) same ∙ length-save_regs regs p.trie),
                  )
                  | inr (nowhere, same) ↦ (
                    λ i there. ap (λ (x : Trie). counts (borrow x.nodes i)) same,
                    skipped unknown nowhere (ap (λ (x : Trie). x.trie_node) same)
                        (ap (λ (x : Trie). length x.nodes) same),
                  )
                ])
        ]
      ]

Nearest-same :
    {ns ns' : List TrieNode} {addr f g : ℕ}
    → ((i : ℕ) → (borrow ns i).link ≡ (borrow ns' i).link)
    → ((i : ℕ) → (borrow ns i).parent ≡ (borrow ns' i).parent)
    → Nearest ns addr f g
    → Nearest ns' addr f g
Nearest-same links parents (here {f} e) = here (sym (links f) ∙ e)
Nearest-same links parents (up {f} miss below n) =
    up (λ h. miss (links f ∙ h)) (sym (parents f) ∙ below) (Nearest-same links parents n)

-- The charge before the jump moves no frame.
module _ (cycles pc : ℕ) (t : Trie) where
  pub length-charge : length (charge cycles pc t).nodes ≡ length t.nodes
  unfolding charge
  length-charge = length-modify {0} t.nodes t.trie_node _

  charge-trie_node : (charge cycles pc t).trie_node ≡ t.trie_node
  unfolding charge
  charge-trie_node = refl

  charge-field {ℓ} :
      {B : Type ℓ} (field : TrieNode → B)
      → ((n : TrieNode) (c k : ℕ) → field (record n { cycles = c; pc = k }) ≡ field n)
      → (i : ℕ) → field (borrow (charge cycles pc t).nodes i) ≡ field (borrow t.nodes i)
  unfolding charge
  charge-field field keep i = modify-field field t.nodes t.trie_node i _ (λ n. keep n _ pc)

  charge-Nearest :
      (addr : ℕ) {g : ℕ}
      → Nearest (charge cycles pc t).nodes addr (charge cycles pc t).trie_node g
      → Nearest t.nodes addr t.trie_node g
  unfolding charge
  charge-Nearest addr n =
      Nearest-same (charge-field (λ m. m.link) (λ m c k. refl))
        (charge-field (λ m. m.parent) (λ m c k. refl)) n

  Nearest-charge :
      (addr : ℕ) {g : ℕ}
      → Nearest t.nodes addr t.trie_node g
      → Nearest (charge cycles pc t).nodes addr (charge cycles pc t).trie_node g
  unfolding charge
  Nearest-charge addr n =
      Nearest-same (λ i. sym (charge-field (λ m. m.link) (λ m c k. refl) i))
        (λ i. sym (charge-field (λ m. m.parent) (λ m c k. refl) i)) n

  -- Of the counts it changes those of the current frame.
  pub charge-other :
      (i : ℕ)
      → i ≢ t.trie_node
      → counts (borrow (charge cycles pc t).nodes i) ≡ counts (borrow t.nodes i)
  unfolding charge
  charge-other i other = modify-other t.nodes t.trie_node i _ (λ e. other (sym e))

  pub charge-current :
      IsValid t
      → counts (borrow (charge cycles pc t).nodes t.trie_node)
        ≡ (((borrow t.nodes t.trie_node).cycles + cycles) % u64_mod, pc)
  unfolding charge
  charge-current v = modify-at t.nodes t.trie_node _ v.current

pub charge-Moved :
    (cycles pc : ℕ) (p : Profile) {link : ℕ} {q : Profile} {target : Option ℕ}
    → Moved (record p { trie = charge cycles pc p.trie }) link q target
    → Moved p link q target
charge-Moved cycles pc p (straight at same) =
    straight (at ∙ charge-trie_node cycles pc p.trie) (same ∙ length-charge cycles pc p.trie)
charge-Moved cycles pc p {q = q} (called {addr} known at same addr' link parent) =
    let size = length-charge cycles pc p.trie in
    called known (at ∙ size) (same ∙ ap suc size)
      (ap (λ k. (borrow q.trie.nodes k).addr) (sym size) ∙ addr')
      (ap (λ k. (borrow q.trie.nodes k).link) (sym size) ∙ link)
      (ap (λ k. (borrow q.trie.nodes k).parent) (sym size)
        ∙ parent
        ∙ ap some (charge-trie_node cycles pc p.trie))
charge-Moved cycles pc p (returned {addr} {g} unknown nearest below at same) =
    returned unknown (charge-Nearest cycles pc p.trie addr nearest)
      (sym (charge-field cycles pc p.trie (λ m. m.parent) (λ m c k. refl) g) ∙ below) at
      (same ∙ length-charge cycles pc p.trie)
charge-Moved cycles pc p (skipped {addr} unknown nowhere at same) =
    skipped unknown (λ g n. nowhere g (Nearest-charge cycles pc p.trie addr n))
      (at ∙ charge-trie_node cycles pc p.trie) (same ∙ length-charge cycles pc p.trie)
