-- ===== src/Pprof/Trie/Returns.antt =====
-- Which frame a return leaves: the closures `call` and `quit_or_skip` against the call stack.
use ckb_standalone_debugger.Prelude.{
  ℕ, zero, suc, ◌<◌, ◌≤◌, ◌≡◌, ◌⊎◌, refl, ◌∙◌, ap, sym, some, List, length, Option-cases, ==_iff,
  ne→==-false, inl, inr, subst, arith, ok, ok-injective,
}
use ckb_standalone_debugger.Pprof.Trie.{
  Registers, TrieNode, Trie, borrow, charge, call, save_regs, find_frame, quit, quit_or_skip,
  IsValid, Nearest, here, up,
}
use ckb_standalone_debugger.Pprof.Trie.Valid.{
  Extends, Extends-trans, Extends-refl, charge-Extends, charge-IsValid, call-Extends, call-IsValid,
  call_frame, length-call, quit-caller, quit_panics, quit-Keeps, find_frame-Nearest,
}

module _ (nodes : List TrieNode) (addr : ℕ)
    (older : (i p : ℕ) → i < length nodes → (borrow nodes i).parent ≡ some p → p < i) where
  -- With a round for each frame that can be below, the walk reaches the nearest one.
  Nearest-find_frame :
      (fuel : ℕ) {f g : ℕ}
      → f < fuel
      → f < length nodes
      → Nearest nodes addr f g
      → find_frame fuel nodes f addr ≡ some g
  unfolding find_frame
  Nearest-find_frame zero lt h n = elim lt [ ]
  Nearest-find_frame (suc fuel) lt h (here e) = rw ((==_iff _ _).1 e, find_frame)
  Nearest-find_frame (suc fuel) {f} lt h (up {p = p} miss below n) =
      rw (ne→==-false _ _ miss, find_frame, below)
        (Nearest-find_frame fuel (omega (arith, older f p h below))
          (omega (arith, older f p h below)) n)

module _ (addr : ℕ) (regs : Registers) (t : Trie) (v : IsValid t) where
  -- In a valid tree, a jump to the return address of a frame that is on the stack leaves that
  -- frame, the nearest of them if there are several: its caller becomes current.
  pub quit_or_skip_returns :
      {g p : ℕ}
      → Nearest t.nodes addr t.trie_node g
      → (borrow t.nodes g).parent ≡ some p
      → quit_or_skip addr regs t ≡ ok (record (save_regs regs t) { trie_node = p })
  unfolding quit_or_skip
  quit_or_skip_returns {g} {p} n below =
      rw (Nearest-find_frame t.nodes addr v.older (suc t.trie_node) (omega arith) v.current n)
        (quit-caller regs t g p below)

  -- In a valid tree, a jump to an address that no frame on the stack returns to changes nothing.
  pub quit_or_skip_skips :
      ((g : ℕ) → ¬ Nearest t.nodes addr t.trie_node g) → quit_or_skip addr regs t ≡ ok t
  unfolding quit_or_skip quit
  quit_or_skip_skips none_there =
      elim (Option-cases (find_frame (suc t.trie_node) t.nodes t.trie_node addr)) [
        | inl e ↦ rw e
        | inr (g, e) ↦ absurd (none_there g (find_frame-Nearest t.nodes addr (suc t.trie_node) _ e))
      ]

-- In a valid tree, a jump that is no call leaves the nearest frame that returns there, or changes
-- nothing because there is none.
pub quit_or_skip_cases :
    (addr : ℕ) (regs : Registers) (t : Trie) {u : Trie}
    → IsValid t
    → quit_or_skip addr regs t ≡ ok u
    → ((g : ℕ) × (p : ℕ) × Nearest t.nodes addr t.trie_node g
        × ((borrow t.nodes g).parent ≡ some p)
        × (u ≡ record (save_regs regs t) { trie_node = p }))
      ⊎ (((g : ℕ) → ¬ Nearest t.nodes addr t.trie_node g) × (u ≡ t))
unfolding quit_or_skip
quit_or_skip_cases addr regs t {u} v e =
    elim (Option-cases (find_frame (suc t.trie_node) t.nodes t.trie_node addr)) [
      | inl nowhere ↦
          let same : ok t ≡ ok u = unfold quit in rw nowhere at e in
          inr (
            λ g n. cc (
                Nearest-find_frame t.nodes addr v.older (suc t.trie_node) (omega arith) v.current
                  n),
            sym (ok-injective same),
          )
      | inr (g, there) ↦ elim (Option-cases (borrow t.nodes g).parent) [
        | inl top ↦ absurd (cc (quit_panics regs t g top))
        | inr (p, below) ↦ inl (
          g,
          p,
          find_frame-Nearest t.nodes addr (suc t.trie_node) _ there,
          below,
          ok-injective (sym (rw there at e) ∙ quit-caller regs t g p below),
        )
      ]
    ]

Nearest-le :
    (t : Trie) (addr : ℕ) {f g : ℕ}
    → IsValid t
    → f < length t.nodes
    → Nearest t.nodes addr f g
    → g ≤ f
Nearest-le t addr v h (here e) = omega arith
Nearest-le t addr {f} v h (up {p = p} miss below n) =
    let lt : p < f = v.older f p h below in omega (arith, Nearest-le t addr v (omega arith) n)

-- A jump that is no call keeps the tree valid, and every frame's return address and caller.
pub quit_or_skip-Keeps :
    (addr : ℕ) (regs : Registers) (t : Trie) {u : Trie}
    → IsValid t
    → quit_or_skip addr regs t ≡ ok u
    → IsValid u × Extends t u
unfolding quit_or_skip
quit_or_skip-Keeps addr regs t {u} v e =
    elim (Option-cases (find_frame (suc t.trie_node) t.nodes t.trie_node addr)) [
      | inl nowhere ↦
          let same : ok t ≡ ok u = unfold quit in rw nowhere at e in
          subst (λ w. IsValid w × Extends t w) (ok-injective same) (v, Extends-refl t)
      | inr (g, there) ↦
          quit-Keeps regs t g
            (omega (
              arith,
              v.current,
              Nearest-le t addr v v.current
                  (find_frame-Nearest t.nodes addr (suc t.trie_node) _ there),
            ))
            v (rw there at e)
    ]

-- The body of a function: work, and calls that come back by a jump to their return address.
pub data Balanced : Trie → Trie → Type 0 where
  stay : {t : Trie} → Balanced t t
  work : {t u : Trie} (cycles pc : ℕ) → Balanced (charge cycles pc t) u → Balanced t u
  nested :
      {t u v w : Trie} (addr link pc : ℕ) (before after : Registers)
      → Balanced (call addr link pc before t) u
      → quit_or_skip link after u ≡ ok v
      → Balanced v w
      → Balanced t w

-- What a body that starts in a valid tree keeps.
record Kept (t u : Trie) : Type 0 where
  valid : IsValid u
  extends : Extends t u
  back : u.trie_node ≡ t.trie_node

-- A body in a frame that `call` made, and the jump that leaves it, are a body of the caller.
nested-Kept :
    (addr link pc : ℕ) (before after : Registers) {t u v : Trie}
    → IsValid t
    → Kept (call addr link pc before t) u
    → quit_or_skip link after u ≡ ok v
    → Kept t v
nested-Kept addr link pc before after {t} {u} {v} w k e =
    let fresh : length t.nodes < length (call addr link pc before t).nodes =
      omega (arith, length-call addr link pc before t) in
    let frame = call_frame addr link pc before t in
    let at : u.trie_node ≡ length t.nodes = k.back ∙ frame.0 in
    let linked : (borrow u.nodes u.trie_node).link ≡ link =
      ap (λ i. (borrow u.nodes i).link) at ∙ k.extends.same_link _ fresh ∙ frame.1 in
    let called : (borrow u.nodes u.trie_node).parent ≡ some t.trie_node =
      ap (λ i. (borrow u.nodes i).parent) at ∙ k.extends.same_parent _ fresh ∙ frame.2 in
    let same =
      ok-injective (sym (quit_or_skip_returns link after u k.valid (here linked) called) ∙ e) in
    let both = quit_or_skip-Keeps link after u k.valid e in
    record {
      valid = both.0;
      extends = Extends-trans (call-Extends addr link pc before t) (Extends-trans k.extends both.1);
      back = sym (ap (λ (x : Trie). x.trie_node) same);
    }

Balanced-Kept : {t u : Trie} → IsValid t → Balanced t u → Kept t u
Balanced-Kept v (stay {t}) = record { valid = v; extends = Extends-refl t; back = refl }
Balanced-Kept {t} v (work cycles pc b) =
    let k = Balanced-Kept (charge-IsValid cycles pc t v) b in
    record {
      valid = k.valid;
      extends = Extends-trans (charge-Extends cycles pc t) k.extends;
      back = k.back ∙ (unfold charge in refl);
    }
Balanced-Kept {t} w (nested addr link pc before after b e rest) =
    let k =
      nested-Kept addr link pc before after w
        (Balanced-Kept (call-IsValid addr link pc before t w) b) e in
    let r = Balanced-Kept k.valid rest in
    record { valid = r.valid; extends = Extends-trans k.extends r.extends; back = r.back ∙ k.back }

-- However deep the calls of a body nest, when it ends in a valid tree the frame that was current
-- when it began is current again, and the tree is valid.
pub Balanced-back :
    {t u : Trie} → IsValid t → Balanced t u → (u.trie_node ≡ t.trie_node) × IsValid u
Balanced-back v b = let k = Balanced-Kept v b in (k.back, k.valid)
