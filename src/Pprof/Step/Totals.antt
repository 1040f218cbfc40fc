-- ===== src/Pprof/Step/Totals.antt =====
-- What one profiled instruction does to the tree.
use ckb_standalone_debugger.Prelude.{
  ℕ, ◌+◌, ◌%◌, ◌≡◌, ◌≢◌, ◌<◌, length, arith, refl, ◌∙◌, ap, sym, Option, none, some, ltb,
  Bool-cases, inl, inr, ltb-false→le, ◌≤◌, ok, err, panic, ok-injective, subst,
}
use ckb_standalone_debugger.Vm.{Vm, VmResult, u64_mod, sp}
use ckb_standalone_debugger.Pprof.Trie.{Trie, borrow, charge, quit_or_skip, IsValid, total_cycles}
use ckb_standalone_debugger.Pprof.Trie.Valid.{charge-IsValid, call-IsValid}
use ckb_standalone_debugger.Pprof.Trie.Returns.{quit_or_skip-Keeps}
use ckb_standalone_debugger.Pprof.Trie.Cycles.{
  total_cycles-charge, total_cycles-call, total_cycles-quit_or_skip,
}
use ckb_standalone_debugger.Pprof.Step.Moves.{
  Moved, counts, jump-Moved, length-charge, charge-Moved, charge-current, charge-other,
}
use ckb_standalone_debugger.Pprof.Symbols.{Profile, contains_key}
use ckb_standalone_debugger.Pprof.Step.{copy_registers, jump_target, jump, account, step}

-- What a jump keeps of a profile.
record Kept (p q : Profile) : Type 0 where
  valid : IsValid q.trie
  same_total : total_cycles q.trie.nodes ≡ total_cycles p.trie.nodes
  same_functions : q.cache_fun ≡ p.cache_fun

module _ {M D I : Type 0} (vm : Vm M D I) where
  jump-Kept :
      (p : Profile) (inst : I) (pc : ℕ) (m : M) (target : Option ℕ) {q : Profile}
      → IsValid p.trie
      → jump vm p inst pc m target ≡ ok q
      → Kept p q
  unfolding jump
  jump-Kept p inst pc m none v e =
      subst (Kept p) (ok-injective e)
        (record { valid = v; same_total = refl; same_functions = refl })
  jump-Kept p inst pc m (some addr) {q} v e = elim (Bool-cases (contains_key p.cache_fun addr)) [
    | inl known ↦ subst (Kept p) (ok-injective (rw (known, jump) at e)) (record {
      valid = call-IsValid addr _ pc (copy_registers vm m) p.trie v;
      same_total = total_cycles-call addr _ pc (copy_registers vm m) p.trie;
      same_functions = refl;
    })
    | inr unknown ↦
        go (quit_or_skip addr (copy_registers vm m) p.trie) refl (rw (unknown, jump) at e)
  ]
    where
      go :
          (r : VmResult Trie)
          → quit_or_skip addr (copy_registers vm m) p.trie ≡ r
          → ◌≡◌ {A = VmResult Profile}
              (elim r [ ok t ↦ ok (record p { trie = t }) | err e ↦ err e | panic ↦ panic ])
              (ok q)
          → Kept p q
      go (ok t) same h = subst (Kept p) (ok-injective h) (record {
        valid = (quit_or_skip-Keeps addr (copy_registers vm m) p.trie v same).0;
        same_total = total_cycles-quit_or_skip addr (copy_registers vm m) p.trie same;
        same_functions = refl;
      })
      go (err x) same h = cc
      go panic same h = cc

  -- What an instruction that was profiled leaves: a valid tree with the same functions, whose
  -- total has grown by the cycles of the instruction. These were added to the frame that was
  -- current, which has seen the program counter, and no other frame's cycles have changed. The
  -- current frame is the one that the instruction's jump target says.
  pub record Charged (p : Profile) (inst : I) (pc : ℕ) (m : M) (q : Profile) : Type 0 where
    pub valid : IsValid q.trie
    pub same_functions : q.cache_fun ≡ p.cache_fun
    pub total :
        total_cycles q.trie.nodes % u64_mod
        ≡ (total_cycles p.trie.nodes + vm.instruction_cycle inst) % u64_mod
    pub current : counts (borrow q.trie.nodes p.trie.trie_node) ≡ (
      ((borrow p.trie.nodes p.trie.trie_node).cycles + vm.instruction_cycle inst) % u64_mod,
      pc,
    )
    pub others :
        (i : ℕ)
        → i < length p.trie.nodes
        → i ≢ p.trie.trie_node
        → counts (borrow q.trie.nodes i) ≡ counts (borrow p.trie.nodes i)
    pub moved : Moved p ((pc + vm.instruction_length inst) % u64_mod) q (jump_target vm inst pc m)

  account-Charged :
      (p : Profile) (inst : I) (pc : ℕ) (m : M) {q : Profile}
      → IsValid p.trie
      → account vm p inst pc m ≡ ok q
      → Charged p inst pc m q
  unfolding account
  account-Charged p inst pc m v e =
      let k =
        jump-Kept (record p { trie = charge (vm.instruction_cycle inst) pc p.trie }) inst pc m
          (jump_target vm inst pc m) (charge-IsValid _ pc p.trie v) e in
      let (same, moved) =
        jump-Moved vm (record p { trie = charge (vm.instruction_cycle inst) pc p.trie }) inst pc m
          (jump_target vm inst pc m) (charge-IsValid _ pc p.trie v) e in
      let size = length-charge (vm.instruction_cycle inst) pc p.trie in
      record {
        valid = k.valid;
        same_functions = k.same_functions;
        total =
            ap (λ t. t % u64_mod) k.same_total
            ∙ total_cycles-charge (vm.instruction_cycle inst) pc p.trie v;
        current =
            same p.trie.trie_node (omega (arith, size, v.current))
            ∙ charge-current (vm.instruction_cycle inst) pc p.trie v;
        others = λ i there other.
            same i (omega (arith, size, there))
            ∙ charge-other (vm.instruction_cycle inst) pc p.trie i other;
        moved = charge-Moved (vm.instruction_cycle inst) pc p moved;
      }

  -- If a step succeeds from a valid profile, then the decoder gave an instruction at the program
  -- counter, the stack was not below the heap's end, the new tree is valid, and that instruction's
  -- cycles, modulo 2^64, were added to the total of the tree and to the frame that was current, and
  -- to no other frame. The current frame stays without a jump; a jump to a function makes a new
  -- one, called by it, that returns behind the instruction; a jump to the return address of a frame
  -- on the stack goes to the caller of the nearest such frame; any other jump leaves it.
  pub step-Charged :
      (p : Profile) (d : D) (m : M) {q : Profile}
      → IsValid p.trie
      → (step vm p d m).0 ≡ ok q
      → (inst : I) × ((vm.decode d m (vm.pc m)).0 ≡ ok inst)
        × (p.trie.sbrk_heap ≤ vm.registers m sp)
        × Charged p inst (vm.pc m) (vm.decode d m (vm.pc m)).2 q
  unfolding step
  step-Charged p d m {q} v e = elim (Bool-cases (ltb (vm.registers m sp) p.trie.sbrk_heap)) [
    | inl low ↦ absurd (cc (rw (low, step) at e))
    | inr fits ↦ go (ltb-false→le _ _ fits) (vm.decode d m (vm.pc m)) refl (rw (fits, step) at e)
  ]
    where
      go :
          p.trie.sbrk_heap ≤ vm.registers m sp
          → (r : VmResult I × D × M) → vm.decode d m (vm.pc m) ≡ r
          → (let (decoded, d', m') = r in
              ◌≡◌ {A = VmResult Profile}
                (elim decoded [
                  | ok inst ↦ account vm p inst (vm.pc m) m'
                  | err x ↦ err x
                  | panic ↦ panic
                ])
                (ok q))
          → (inst : I) × ((vm.decode d m (vm.pc m)).0 ≡ ok inst)
            × (p.trie.sbrk_heap ≤ vm.registers m sp)
            × Charged p inst (vm.pc m) (vm.decode d m (vm.pc m)).2 q
      go fits (ok inst, d', m') same h = (
        inst,
        ap (λ r. r.0) same,
        fits,
        subst (λ k. Charged p inst (vm.pc m) k q) (sym (ap (λ r. r.2) same))
            (account-Charged p inst (vm.pc m) m' v h),
      )
      go fits (err x, d', m') same h = cc
      go fits (panic, d', m') same h = cc
