-- ===== src/Pprof/Display/Flamegraph/Run.antt =====
-- The flame graph of a run.
use ckb_standalone_debugger.Prelude.{
  ℕ, ◌%◌, ◌≡◌, ◌∙◌, ap, subst, false, Option, none, some, List, Bytes, length, Bool-cases,
  Outcome-cases, Option-cases, inl, inr, ok, ok-injective, ltb,
}
use ckb_standalone_debugger.Vm.{Vm, u64_mod, sp}
use ckb_standalone_debugger.Pprof.Trie.{Trie, IsValid, charge, quit_or_skip}
use ckb_standalone_debugger.Pprof.Trie.Valid.{charge-IsValid}
use ckb_standalone_debugger.Pprof.Symbols.{Elf, Profile, new, contains_key}
use ckb_standalone_debugger.Pprof.Step.{copy_registers, jump, account, step}
use ckb_standalone_debugger.Pprof.Step.Totals.{step-Charged}
use ckb_standalone_debugger.Pprof.Machine.{State, reset, advance, turn, loop}
use ckb_standalone_debugger.Pprof.Machine.Totals.{
  Ran, halted, executed, cost, execute_lem, IsValid-new, run_total,
}
use ckb_standalone_debugger.Pprof.Tags.{Addr2line, TagCache}
use ckb_standalone_debugger.Pprof.Tags.Cache.{IsCached}
use ckb_standalone_debugger.Pprof.Display.{Line, display_flamegraph_rec}
use ckb_standalone_debugger.Pprof.Display.Flamegraph.{
  IsLinked, AllTagged, line_cycles, display_flamegraph_rec-total,
}
use ckb_standalone_debugger.Pprof.Display.Flamegraph.Linked.{
  charge-IsLinked, call-IsLinked, quit_or_skip-IsLinked, new-IsLinked,
}

-- Well formed and well linked.
abbrev Sound : Trie → Type 0
Sound t = IsValid t × IsLinked t.nodes t.trie_root

module _ {M D I : Type 0} (vm : Vm M D I) where
  jump-IsLinked :
      (p : Profile) (inst : I) (pc : ℕ) (m : M) (target : Option ℕ) {q : Profile}
      → Sound p.trie
      → jump vm p inst pc m target ≡ ok q
      → IsLinked q.trie.nodes q.trie.trie_root
  unfolding jump
  jump-IsLinked p inst pc m none (v, l) e =
      subst (λ (x : Profile). IsLinked x.trie.nodes x.trie.trie_root) (ok-injective e) l
  jump-IsLinked p inst pc m (some addr) (v, l) e =
      elim (Bool-cases (contains_key p.cache_fun addr)) [
        | inl known ↦
            subst (λ (x : Profile). IsLinked x.trie.nodes x.trie.trie_root)
              (ok-injective (rw (known, jump) at e))
              (call-IsLinked addr _ pc (copy_registers vm m) p.trie v l)
        | inr unknown ↦ elim (Outcome-cases (quit_or_skip addr (copy_registers vm m) p.trie)) [
          | inl (t, good) ↦
              subst (λ (x : Profile). IsLinked x.trie.nodes x.trie.trie_root)
                (ok-injective (rw (unknown, jump, good) at e))
                (quit_or_skip-IsLinked addr (copy_registers vm m) p.trie v l good)
          | inr (inl (x, bad)) ↦ absurd (cc (rw (unknown, jump, bad) at e))
          | inr (inr gone) ↦ absurd (cc (rw (unknown, jump, gone) at e))
        ]
      ]

  step-IsLinked :
      (p : Profile) (d : D) (m : M) {q : Profile}
      → Sound p.trie
      → (step vm p d m).0 ≡ ok q
      → IsLinked q.trie.nodes q.trie.trie_root
  unfolding step account
  step-IsLinked p d m {q} (v, l) e = elim (Bool-cases (ltb (vm.registers m sp) p.trie.sbrk_heap)) [
    | inl low ↦ absurd (cc (rw (low, step) at e))
    | inr fits ↦ elim (Outcome-cases (vm.decode d m (vm.pc m)).0) [
      | inl (inst, good) ↦
          jump-IsLinked (record p { trie = charge (vm.instruction_cycle inst) (vm.pc m) p.trie })
            inst (vm.pc m) _ _
            (charge-IsValid _ (vm.pc m) p.trie v, charge-IsLinked _ (vm.pc m) p.trie v l)
            (rw (fits, step, good) at e)
      | inr (inl (x, bad)) ↦ absurd (cc (rw (fits, step, bad) at e))
      | inr (inr gone) ↦ absurd (cc (rw (fits, step, gone) at e))
    ]
  ]

module _ {M D I : Type 0} (vm : Vm M D I) (parse : Bytes → Option Elf) where
  reset-Sound :
      (s : State M D) {t : State M D}
      → Sound s.profile.trie
      → reset vm parse s ≡ ok t
      → Sound t.profile.trie
  unfolding reset
  reset-Sound s good e = elim (Bool-cases (vm.reset_signal s.machine).0) [
    | inr quiet ↦
        subst (λ (x : State M D). Sound x.profile.trie) (ok-injective (rw (quiet, reset) at e)) good
    | inl loaded ↦ elim (Option-cases (parse (vm.code (vm.reset_signal s.machine).1))) [
      | inl refused ↦ absurd (cc (rw (loaded, reset, refused) at e))
      | inr (elf, parsed) ↦
          subst (λ (x : State M D). Sound x.profile.trie)
            (ok-injective (rw (loaded, reset, parsed) at e)) (IsValid-new elf, new-IsLinked elf)
    ]
  ]

  advance-Sound :
      (s : State M D) {t : State M D}
      → Sound s.profile.trie
      → advance vm parse s ≡ ok t
      → Sound t.profile.trie
  unfolding advance
  advance-Sound s {t} good e = elim (Outcome-cases (step vm s.profile s.decoder s.machine).0) [
    | inl (p, went) ↦
        let (inst, decoded, fits, charged) =
          step-Charged vm s.profile s.decoder s.machine good.0 went in
        let profile = execute_lem vm parse p _ _ (rw (went, advance) at e) in
        rw profile (charged.valid, step-IsLinked vm s.profile s.decoder s.machine good went)
    | inr (inl (x, bad)) ↦ absurd (cc (rw (bad, advance) at e))
    | inr (inr gone) ↦ absurd (cc (rw (gone, advance) at e))
  ]

  Ran-Sound :
      {s t : State M D} {insts : List I}
      → Sound s.profile.trie
      → Ran vm parse s insts t
      → Sound t.profile.trie
  unfolding turn
  Ran-Sound good (halted off) = good
  Ran-Sound good (executed {s} on quiet decoded went rest) =
      elim (Outcome-cases (reset vm parse s)) [
        | inl (r, fine) ↦
            Ran-Sound (advance-Sound r (reset-Sound s good fine) (rw (fine, turn) at went)) rest
        | inr (inl (x, bad)) ↦ absurd (cc (rw (bad, turn) at went))
        | inr (inr gone) ↦ absurd (cc (rw (gone, turn) at went))
      ]

  -- If the machine never signals that another program was loaded, the profiler starts with a new
  -- profile, the run succeeds, the functions of all frames at its end can be named without a panic
  -- of `get_tag`, and the cache is good, then the flame graph ends, and the cycles on its lines add
  -- up to the costs of the instructions that the run executed, modulo 2^64.
  pub run_flamegraph :
      (addrctx : Addr2line) (fuel : ℕ) (elf : Elf) (m : M) (d : D) (prefix : Bytes)
      (cache : TagCache) {t : State M D}
      → ((m' : M) → (vm.reset_signal m').0 ≡ false)
      → loop vm parse fuel (record { machine = m; decoder = d; profile = new elf }) ≡ some (ok t)
      → AllTagged addrctx t.profile.trie
      → IsCached addrctx cache
      → (insts : List I) × (lines : List Line) × (cache' : TagCache) × Ran vm parse
          (record { machine = m; decoder = d; profile = new elf })
          insts
          t
        × (display_flamegraph_rec addrctx
              (length t.profile.trie.nodes)
              t.profile.trie.nodes
              prefix
              t.profile.trie.trie_root
              cache
            ≡ some (lines, cache'))
        × (line_cycles lines % u64_mod ≡ cost vm parse insts % u64_mod)
  run_flamegraph addrctx fuel elf m d prefix cache {t} quiet e tagged good =
      let (insts, ran, total, valid) = run_total vm parse fuel elf m d quiet e in
      let sound = Ran-Sound (IsValid-new elf, new-IsLinked elf) ran in
      let (lines, cache', shown, same) =
        display_flamegraph_rec-total addrctx t.profile.trie sound.1 tagged prefix cache good in
      (insts, lines, cache', ran, shown, ap (λ k. k % u64_mod) same ∙ total)
