-- ===== src/Pprof/Machine/Totals.antt =====
-- The whole run: the instructions that it executes, the validity of the tree and the total of the
-- cycles.
use ckb_standalone_debugger.Prelude.{
  ℕ, zero, suc, ◌+◌, ◌<◌, ◌%◌, ◌≡◌, refl, ap, sym, true, false, Option, some, List, [], ◌∷◌, Bytes,
  Bool-cases, Outcome-cases, inl, inr, arith, ok, ok-injective, subst, some-injective,
}
use ckb_standalone_debugger.Vm.{Vm, u64_mod}
use ckb_standalone_debugger.Pprof.Trie.{root, borrow, IsValid, total_cycles}
use ckb_standalone_debugger.Pprof.Symbols.{Elf, Profile, new}
use ckb_standalone_debugger.Pprof.Step.{step}
use ckb_standalone_debugger.Pprof.Step.Totals.{step-Charged}
use ckb_standalone_debugger.Pprof.Machine.{State, reset, execute, advance, turn, loop}

-- A new profile holds the root alone, which nobody called.
new-older : (elf : Elf) (i p : ℕ) → i < 1 → (borrow (new elf).trie.nodes i).parent ≡ some p → p < i
unfolding new root
new-older elf zero p h e = cc
new-older elf (suc i) p h e = absurd (omega arith)

pub IsValid-new : (elf : Elf) → IsValid (new elf).trie
unfolding new
IsValid-new elf = record { current = omega arith; older = new-older elf }

total_cycles-new : (elf : Elf) → total_cycles (new elf).trie.nodes ≡ 0
unfolding new total_cycles root
total_cycles-new elf = refl

module _ {M D I : Type 0} (vm : Vm M D I) (parse : Bytes → Option Elf) where
  -- The run from one state to the end of the loop executed these instructions, in this order: each
  -- is what the decoder gives at the program counter of the state that the turn begins with, the
  -- signal of a new program read and not set. At the end the machine is not running.
  pub data Ran : State M D → List I → State M D → Type 0 where
    halted : {s : State M D} → vm.running s.machine ≡ false → Ran s [] s
    executed :
        {s t u : State M D} {inst : I} {insts : List I}
        → vm.running s.machine ≡ true
        → (vm.reset_signal s.machine).0 ≡ false
        → (vm.decode s.decoder
            (vm.reset_signal s.machine).1
            (vm.pc (vm.reset_signal s.machine).1)).0
          ≡ ok inst
        → turn vm parse s ≡ ok t
        → Ran t insts u
        → Ran s (inst ∷ insts) u

  -- The cost of a list of instructions.
  abbrev pub cost : List I → ℕ
  cost [] = 0
  cost (inst ∷ insts) = vm.instruction_cycle inst + cost insts

  pub execute_lem :
      (p : Profile) (d : D) (m : M) {t : State M D} → execute vm parse p d m ≡ ok t → t.profile ≡ p
  unfolding execute
  execute_lem p d m {t} e = elim (Outcome-cases (vm.step d m).0) [
    | inl (tt, good) ↦
        sym (ap (λ (x : State M D). x.profile) (ok-injective (rw (good, execute) at e)))
    | inr (inl (x, bad)) ↦ absurd (cc (rw (bad, execute) at e))
    | inr (inr gone) ↦ absurd (cc (rw (gone, execute) at e))
  ]

  -- A turn decodes an instruction, and charges its cost.
  record Charges (s : State M D) (inst : I) (t : State M D) : Type 0 where
    decoded : (vm.decode s.decoder s.machine (vm.pc s.machine)).0 ≡ ok inst
    valid : IsValid t.profile.trie
    total :
        total_cycles t.profile.trie.nodes % u64_mod
        ≡ (total_cycles s.profile.trie.nodes + vm.instruction_cycle inst) % u64_mod

  advance-Charges :
      (s : State M D) {t : State M D}
      → IsValid s.profile.trie
      → advance vm parse s ≡ ok t
      → (inst : I) × Charges s inst t
  unfolding advance
  advance-Charges s {t} v e = elim (Outcome-cases (step vm s.profile s.decoder s.machine).0) [
    | inl (p, good) ↦
        let (inst, decoded, fits, charged) = step-Charged vm s.profile s.decoder s.machine v good in
        let profile = execute_lem p _ _ (rw (good, advance) at e) in
        (
          inst,
          record {
            decoded = decoded;
            valid = rw profile charged.valid;
            total = rw profile charged.total;
          },
        )
    | inr (inl (x, bad)) ↦ absurd (cc (rw (bad, advance) at e))
    | inr (inr gone) ↦ absurd (cc (rw (gone, advance) at e))
  ]

  -- Without a new program, a turn is `advance` with the signal read.
  turn-advance :
      (s : State M D) {t : State M D}
      → (vm.reset_signal s.machine).0 ≡ false
      → turn vm parse s ≡ ok t
      → advance vm parse (record s { machine = (vm.reset_signal s.machine).1 }) ≡ ok t
  unfolding turn reset
  turn-advance s quiet e = rw (quiet, turn, reset) at e

  loop-Ran :
      (fuel : ℕ) (s : State M D) {t : State M D}
      → ((m : M) → (vm.reset_signal m).0 ≡ false)
      → IsValid s.profile.trie
      → loop vm parse fuel s ≡ some (ok t)
      → (insts : List I) × Ran s insts t
        × (total_cycles t.profile.trie.nodes % u64_mod
            ≡ (total_cycles s.profile.trie.nodes + cost insts) % u64_mod)
        × IsValid t.profile.trie
  unfolding loop
  loop-Ran zero s quiet v e = cc
  loop-Ran (suc fuel) s {t} quiet v e = elim (Bool-cases (vm.running s.machine)) [
    | inr off ↦
        let same : s ≡ t = ok-injective (some-injective _ _ (rw (off, loop) at e)) in
        (
          [],
          subst (Ran s []) same (halted off),
          omega (arith, ap (λ (x : State M D). total_cycles x.profile.trie.nodes) same),
          subst (λ (x : State M D). IsValid x.profile.trie) same v,
        )
    | inl on ↦ elim (Outcome-cases (turn vm parse s)) [
      | inl (r, good) ↦
          let (inst, first) = advance-Charges _ v (turn-advance s (quiet s.machine) good) in
          let (insts, rest, total, valid) =
            loop-Ran fuel r quiet first.valid (rw (on, loop, good) at e) in
          (
            inst ∷ insts,
            executed on (quiet s.machine) first.decoded good rest,
            omega (arith, first.total, total),
            valid,
          )
      | inr (inl (x, bad)) ↦ absurd (cc (some-injective _ _ (rw (on, loop, bad) at e)))
      | inr (inr gone) ↦ absurd (cc (some-injective _ _ (rw (on, loop, gone) at e)))
    ]
  ]

  -- If the machine never signals that another program was loaded, and the profiler starts with a
  -- new profile, then at the end of a run that succeeds the cycles of all the frames add up to the
  -- costs of the instructions that the run executed, modulo 2^64, and the tree is valid.
  pub run_total :
      (fuel : ℕ) (elf : Elf) (m : M) (d : D) {t : State M D}
      → ((m' : M) → (vm.reset_signal m').0 ≡ false)
      → loop vm parse fuel (record { machine = m; decoder = d; profile = new elf }) ≡ some (ok t)
      → (insts : List I) × Ran (record { machine = m; decoder = d; profile = new elf }) insts t
        × (total_cycles t.profile.trie.nodes % u64_mod ≡ cost insts % u64_mod)
        × IsValid t.profile.trie
  run_total fuel elf m d quiet e =
      let (insts, ran, total, valid) = loop-Ran fuel _ quiet (IsValid-new elf) e in
      (insts, ran, omega (arith, total, total_cycles-new elf), valid)
