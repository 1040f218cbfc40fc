-- ===== src/Gdbstub/Execute/Reports.antt =====
-- What `execute` reports.
use ckb_standalone_debugger.Prelude.{
  ℕ, zero, suc, ◌+◌, ◌%◌, ◌==◌, ◌≡◌, ◌≢◌, refl, ap, sym, subst, Bool, true, false, none, some,
  Bool-cases, Option-cases, inl, inr, some-injective,
}
use ckb_standalone_debugger.Vm.{Vm}
use ckb_standalone_debugger.Gdbstub.State.{
  GdbStubHandler, ExecMode, step_mode, continue_mode, range_step_mode, VmEvent, incoming_data,
  done_step,
}
use ckb_standalone_debugger.Gdbstub.Instruction.{Inner}
use ckb_standalone_debugger.Gdbstub.Step.{step}
use ckb_standalone_debugger.Gdbstub.Execute.{free_run, execute_mode, execute, in_range}
use ckb_standalone_debugger.Gdbstub.Step.Events.{of_step, step-of_step}

module _ {M D I : Type 0} (vm : Vm M D I) (inner : Inner M I) (poll : ℕ → Bool)
    (still : GdbStubHandler M D → Bool) where
  -- How a free run ends, at its last step from `h`: that step raised the event, or it left the
  -- range, or the poll that was due after it found data.
  data Ends : VmEvent × GdbStubHandler M D × ℕ → Type 0 where
    raised :
        {e : VmEvent} {p : ℕ} (h : GdbStubHandler M D)
        → (step vm inner h).0 ≡ some e
        → Ends (e, (step vm inner h).1, p)
    left :
        {p : ℕ} (h : GdbStubHandler M D)
        → (step vm inner h).0 ≡ none
        → still (step vm inner h).1 ≡ false
        → Ends (done_step, (step vm inner h).1, p)
    polled :
        {k : ℕ} (h : GdbStubHandler M D)
        → (step vm inner h).0 ≡ none
        → still (step vm inner h).1 ≡ true
        → poll k ≡ true
        → Ends (incoming_data, (step vm inner h).1, k + 1)

  free_run-Ends :
      (fuel executed polls : ℕ) (h : GdbStubHandler M D) {r : VmEvent × GdbStubHandler M D × ℕ}
      → free_run vm inner poll still fuel executed polls h ≡ some r
      → Ends r
  unfolding free_run
  free_run-Ends zero executed polls h e = cc
  free_run-Ends (suc fuel) executed polls h e = elim (Option-cases (step vm inner h).0) [
    | inr (x, event) ↦ subst Ends (some-injective _ _ (rw (event, free_run) at e)) (raised h event)
    | inl quiet ↦ elim (Bool-cases (still (step vm inner h).1)) [
      | inr out ↦
          subst Ends (some-injective _ _ (rw (quiet, free_run, out) at e)) (left h quiet out)
      | inl in_it ↦ elim (Bool-cases ((executed + 1) % 1024 == 0)) [
        | inr not_due ↦
            free_run-Ends fuel (executed + 1) polls _ (rw (quiet, free_run, in_it, not_due) at e)
        | inl due ↦ elim (Bool-cases (poll polls)) [
          | inl found ↦
              subst Ends (some-injective _ _ (rw (quiet, free_run, in_it, due, found) at e))
                (polled h quiet in_it found)
          | inr nothing ↦
              free_run-Ends fuel (executed + 1) (polls + 1) _
                (rw (quiet, free_run, in_it, due, nothing) at e)
        ]
      ]
    ]
  ]

  Ends-done : {r : VmEvent × GdbStubHandler M D × ℕ} → Ends r → r.0 ≡ done_step → still r.1 ≡ false
  Ends-done (raised h event) e =
      absurd (cc (step-of_step vm inner h, ap (λ x. of_step vm inner (some x)) e, event))
  Ends-done (left h quiet out) e = out
  Ends-done (polled h quiet in_it found) e = cc

  Ends-incoming :
      {r : VmEvent × GdbStubHandler M D × ℕ}
      → Ends r
      → r.0 ≡ incoming_data
      → (k : ℕ) × (poll k ≡ true) × (r.2 ≡ k + 1)
  Ends-incoming (raised h event) e =
      absurd (cc (step-of_step vm inner h, ap (λ x. of_step vm inner (some x)) e, event))
  Ends-incoming (left h quiet out) e = cc
  Ends-incoming (polled {k} h quiet in_it found) e = (k, found, refl)

module _ {M D I : Type 0} (vm : Vm M D I) (inner : Inner M I) (poll : ℕ → Bool) (fuel : ℕ)
    (h : GdbStubHandler M D) {g : GdbStubHandler M D} {p : ℕ} where
  execute_mode-continue : execute_mode vm inner poll continue_mode fuel h ≢ some (done_step, g, p)
  unfolding execute_mode
  execute_mode-continue e = cc (
      Ends-done vm inner poll (λ _. true) (free_run-Ends vm inner poll (λ _. true) fuel 0 1 h e)
        refl)

  -- Past the first poll, `execute` is the loop of the mode.
  execute-mode :
      (mode : ExecMode)
      → h.exec_mode ≡ mode
      → execute vm inner poll fuel h ≡ some (done_step, g, p)
      → execute_mode vm inner poll mode fuel h ≡ some (done_step, g, p)
  unfolding execute
  execute-mode mode same e = elim (Bool-cases (poll 0)) [
    | inl found ↦ absurd (cc (rw (found, execute) at e))
    | inr nothing ↦
        subst (λ x. execute_mode vm inner poll x fuel h ≡ some (done_step, g, p)) same
          (rw (nothing, execute) at e)
  ]

  -- In the mode `Continue`, the target never reports the end of a step.
  pub execute_continue :
      h.exec_mode ≡ continue_mode → execute vm inner poll fuel h ≢ some (done_step, g, p)
  execute_continue mode e = execute_mode-continue (execute-mode continue_mode mode e)

  execute_mode-incoming :
      (mode : ExecMode)
      → execute_mode vm inner poll mode fuel h ≡ some (incoming_data, g, p)
      → (k : ℕ) × (poll k ≡ true) × (p ≡ k + 1)
  unfolding execute_mode
  execute_mode-incoming step_mode e = elim (Option-cases (step vm inner h).0) [
    | inr (x, event) ↦
        let same = some-injective _ _ (rw (event, execute_mode) at e) in
        absurd (cc (step-of_step vm inner h, ap (λ r. of_step vm inner (some r.0)) same, event))
    | inl quiet ↦ absurd (cc (some-injective _ _ (rw (quiet, execute_mode) at e)))
  ]
  execute_mode-incoming continue_mode e =
      Ends-incoming vm inner poll _ (free_run-Ends vm inner poll (λ _. true) fuel 0 1 h e) refl
  execute_mode-incoming (range_step_mode start end) e =
      Ends-incoming vm inner poll _
        (free_run-Ends vm inner poll (in_range vm inner poll start end) fuel 0 1 h e) refl

  -- In every mode, incoming data is reported only if the last poll that was made found some; the
  -- polls are numbered in their order, and their number is counted.
  pub execute_incoming :
      execute vm inner poll fuel h ≡ some (incoming_data, g, p)
      → (k : ℕ) × (poll k ≡ true) × (p ≡ k + 1)
  unfolding execute
  execute_incoming e = elim (Bool-cases (poll 0)) [
    | inl found ↦ (
      0,
      found,
      sym (
          ap (λ (r : VmEvent × GdbStubHandler M D × ℕ). r.2)
            (some-injective _ _ (rw (found, execute) at e))),
    )
    | inr nothing ↦ execute_mode-incoming h.exec_mode (rw (nothing, execute) at e)
  ]
