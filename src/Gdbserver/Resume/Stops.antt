-- ===== src/Gdbserver/Resume/Stops.antt =====
-- When `continue` and range step come back, and with what.
use ckb_standalone_debugger.Prelude.{
  ℕ, zero, suc, ◌≡◌, refl, ◌∙◌, sym, subst, inl, inr, Bool, true, false, some, [], ok, err, panic,
  Bool-cases, Outcome-cases, some-injective, arith,
}
use ckb_standalone_debugger.Vm.{Vm}
use ckb_standalone_debugger.Protocol.Types.{StopReason, signal, exited, Error, Handled}
use ckb_standalone_debugger.Gdbserver.State.{GdbHandler}
use ckb_standalone_debugger.Gdbserver.Watchpoints.{at_watchpoint, check_watchpoints}
use ckb_standalone_debugger.Gdbserver.Resume.{Session, step_machine, report, resume}

module _ {M D I : Type 0} (vm : Vm M D I) (keep : GdbHandler M → Bool) where
  -- The session after `at_watchpoint`.
  abbrev pub seen : Session vm → Session vm
  seen s = record s { handler = (at_watchpoint vm s.handler).1 }

  -- The loop without fuel: from `s` it comes back with the answer.
  pub data Resumes : Session vm → Handled StopReason × GdbHandler M → Type 0 where
    halted : {s : Session vm} → keep s.handler ≡ false → Resumes s (report vm s)
    watched :
        {s : Session vm}
        → keep s.handler ≡ true
        → (at_watchpoint vm s.handler).0 ≡ ok true
        → Resumes s (report vm (seen s))
    unreadable :
        {s : Session vm} {e : Error}
        → keep s.handler ≡ true
        → (at_watchpoint vm s.handler).0 ≡ err e
        → Resumes s (err e, (seen s).handler)
    watch_panics :
        {s : Session vm}
        → keep s.handler ≡ true
        → (at_watchpoint vm s.handler).0 ≡ panic
        → Resumes s (panic, (seen s).handler)
    stepped :
        {s : Session vm} {r : Handled StopReason × GdbHandler M}
        → keep s.handler ≡ true
        → (at_watchpoint vm s.handler).0 ≡ ok false
        → (step_machine vm (seen s)).0 ≡ ok true
        → Resumes (step_machine vm (seen s)).1 r
        → Resumes s r
    failed :
        {s : Session vm}
        → keep s.handler ≡ true
        → (at_watchpoint vm s.handler).0 ≡ ok false
        → (step_machine vm (seen s)).0 ≡ ok false
        → Resumes s (ok (signal 5), (step_machine vm (seen s)).1.handler)
    step_panics :
        {s : Session vm}
        → keep s.handler ≡ true
        → (at_watchpoint vm s.handler).0 ≡ ok false
        → (step_machine vm (seen s)).0 ≡ panic
        → Resumes s (panic, (step_machine vm (seen s)).1.handler)

  -- The machine's errors are reported as a signal, never as an error of the handler.
  step_machine-err : (s : Session vm) (e : Error) → (step_machine vm s).0 ≡ err e → ⊥
  unfolding step_machine
  step_machine-err s e h = ground arith

  pub resume-Resumes :
      (fuel : ℕ) (s : Session vm) {r : Handled StopReason × GdbHandler M}
      → resume vm keep fuel s ≡ some r
      → Resumes s r
  unfolding resume
  resume-Resumes zero s e = cc
  resume-Resumes (suc fuel) s {r} e = elim (Bool-cases (keep s.handler)) [
    | inr stop ↦ subst (Resumes s) (some-injective _ _ (rw (stop, resume) at e)) (halted stop)
    | inl on ↦ elim (Outcome-cases (at_watchpoint vm s.handler).0) [
      | inl (true, w) ↦
          subst (Resumes s) (some-injective _ _ (rw (on, resume, w) at e)) (watched on w)
      | inl (false, w) ↦ elim (Outcome-cases (step_machine vm (seen s)).0) [
        | inl (true, st) ↦ stepped on w st (resume-Resumes fuel _ (rw (on, resume, w, st) at e))
        | inl (false, st) ↦
            subst (Resumes s) (some-injective _ _ (rw (on, resume, w, st) at e)) (failed on w st)
        | inr (inl (x, st)) ↦ absurd (step_machine-err _ x st)
        | inr (inr st) ↦
            subst (Resumes s) (some-injective _ _ (rw (on, resume, w, st) at e))
              (step_panics on w st)
      ]
      | inr (inl (x, w)) ↦
          subst (Resumes s) (some-injective _ _ (rw (on, resume, w) at e)) (unreadable on w)
      | inr (inr w) ↦
          subst (Resumes s) (some-injective _ _ (rw (on, resume, w) at e)) (watch_panics on w)
    ]
  ]

  report_exited :
      (s : Session vm) {pid status : ℕ}
      → (report vm s).0 ≡ ok (exited pid status)
      → (pid ≡ 0)
        × (status ≡ vm.exit_code (report vm s).1.machine)
        × (vm.running (report vm s).1.machine ≡ false)
  unfolding report
  report_exited s e = ground arith

  Resumes-exited :
      {s : Session vm} {r : Handled StopReason × GdbHandler M} {pid status : ℕ}
      → Resumes s r
      → r.0 ≡ ok (exited pid status)
      → (pid ≡ 0) × (status ≡ vm.exit_code r.1.machine) × (vm.running r.1.machine ≡ false)
  Resumes-exited (halted {s} stop) e = report_exited s e
  Resumes-exited (watched {s} on w) e = report_exited (seen s) e
  Resumes-exited (unreadable on w) e = cc
  Resumes-exited (watch_panics on w) e = cc
  Resumes-exited (stepped on w st rest) e = Resumes-exited rest e
  Resumes-exited (failed on w st) e = ground arith
  Resumes-exited (step_panics on w st) e = cc

  -- An answer that the process exited means that the machine is not running any more, and gives
  -- the machine's exit code and process 0.
  pub resume_exited :
      (fuel : ℕ) (s : Session vm) (h : GdbHandler M) {pid status : ℕ}
      → resume vm keep fuel s ≡ some (ok (exited pid status), h)
      → (pid ≡ 0) × (status ≡ vm.exit_code h.machine) × (vm.running h.machine ≡ false)
  resume_exited fuel s h e = Resumes-exited (resume-Resumes fuel s e) refl

  pub at_watchpoint_none :
      (h : GdbHandler M)
      → h.watchpoints ≡ []
      → ((at_watchpoint vm h).0 ≡ ok false) × ((at_watchpoint vm h).1 ≡ h)
  unfolding at_watchpoint check_watchpoints
  at_watchpoint_none h e = (rw e, rw e)

  pub step_machine-watchpoints :
      (s : Session vm) → (step_machine vm s).1.handler.watchpoints ≡ s.handler.watchpoints
  unfolding step_machine
  step_machine-watchpoints s = refl

  pub step_machine-ok :
      ((d : D) (m : M) → (vm.step d m).0 ≡ ok tt)
      → (s : Session vm) {r : Handled Bool} → (step_machine vm s).0 ≡ r
      → r ≡ ok true
  unfolding step_machine
  step_machine-ok sound s e = sym e ∙ (rw sound)
