-- ===== src/Gdbserver/Resume/Continue.antt =====
-- The answers of `vcont` on a machine whose steps do not fail, without watchpoints.
use ckb_standalone_debugger.Prelude.{
  ℕ, ◌≡◌, refl, ◌∙◌, ap, ◌⊎◌, inl, inr, Bool, true, false, not, ◌&&◌, Option, some, List, [], ◌∷◌,
  ok, Bool-cases, arith,
}
use ckb_standalone_debugger.Vm.{Vm}
use ckb_standalone_debugger.Protocol.Types.{VCont, ThreadId, StopReason, signal, exited, Handled}
use ckb_standalone_debugger.Gdbserver.State.{GdbHandler}
use ckb_standalone_debugger.Gdbserver.Breakpoints.{at_breakpoint}
use ckb_standalone_debugger.Gdbserver.Resume.{
  Session, report, step_and_resume, keep_running, act, vcont,
}
use ckb_standalone_debugger.Gdbserver.Resume.Stops.{
  seen, Resumes, halted, watched, unreadable, watch_panics, stepped, failed, step_panics,
  at_watchpoint_none, step_machine-watchpoints, step_machine-ok, resume-Resumes,
}

module _ {M D I : Type 0} (vm : Vm M D I) (sound : (d : D) (m : M) → (vm.step d m).0 ≡ ok tt) where
  -- The answer is the report on a session that the test of the loop refuses.
  record Reports (keep : GdbHandler M → Bool) (r : Handled StopReason × GdbHandler M) : Type 0 where
    session : Session vm
    reported : r ≡ report vm session
    stopped : keep session.handler ≡ false

  Resumes-Reports :
      (keep : GdbHandler M → Bool) {s : Session vm} {r : Handled StopReason × GdbHandler M}
      → s.handler.watchpoints ≡ []
      → Resumes vm keep s r
      → Reports keep r
  Resumes-Reports keep none_set (halted {s} stop) = record {
    session = s;
    reported = refl;
    stopped = stop;
  }
  Resumes-Reports keep none_set (watched {s} on w) =
      absurd (cc (at_watchpoint_none vm keep s.handler none_set).0)
  Resumes-Reports keep none_set (unreadable {s} on w) =
      absurd (cc (at_watchpoint_none vm keep s.handler none_set).0)
  Resumes-Reports keep none_set (watch_panics {s} on w) =
      absurd (cc (at_watchpoint_none vm keep s.handler none_set).0)
  Resumes-Reports keep none_set (stepped {s} on w st rest) =
      Resumes-Reports keep
        (step_machine-watchpoints vm keep (seen vm keep s)
          ∙ ap (λ (h : GdbHandler M). h.watchpoints)
              (at_watchpoint_none vm keep s.handler none_set).1
          ∙ none_set)
        rest
  Resumes-Reports keep none_set (failed {s} on w st) =
      absurd (cc (step_machine-ok vm keep sound (seen vm keep s) st))
  Resumes-Reports keep none_set (step_panics {s} on w st) =
      absurd (cc (step_machine-ok vm keep sound (seen vm keep s) st))

  step_and_resume-Reports :
      (keep : GdbHandler M → Bool) (fuel : ℕ) (s : Session vm)
      {r : Handled StopReason × GdbHandler M}
      → s.handler.watchpoints ≡ []
      → step_and_resume vm keep fuel s ≡ some r
      → Reports keep r
  unfolding step_and_resume
  step_and_resume-Reports keep fuel s none_set e =
      let fine = step_machine-ok vm keep sound s refl in
      Resumes-Reports keep (step_machine-watchpoints vm keep s ∙ none_set)
        (resume-Resumes vm keep fuel _ (rw (fine, step_and_resume) at e))

  -- How a run ends that stops only where its test fails.
  abbrev pub Ended : Handled StopReason × GdbHandler M → Bool → Type 0
  Ended r stop =
      ((r.0 ≡ ok (signal 5)) × (vm.running r.1.machine ≡ true) × (stop ≡ true))
      ⊎ ((r.0 ≡ ok (exited 0 (vm.exit_code r.1.machine))) × (vm.running r.1.machine ≡ false))

  report-Ended :
      (s : Session vm) (stop : Bool)
      → (not stop && vm.running s.handler.machine) ≡ false
      → Ended (report vm s) stop
  unfolding report
  report-Ended s stop h = elim (Bool-cases (vm.running s.handler.machine)) [
    | inl on ↦ inl ((rw on), on, ground arith)
    | inr off ↦ inr ((rw off), off)
  ]

  Reports-Ended :
      {r : Handled StopReason × GdbHandler M}
      → Reports (keep_running vm) r
      → Ended r (at_breakpoint vm r.1)
  unfolding keep_running report
  Reports-Ended x =
      rw x.reported (report-Ended x.session (at_breakpoint vm x.session.handler) x.stopped)

  -- On a machine whose steps do not fail, without watchpoints, `continue` answers SIGTRAP where the
  -- machine still runs and stands at a breakpoint, or that the process 0 exited with the machine's
  -- code where it does not run any more; it answers nothing else.
  pub vcont_continue :
      (fuel : ℕ) (thread : Option ThreadId) (rest : List (VCont × Option ThreadId))
      (h : GdbHandler M) {r : Handled StopReason × GdbHandler M}
      → h.watchpoints ≡ []
      → vcont vm fuel ((VCont.continue, thread) ∷ rest) h ≡ some r
      → Ended r (at_breakpoint vm r.1)
  unfolding vcont act
  vcont_continue fuel thread rest h none_set e =
      Reports-Ended (step_and_resume-Reports (keep_running vm) fuel _ none_set e)
