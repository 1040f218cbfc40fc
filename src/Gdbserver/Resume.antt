-- ===== src/Gdbserver/Resume.antt =====
-- `vcont` of `GdbHandler` (ckb-vm-debug-utils/src/gdbserver.rs): continue, step and range step.
-- A program may run for ever, so the loops take fuel, one unit for each instruction; `none` says
-- that it ran out. `Stops` has the loops without fuel.
pub mod Stops
pub mod Continue
use ckb_standalone_debugger.Prelude.{
  ℕ, zero, suc, Bool, true, false, not, ◌&&◌, Option, none, some, List, [], ◌∷◌, ok, err, panic,
  leb, ltb, if◌then◌else◌,
}
use ckb_standalone_debugger.Vm.{Vm}
use ckb_standalone_debugger.Protocol.Types.{
  VCont, ThreadId, StopReason, signal, exited, Error, error, Handled, VContFeature,
  feature_continue, feature_continue_with_signal, feature_step, feature_step_with_signal,
  feature_stop, feature_range_step, ProcessType, was_created,
}
use ckb_standalone_debugger.Gdbserver.State.{GdbHandler}
use ckb_standalone_debugger.Gdbserver.Watchpoints.{at_watchpoint}
use ckb_standalone_debugger.Gdbserver.Breakpoints.{at_breakpoint}

-- `attached`
unfoldable pub attached : Option ℕ → Handled ProcessType
attached pid = ok was_created

-- `halt_reason`: SIGINT
unfoldable pub halt_reason : Handled StopReason
halt_reason = ok (signal 2)

unfoldable pub query_supported_vcont : Handled (List VContFeature)
query_supported_vcont = ok (
    feature_continue ∷ feature_continue_with_signal ∷ feature_step ∷ feature_step_with_signal
    ∷ feature_stop ∷ feature_range_step ∷ [])

module _ {M D I : Type 0} (vm : Vm M D I) where
  -- The handler between two instructions, with the decoder of this request.
  pub record Session : Type 0 where
    pub handler : GdbHandler M
    pub decoder : D

  -- `if reset_signal() { decoder.reset_instructions_cache() }; machine.step(&mut decoder)`. The
  -- first part is whether the step succeeded.
  unfoldable pub step_machine : Session → Handled Bool × Session
  step_machine s =
      let (signalled, m) = vm.reset_signal s.handler.machine in
      let d = if signalled then vm.reset_instructions_cache s.decoder else s.decoder in
      let (res, d', m') = vm.step d m in
      (
        elim res [ ok done ↦ ok true | err e ↦ ok false | panic ↦ panic ],
        record { handler = record s.handler { machine = m' }; decoder = d' },
      )

  -- What follows the `match` on the action.
  unfoldable pub report : Session → Handled StopReason × GdbHandler M
  report s = (
    if vm.running s.handler.machine
        then ok (signal 5)
        else ok (exited 0 (vm.exit_code s.handler.machine)),
    s.handler,
  )

  abbrev pub Answer : Type 0
  Answer = Option (Handled StopReason × GdbHandler M)

  -- A loop `while keep { if at_watchpoint()? { break; } … step … }`, and what follows it.
  unfoldable pub resume : (GdbHandler M → Bool) → ℕ → Session → Answer
  resume keep zero s = none
  resume keep (suc fuel) s = elim (keep s.handler) [
    | false ↦ some (report s)
    | true ↦
        let (watched, h) = at_watchpoint vm s.handler in
        let seen = record s { handler = h } in
        elim watched [
          | ok true ↦ some (report seen)
          | ok false ↦
              let (stepped, t) = step_machine seen in
              elim stepped [
                | ok true ↦ resume keep fuel t
                | ok false ↦ some (ok (signal 5), t.handler)
                | err e ↦ some (err e, t.handler)
                | panic ↦ some (panic, t.handler)
              ]
          | err e ↦ some (err e, h)
          | panic ↦ some (panic, h)
        ]
  ]

  -- The first step of `Continue` and `RangeStep`, and their loop.
  unfoldable pub step_and_resume : (GdbHandler M → Bool) → ℕ → Session → Answer
  unfolding resume step_machine
  step_and_resume keep fuel s =
      let (stepped, t) = step_machine s in
      elim stepped [
        | ok true ↦ resume keep fuel t
        | ok false ↦ some (ok (signal 5), t.handler)
        | err e ↦ some (err e, t.handler)
        | panic ↦ some (panic, t.handler)
      ]

  -- The tests of the two loops.
  unfoldable pub keep_running : GdbHandler M → Bool
  keep_running h = not (at_breakpoint vm h) && vm.running h.machine

  unfoldable pub keep_in_range : ℕ → ℕ → GdbHandler M → Bool
  keep_in_range start end h =
      leb start (vm.pc h.machine)
      && ltb (vm.pc h.machine) end
      && not (at_breakpoint vm h)
      && vm.running h.machine

  unfoldable pub step_once : Session → Answer
  unfolding step_machine report
  step_once s =
      if vm.running s.handler.machine
      then (let (stepped, t) = step_machine s in
          elim stepped [
            | ok true ↦ some (report t)
            | ok false ↦ some (ok (signal 5), t.handler)
            | err e ↦ some (err e, t.handler)
            | panic ↦ some (panic, t.handler)
          ])
      else some (report s)

  unfoldable pub act : ℕ → VCont → Session → Answer
  unfolding step_and_resume step_once keep_running keep_in_range
  act fuel VCont.continue s = step_and_resume keep_running fuel s
  act fuel VCont.step s = step_once s
  act fuel (VCont.range_step start end) s = step_and_resume (keep_in_range start end) fuel s
  act fuel _ s = some (err (error 5), s.handler)

  -- `request[0]` of an empty request is a panic; the other actions and the threads are ignored.
  unfoldable pub vcont : ℕ → List (VCont × Option ThreadId) → GdbHandler M → Answer
  unfolding act
  vcont fuel [] h = some (panic, h)
  vcont fuel ((action, thread) ∷ rest) h =
      act fuel action (record {
        handler = h;
        decoder = vm.build_decoder (vm.isa h.machine) (vm.version h.machine);
      })
