-- ===== src/Gdbstub/Execute.antt =====
-- `execute` of `GdbStubHandler` and the event loop's `wait_for_stop_reason`
-- (ckb-vm-debug-utils/src/gdbstub.rs). The answers of `poll_incoming_data` are an argument: the
-- k-th call answers `poll k`. The loops take fuel, one unit for each instruction.
pub mod Reports
use ckb_standalone_debugger.Prelude.{
  ℕ, zero, suc, ◌+◌, ◌%◌, ◌==◌, ◌&&◌, not, Bool, true, false, Option, none, some, ok, err, leb, ltb,
  if◌then◌else◌, Outcome, panic,
}
use ckb_standalone_debugger.Vm.{Vm, VmError}
use ckb_standalone_debugger.Gdbstub.State.{
  GdbStubHandler, ExecMode, step_mode, continue_mode, range_step_mode, VmEvent, incoming_data,
  done_step, exited, break, watch_write_at, watch_read_at, catch_syscall, error, panicked,
}
use ckb_standalone_debugger.Gdbstub.Instruction.{Inner}
use ckb_standalone_debugger.Gdbstub.Step.{step}

module _ {M D I : Type 0} (vm : Vm M D I) (inner : Inner M I) (poll : ℕ → Bool) where
  -- An event, the handler and the number of polls made.
  abbrev pub Executed : Type 0
  Executed = Option (VmEvent × GdbStubHandler M D × ℕ)

  -- The loops of `Continue` and `RangeStep`: `still` is the range test, and always true for
  -- `Continue`. Every 1024 instructions it polls.
  unfoldable pub free_run : (GdbStubHandler M D → Bool) → ℕ → ℕ → ℕ → GdbStubHandler M D → Executed
  free_run still zero executed polls h = none
  free_run still (suc fuel) executed polls h =
      let (event, h') = step vm inner h in
      let due = (executed + 1) % 1024 == 0 in
      let rest = free_run still fuel (executed + 1) (if due then polls + 1 else polls) h' in
      elim event [
        | some e ↦ some (e, h', polls)
        | none ↦
            if not (still h')
            then some (done_step, h', polls)
            else if due && poll polls
            then some (incoming_data, h', polls + 1)
            else rest
      ]

  abbrev pub in_range : ℕ → ℕ → GdbStubHandler M D → Bool
  in_range start end h = leb start (vm.pc h.machine) && ltb (vm.pc h.machine) end

  unfoldable pub execute_mode : ExecMode → ℕ → GdbStubHandler M D → Executed
  unfolding free_run
  execute_mode step_mode fuel h =
      let (event, h') = step vm inner h in
      elim event [ some e ↦ some (e, h', 1) | none ↦ some (done_step, h', 1) ]
  execute_mode continue_mode fuel h = free_run (λ _. true) fuel 0 1 h
  execute_mode (range_step_mode start end) fuel h = free_run (in_range start end) fuel 0 1 h

  unfoldable pub execute : ℕ → GdbStubHandler M D → Executed
  unfolding execute_mode
  execute fuel h = if poll 0 then some (incoming_data, h, 1) else execute_mode h.exec_mode fuel h

-- `SingleThreadStopReason`, and `Event`: a byte from the connection or a stop.
pub data StopReason : Type 0 where
  stop_done_step : StopReason
  stop_exited : ℕ → StopReason
  stop_sw_break : StopReason
  stop_watch_read stop_watch_write : ℕ → StopReason
  stop_catch_syscall : ℕ → StopReason

pub data Event : Type 0 where
  incoming_byte : ℕ → Event
  target_stopped : StopReason → Event

-- `WaitForStopReasonError`
pub data WaitError : Type 0 where
  connection_error : WaitError
  target_error : VmError → WaitError

-- `wait_for_stop_reason`, from the event; `read` is what the connection reads, `none` if it fails.
unfoldable pub wait_for_stop_reason : Option ℕ → VmEvent → Outcome WaitError Event
wait_for_stop_reason (some byte) incoming_data = ok (incoming_byte byte)
wait_for_stop_reason none incoming_data = err connection_error
wait_for_stop_reason read done_step = ok (target_stopped stop_done_step)
wait_for_stop_reason read (exited code) = ok (target_stopped (stop_exited code))
wait_for_stop_reason read break = ok (target_stopped stop_sw_break)
wait_for_stop_reason read (watch_read_at addr) = ok (target_stopped (stop_watch_read addr))
wait_for_stop_reason read (watch_write_at addr) = ok (target_stopped (stop_watch_write addr))
wait_for_stop_reason read (catch_syscall number) = ok (target_stopped (stop_catch_syscall number))
wait_for_stop_reason read (error e) = err (target_error e)
wait_for_stop_reason read panicked = panic
