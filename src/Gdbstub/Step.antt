-- ===== src/Gdbstub/Step.antt =====
-- `step_inner`, `next_opcode`, `step` and `run_till_exited` of `GdbStubHandler`
-- (ckb-vm-debug-utils/src/gdbstub.rs): one instruction, and the event that it raises.
pub mod Events
use ckb_standalone_debugger.Prelude.{
  ℕ, zero, suc, ◌==◌, ◌&&◌, Bool, true, false, Option, none, some, List, [], ◌∷◌, ok, err, panic,
  if◌then◌else◌,
}
use ckb_standalone_debugger.Vm.{Vm, VmError, VmResult, a7}
use ckb_standalone_debugger.Gdbstub.State.{
  GdbStubHandler, VmEvent, exited, break, watch_write_at, watch_read_at, catch_syscall, error,
  panicked, contains, filtered, clear_memory_ops,
}
use ckb_standalone_debugger.Gdbstub.Instruction.{Inner, run}

module _ {M D I : Type 0} (vm : Vm M D I) (inner : Inner M I) where
  -- The part of `step_inner` behind the decoder.
  unfoldable pub perform : I → GdbStubHandler M D → VmResult (Unit {0}) × GdbStubHandler M D
  unfolding clear_memory_ops
  perform instruction h =
      let (added, m) = vm.add_cycles (vm.instruction_cycle instruction) h.machine in
      elim added [
        | ok _ ↦
            run vm inner (inner.calls instruction) (clear_memory_ops (record h { machine = m }))
        | err e ↦ (err e, record h { machine = m })
        | panic ↦ (panic, record h { machine = m })
      ]

  unfoldable pub step_inner : GdbStubHandler M D → VmResult (Unit {0}) × GdbStubHandler M D
  unfolding perform
  step_inner h =
      let (decoded, d, m) = vm.decode h.decoder h.machine (vm.pc h.machine) in
      let read = record h { decoder = d; machine = m } in
      elim decoded [
        | ok instruction ↦ perform instruction read
        | err e ↦ (err e, read)
        | panic ↦ (panic, read)
      ]

  -- The opcode that the program counter is at now; `.ok()?` drops the decoder's error.
  unfoldable pub next_opcode : GdbStubHandler M D → Option ℕ × GdbStubHandler M D
  next_opcode h =
      let (decoded, d, m) = vm.decode h.decoder h.machine (vm.pc h.machine) in
      (
        elim decoded [
          | ok instruction ↦ some (vm.extract_opcode instruction)
          | err e ↦ none
          | panic ↦ none
        ],
        record h { decoder = d; machine = m },
      )

  abbrev pub is_ecall : Option ℕ → Bool
  is_ecall none = false
  is_ecall (some opcode) = opcode == vm.op_ecall

  -- The accesses that the logs hold, a write before a read.
  unfoldable pub access_event : GdbStubHandler M D → Option VmEvent × GdbStubHandler M D
  access_event h = elim h.memory_writes [
    | a ∷ writes ↦ (some (watch_write_at a), record h { memory_writes = writes })
    | [] ↦ elim h.memory_reads [
      | a ∷ reads ↦ (some (watch_read_at a), record h { memory_reads = reads })
      | [] ↦ (none, h)
    ]
  ]

  -- What `step` reports after an instruction that succeeded.
  unfoldable pub event_after : GdbStubHandler M D → Option VmEvent × GdbStubHandler M D
  unfolding access_event
  event_after h =
      let (opcode, h') = next_opcode h in
      let number = vm.registers h'.machine a7 in
      if is_ecall opcode && filtered h'.catch_syscalls number
      then (some (catch_syscall number), h')
      else if contains h'.breakpoints (vm.pc h'.machine)
      then (some break, h')
      else access_event h'

  -- `if self.machine.reset_signal() { … }`
  unfoldable pub clear_signal : GdbStubHandler M D → GdbStubHandler M D
  clear_signal h =
      let (signalled, m) = vm.reset_signal h.machine in
      record h {
        machine = m;
        decoder = if signalled then vm.reset_instructions_cache h.decoder else h.decoder;
      }

  unfoldable pub after_inner :
      VmResult (Unit {0}) × GdbStubHandler M D → Option VmEvent × GdbStubHandler M D
  after_inner (ok _, h) = event_after h
  after_inner (err e, h) = (some (error e), h)
  after_inner (panic, h) = (some panicked, h)

  unfoldable pub step : GdbStubHandler M D → Option VmEvent × GdbStubHandler M D
  unfolding clear_signal after_inner
  step h =
      let h' = clear_signal h in
      if vm.running h'.machine
      then after_inner (step_inner h')
      else (some (exited (vm.exit_code h'.machine)), h')

  -- `while self.machine.running() { self.step_inner()?; }`, with fuel as in `execute`.
  unfoldable pub run_till_exited : ℕ → GdbStubHandler M D → Option (VmResult (ℕ × ℕ))
  unfolding step_inner
  run_till_exited zero h = none
  run_till_exited (suc fuel) h = elim (vm.running h.machine) [
    | false ↦ some (ok (vm.exit_code h.machine, vm.cycles h.machine))
    | true ↦
        let (r, h') = step_inner h in
        elim r [ ok _ ↦ run_till_exited fuel h' | err e ↦ some (err e) | panic ↦ some panic ]
  ]
