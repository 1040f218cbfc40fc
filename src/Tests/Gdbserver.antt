-- ===== src/Tests/Gdbserver.antt =====
-- The debugger's handler on a small machine.
use ckb_standalone_debugger.Prelude.{
  Octets, to_le_bytes, from_le_bytes, length-to_le_bytes, to_le_bytes-from_le_bytes, ℕ, ◌+◌, ◌≡◌,
  ◌≢◌, refl, ap, true, false, not, Option, none, some, List, [], ◌∷◌, ◌==◌, if◌then◌else◌, arith,
  ok, Bytes, length, subst,
}
use ckb_standalone_debugger.Vm.{Vm}
use ckb_standalone_debugger.Protocol.Types.{
  Breakpoint, Watchpoint, MemoryRegion, Handled, StopReason, exited, signal,
}
use ckb_standalone_debugger.Gdbserver.State.{GdbHandler, new, watch, WatchPointStatus}
use ckb_standalone_debugger.Gdbserver.Memory.{read_memory, PureLoads, Holds, read_memory-Holds}
use ckb_standalone_debugger.Gdbserver.Registers.{
  LittleEndian, LittleEndianLaws, read_general_registers, read_register, write_register, padded,
  read-write_register,
}
use ckb_standalone_debugger.Gdbserver.Watchpoints.{has_change, check_watchpoints, at_watchpoint}
use ckb_standalone_debugger.Gdbserver.Breakpoints.{
  at_breakpoint, any_at, remove_software_breakpoint, insert_software_breakpoint,
  remove-insert_new_breakpoint,
}
use ckb_standalone_debugger.Gdbserver.Resume.{Session, resume, keep_running, step_machine, report}
use ckb_standalone_debugger.Protocol.Types.{Command, Query, Response, empty, VCont}
use ckb_standalone_debugger.Protocol.Dispatch.{Truncate, handle_command, reply}
use ckb_standalone_debugger.Gdbserver.Resume.{act, vcont, step_and_resume}
use ckb_standalone_debugger.Gdbserver.Serve.{gdb_handler}
use ckb_standalone_debugger.Gdbserver.Serve.Commands.{
  handle_command-unserved, Answered, handle_command_continue,
}
use ckb_standalone_debugger.Tests.Toy.{Toy, Instruction, toy_vm, toy_registers}

abbrev pub coding : LittleEndian
coding = record { write_u64 = to_le_bytes 8; read_u64 = from_le_bytes }

coding_laws : LittleEndianLaws coding
coding_laws = record {
  length-write_u64 = length-to_le_bytes 8;
  write_u64-read_u64 =
      λ b n h. subst (λ k. to_le_bytes k (from_le_bytes b) ≡ b) n (to_le_bytes-from_le_bytes b h);
}

abbrev toy : Toy
toy = record {
  counter = 16;
  next_counter = 0;
  file = λ k. k + 1000;
  memory = λ a. if a == 40 then 7 else a;
  alive = true;
  spent = 0;
  program = [];
}

registers_filled : (read_register toy_vm coding 3 toy) ≡ ok (235 ∷ 3 ∷ 0 ∷ 0 ∷ 0 ∷ 0 ∷ 0 ∷ 0 ∷ [])
unfolding read_register
registers_filled = refl

abbrev all_registers : Handled Bytes → Bytes
all_registers (ok bs) = bs
all_registers _ = []

general_registers :
    read_general_registers toy_vm coding toy
    ≡ ok (all_registers (read_general_registers toy_vm coding toy))
unfolding read_general_registers
general_registers = refl

written : (write_register toy_vm coding 32 (18 ∷ 52 ∷ []) toy).0 ≡ ok tt
unfolding write_register
written = refl

two-Octets : Octets (18 ∷ 52 ∷ [])
two-Octets = (omega arith, (omega arith, tt))

-- The program counter.
read-write_register_example :
    read_register toy_vm coding 32 (write_register toy_vm coding 32 (18 ∷ 52 ∷ []) toy).1
    ≡ ok (padded toy_vm coding (18 ∷ 52 ∷ []))
read-write_register_example =
    read-write_register toy_vm coding coding_laws toy_registers 32 (18 ∷ 52 ∷ []) toy two-Octets
      written

toy_PureLoads : PureLoads toy_vm
toy_PureLoads = λ a m. refl

abbrev three_bytes : MemoryRegion
three_bytes = record { address = 39; length = 3 }

abbrev three : Bytes
three = 39 ∷ 7 ∷ 41 ∷ []

three_read : (read_memory toy_vm three_bytes toy).0 ≡ ok three
unfolding read_memory
three_read = refl

read_memory-Holds_example : (length three ≡ 3) × Holds toy_vm toy_PureLoads 39 toy three
read_memory-Holds_example =
    read_memory-Holds toy_vm toy_PureLoads three_bytes toy (omega arith) three_read

abbrev over_the_end : MemoryRegion
over_the_end = record { address = 18446744073709551615; length = 1 }

-- A watchpoint of two bytes, one of which changes.
abbrev watched : Watchpoint
watched = record { addr = 40; n_bytes = 2 }

abbrev changed : Toy
changed = record toy { memory = λ a. if a == 41 then 9 else toy.memory a }

abbrev two_watched : List WatchPointStatus
two_watched = watch watched ∷ watch (record { addr = 100; n_bytes = 1 }) ∷ []

two_checked : (check_watchpoints toy_vm two_watched toy false).0 ≡ ok false
unfolding check_watchpoints has_change read_memory watch
two_checked = refl

abbrev at_address : ℕ → Breakpoint
at_address a = record { addr = a; kind = 2; conditions = none; commands = none }

abbrev pub handler : GdbHandler Toy
handler = record { machine = toy; breakpoints = at_address 20 ∷ []; watchpoints = [] }

other_address : at_address 20 ≢ at_address 16
other_address e = absurd (omega (arith, ap (λ (b : Breakpoint). b.addr) e))

remove-insert_new_breakpoint_example :
    remove_software_breakpoint (at_address 16) (insert_software_breakpoint (at_address 16) handler)
    ≡ handler
remove-insert_new_breakpoint_example =
    remove-insert_new_breakpoint toy_vm (at_address 16) handler (other_address, tt)

-- A machine whose steps do not fail: it goes on by four, and stops at 24 with the exit code 5.
abbrev steady_vm : Vm Toy (Unit {0}) Instruction
steady_vm = record toy_vm {
  exit_code = λ m. 5;
  step =
      λ d m. (ok tt, tt, record m { counter = m.counter + 4; alive = not (m.counter + 4 == 24) });
}

abbrev session : Session steady_vm
session = record { handler = handler; decoder = tt }

abbrev answer : Option (Handled StopReason × GdbHandler Toy) → Handled StopReason × GdbHandler Toy
answer (some r) = r
answer none = (ok (signal 0), handler)

abbrev stopped : Handled StopReason × GdbHandler Toy
stopped = answer (resume steady_vm (keep_running steady_vm) 10 session)

-- It stops at the breakpoint at 20.
at_20 : resume steady_vm (keep_running steady_vm) 10 session ≡ some stopped
unfolding resume keep_running at_breakpoint any_at at_watchpoint check_watchpoints step_machine
    report new
at_20 = refl

abbrev free : Session steady_vm
free = record { handler = new toy; decoder = tt }

abbrev ended : Handled StopReason × GdbHandler Toy
ended = answer (resume steady_vm (keep_running steady_vm) 10 free)

-- Without breakpoints it exits.
exits : resume steady_vm (keep_running steady_vm) 10 free ≡ some (ok (exited 0 5), ended.1)
unfolding resume keep_running at_breakpoint any_at at_watchpoint check_watchpoints step_machine
    report new
exits = refl

abbrev all_bits : Truncate
all_bits = record { open_flags = λ v. v; host_mode = λ v. v }

handle_command-unserved_example :
    handle_command
      (gdb_handler toy_vm coding 10)
      all_bits
      (Command.query (Query.catch_syscalls none))
      handler
    ≡ some (some empty, handler)
handle_command-unserved_example =
    handle_command-unserved toy_vm coding 10 all_bits (Command.query (Query.catch_syscalls none))
      handler refl

abbrev go : Command
go = Command.v_cont ((VCont.continue, none) ∷ [])

abbrev response_of : Option (Option Response × GdbHandler Toy) → Option Response × GdbHandler Toy
response_of (some a) = a
response_of none = (none, handler)

abbrev answered : Option Response × GdbHandler Toy
answered = response_of (handle_command (gdb_handler steady_vm coding 10) all_bits go handler)

answers : handle_command (gdb_handler steady_vm coding 10) all_bits go handler ≡ some answered
unfolding handle_command gdb_handler reply vcont act step_and_resume resume keep_running
    at_breakpoint any_at at_watchpoint check_watchpoints step_machine report
answers = refl

handle_command_continue_example : Answered steady_vm (λ d m. refl) coding 10 all_bits answered
handle_command_continue_example =
    handle_command_continue steady_vm (λ d m. refl) coding 10 all_bits none [] handler
      {a = answered} refl answers
