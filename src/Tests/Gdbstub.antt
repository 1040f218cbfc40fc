-- ===== src/Tests/Gdbstub.antt =====
-- The `gdbstub` target on a small machine.
use ckb_standalone_debugger.Prelude.{
  ℕ, ◌+◌, ◌≡◌, refl, Bool, true, false, Option, none, some, List, [], ◌∷◌, ◌==◌, if◌then◌else◌, ok,
  panic,
}
use ckb_standalone_debugger.Gdbstub.State.{
  GdbStubHandler, ExecMode, step_mode, continue_mode, range_step_mode, no_syscalls, watch_write,
  VmEvent, incoming_data, break,
}
use ckb_standalone_debugger.Gdbstub.Instruction.{
  w8, Calls, done, load, store, update_pc, commit_pc, read_pc, Inner, run,
}
use ckb_standalone_debugger.Gdbstub.Instruction.Logs.{bare, with_bare, run-bare}
use ckb_standalone_debugger.Gdbstub.Step
use ckb_standalone_debugger.Gdbstub.Step.Events.{Silent, step-Silent}
use ckb_standalone_debugger.Gdbstub.Execute.{free_run, execute_mode, execute}
use ckb_standalone_debugger.Gdbstub.Execute.Reports.{execute_incoming}
use ckb_standalone_debugger.Gdbstub.Points.{
  add_hw_watchpoint, remove_hw_watchpoint, remove-add_hw_watchpoint_panics,
}
use ckb_standalone_debugger.Prelude.{◌*◌, arith, range, map, Octets, Bytes}
use ckb_standalone_debugger.Gdbstub.Access.{
  RiscvCoreRegs, gpr, write_register, read_registers, write_registers,
}
use ckb_standalone_debugger.Gdbstub.Access.Copies.{read-write_registers}
use ckb_standalone_debugger.Tests.Toy.{Toy, Instruction, toy_vm, toy_registers}

-- An instruction goes on by four bytes; with the opcode 7 it first stores and loads a byte.
abbrev go_on : Calls
go_on = read_pc (λ pc. update_pc (pc + 4) (commit_pc (done (ok tt))))

abbrev touch : Calls
touch = store w8 50 1 (λ s. load w8 51 (λ l. go_on))

abbrev inner : Inner Toy Instruction
inner = record {
  load_memory = λ w a m. toy_vm.load8 a m;
  store_memory = λ w a v m. toy_vm.store_bytes a (v ∷ []) m;
  inner_lr = λ m. 0;
  inner_set_lr = λ addr m. m;
  inner_ecall = λ m. (ok tt, m);
  inner_ebreak = λ m. (ok tt, m);
  calls = λ i. if i.opcode == 7 then touch else go_on;
}

abbrev op : ℕ → Instruction
op opcode = record { opcode = opcode; rs1 = 0; immediate = 0; cost = 1 }

abbrev toy : Toy
toy = record {
  counter = 16;
  next_counter = 0;
  file = λ k. 0;
  memory = λ a. 0;
  alive = true;
  spent = 0;
  program = (16, op 0) ∷ (20, op 0) ∷ (24, op 0) ∷ (28, op 7) ∷ (32, op 0) ∷ [];
}

abbrev target : ExecMode → List ℕ → GdbStubHandler Toy (Unit {0})
target mode points = record {
  exec_mode = mode;
  machine = toy;
  decoder = tt;
  breakpoints = points;
  catch_syscalls = no_syscalls;
  watchpoints = [];
  memory_writes = [];
  memory_reads = [];
}

run-bare_example :
    run toy_vm inner touch (target step_mode [])
    ≡ with_bare toy_vm inner (target step_mode []) (bare toy_vm inner touch toy)
run-bare_example = run-bare toy_vm inner touch (target step_mode [])

quiet : (Step.step toy_vm inner (target step_mode [])).0 ≡ none
unfolding Step.step Step.step_inner run Step.event_after Step.next_opcode
quiet = refl

step-Silent_example : Silent toy_vm inner (target step_mode [])
step-Silent_example = step-Silent toy_vm inner (target step_mode []) quiet

abbrev no_data : ℕ → Bool
no_data k = false

abbrev handler_of :
    Option (VmEvent × GdbStubHandler Toy (Unit {0}) × ℕ) → GdbStubHandler Toy (Unit {0}) × ℕ
handler_of (some (event, h, p)) = (h, p)
handler_of none = (target step_mode [], 0)

abbrev after_range : GdbStubHandler Toy (Unit {0}) × ℕ
after_range = handler_of (execute toy_vm inner no_data 10 (target (range_step_mode 16 24) []))

abbrev after_break : GdbStubHandler Toy (Unit {0}) × ℕ
after_break = handler_of (execute toy_vm inner no_data 10 (target continue_mode (24 ∷ [])))

breaks :
    execute toy_vm inner no_data 10 (target continue_mode (24 ∷ []))
    ≡ some (break, after_break.0, after_break.1)
unfolding execute execute_mode free_run Step.step Step.step_inner run Step.event_after
    Step.next_opcode
breaks = refl

abbrev always : ℕ → Bool
always k = true

found :
    execute toy_vm inner always 10 (target continue_mode [])
    ≡ some (incoming_data, target continue_mode [], 1)
unfolding execute
found = refl

execute_incoming_example : (k : ℕ) × (always k ≡ true) × (1 ≡ k + 1)
execute_incoming_example =
    execute_incoming toy_vm inner always 10 (target continue_mode []) {g = target continue_mode []}
      {p = 1} found

remove-add_hw_watchpoint_panics_example :
    (remove_hw_watchpoint 50 watch_write
      (add_hw_watchpoint 50 watch_write (target step_mode [])).1).0
    ≡ panic
remove-add_hw_watchpoint_panics_example =
    remove-add_hw_watchpoint_panics 50 watch_write (target step_mode []) refl

abbrev regs : RiscvCoreRegs
regs = record { x = map (λ i. i * 3) (range 32); pc = 4096 }

read-write_registers_example :
    read_registers toy_vm (write_registers toy_vm regs (target step_mode [])).1 ≡ ok regs
read-write_registers_example =
    read-write_registers toy_vm toy_registers regs (target step_mode []) refl

abbrev eight_bytes : Bytes
eight_bytes = 1 ∷ 2 ∷ 3 ∷ 4 ∷ 5 ∷ 6 ∷ 7 ∷ 255 ∷ []

eight-Octets : Octets eight_bytes
eight-Octets = (
  omega arith,
  (
    omega arith,
    (omega arith, (omega arith, (omega arith, (omega arith, (omega arith, (omega arith, tt)))))),
  ),
)

value_written : (write_register toy_vm (gpr 5) eight_bytes (target step_mode [])).0 ≡ ok tt
unfolding write_register
value_written = refl
