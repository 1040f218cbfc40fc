-- ===== src/Gdbstub/State.antt =====
-- The fields of `GdbStubHandler`, its execution modes and its events
-- (ckb-vm-debug-utils/src/gdbstub.rs).
use ckb_standalone_debugger.Prelude.{
  ℕ, Bool, true, false, ◌||◌, List, [], ◌∷◌, ◌==◌, Option, none, some, ok, err,
}
use ckb_standalone_debugger.Vm.{Vm, VmError, VmResult, external}
use ckb_standalone_debugger.Prelude.Format.{codes}

pub data ExecMode : Type 0 where
  step_mode continue_mode : ExecMode
  range_step_mode : ℕ → ℕ → ExecMode

pub data FilteredSyscalls : Type 0 where
  no_syscalls all_syscalls : FilteredSyscalls
  filter : List ℕ → FilteredSyscalls

abbrev pub contains : List ℕ → ℕ → Bool
contains [] a = false
contains (x ∷ xs) a = (x == a) || contains xs a

unfoldable pub filtered : FilteredSyscalls → ℕ → Bool
filtered no_syscalls number = false
filtered all_syscalls number = true
filtered (filter numbers) number = contains numbers number

-- `gdbstub`'s `WatchKind`
pub data WatchKind : Type 0 where
  watch_write watch_read watch_read_write : WatchKind

-- `memory_writes` and `memory_reads` are stacks: the last address pushed stands first.
pub record GdbStubHandler (M D : Type 0) : Type 0 where
  pub exec_mode : ExecMode
  pub machine : M
  pub decoder : D
  pub breakpoints : List ℕ
  pub catch_syscalls : FilteredSyscalls
  pub watchpoints : List (ℕ × WatchKind)
  pub memory_writes : List ℕ
  pub memory_reads : List ℕ

pub data VmEvent : Type 0 where
  incoming_data done_step : VmEvent
  exited : ℕ → VmEvent
  break : VmEvent
  watch_write_at watch_read_at : ℕ → VmEvent
  catch_syscall : ℕ → VmEvent
  error : VmError → VmEvent
  -- not a variant: the machine panicked
  panicked : VmEvent

module _ {M D I : Type 0} (vm : Vm M D I) where
  unfoldable pub new : M → GdbStubHandler M D
  new machine = record {
    exec_mode = continue_mode;
    machine = machine;
    decoder = vm.build_decoder (vm.isa machine) (vm.version machine);
    breakpoints = [];
    catch_syscalls = no_syscalls;
    watchpoints = [];
    memory_writes = [];
    memory_reads = [];
  }

module _ {M D : Type 0} where
  unfoldable pub clear_memory_ops : GdbStubHandler M D → GdbStubHandler M D
  clear_memory_ops h = record h { memory_writes = []; memory_reads = [] }

  -- `SingleThreadResume::resume` and `SingleThreadSingleStep::step` refuse a signal; they and
  -- `resume_range_step` only set the mode.
  unfoldable pub resume : Option ℕ → GdbStubHandler M D → VmResult (Unit {0}) × GdbStubHandler M D
  resume (some signal) h = (err (external (codes "no support for continuing with signal")), h)
  resume none h = (ok tt, record h { exec_mode = continue_mode })

  unfoldable pub single_step :
      Option ℕ → GdbStubHandler M D → VmResult (Unit {0}) × GdbStubHandler M D
  single_step (some signal) h = (err (external (codes "no support for stepping with signal")), h)
  single_step none h = (ok tt, record h { exec_mode = step_mode })

  unfoldable pub resume_range_step :
      ℕ → ℕ → GdbStubHandler M D → VmResult (Unit {0}) × GdbStubHandler M D
  resume_range_step start end h = (ok tt, record h { exec_mode = range_step_mode start end })

  -- `SyscallNumbers` collected into a set, or all of them.
  unfoldable pub enable_catch_syscalls : Option (List ℕ) → GdbStubHandler M D → GdbStubHandler M D
  enable_catch_syscalls (some numbers) h = record h { catch_syscalls = filter numbers }
  enable_catch_syscalls none h = record h { catch_syscalls = all_syscalls }

  unfoldable pub disable_catch_syscalls : GdbStubHandler M D → GdbStubHandler M D
  disable_catch_syscalls h = record h { catch_syscalls = no_syscalls }
