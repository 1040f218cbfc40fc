-- ===== src/Gdbserver/Serve.antt =====
-- `impl Handler for GdbHandler` (ckb-vm-debug-utils/src/gdbserver.rs): the methods that it
-- overrides, over the defaults of the trait.
pub mod Commands
use ckb_standalone_debugger.Prelude.{ℕ, Option, none, some, List, Bytes, ok}
use ckb_standalone_debugger.Vm.{Vm}
use ckb_standalone_debugger.Protocol.Handler.{Handler, default_handler}
use ckb_standalone_debugger.Gdbserver.State.{GdbHandler}
use ckb_standalone_debugger.Gdbserver.Memory.{read_memory, write_memory}
use ckb_standalone_debugger.Gdbserver.Registers.{
  LittleEndian, read_general_registers, read_register, write_register,
}
use ckb_standalone_debugger.Gdbserver.Watchpoints.{insert_write_watchpoint, remove_write_watchpoint}
use ckb_standalone_debugger.Gdbserver.Breakpoints.{
  insert_software_breakpoint, remove_software_breakpoint,
}
use ckb_standalone_debugger.Gdbserver.Resume.{attached, halt_reason, query_supported_vcont, vcont}

module _ {M D I : Type 0} (vm : Vm M D I) (le : LittleEndian) (fuel : ℕ) where
  -- The machine with what a method on it came back with.
  abbrev on_machine : {A : Type 0} → GdbHandler M → A × M → A × GdbHandler M
  on_machine h (a, m) = (a, record h { machine = m })

  unfoldable pub gdb_handler : Handler (GdbHandler M)
  gdb_handler = record (default_handler (λ pid h. (attached pid, h)) (λ h. (halt_reason, h))) {
    read_general_registers = λ h. (read_general_registers vm le h.machine, h);
    read_register = λ register h. (read_register vm le register h.machine, h);
    write_register =
        λ register contents h. on_machine h (write_register vm le register contents h.machine);
    read_memory = λ region h. on_machine h (read_memory vm region h.machine);
    write_memory = λ address data_ h. on_machine h (write_memory vm address data_ h.machine);
    query_supported_vcont = λ h. (query_supported_vcont, h);
    vcont = λ request h. vcont vm fuel request h;
    insert_software_breakpoint = λ breakpoint h. (ok tt, insert_software_breakpoint breakpoint h);
    remove_software_breakpoint = λ breakpoint h. (ok tt, remove_software_breakpoint breakpoint h);
    insert_write_watchpoint = λ watchpoint h. (ok tt, insert_write_watchpoint watchpoint h);
    remove_write_watchpoint = λ watchpoint h. (ok tt, remove_write_watchpoint watchpoint h);
  }
