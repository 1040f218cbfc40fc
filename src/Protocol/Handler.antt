-- ===== src/Protocol/Handler.antt =====
-- The traits `Handler` and `FileSystem` with their default methods
-- (ckb-gdb-remote-protocol/src/lib.rs and fs.rs). A method takes the state of its server and gives
-- back the next one.
use ckb_standalone_debugger.Prelude.{ℕ, Bool, Option, none, some, List, [], Bytes, Outcome, ok, err}
use ckb_standalone_debugger.Protocol.Types.{
  ThreadId, MemoryRegion, SetThreadFor, Breakpoint, Watchpoint, VContFeature, VCont, unimplemented,
  Handled, ProcessType, StopReason, SymbolLookupResponse, HostErrno, HostStat,
}

-- `IOResult<T>`: `none` where the operation is not supported.
abbrev pub IoResult : Type 0 → Type 0
IoResult A = Option (Outcome HostErrno A)

-- `FileSystem`
pub record FileSystem (S : Type 0) : Type 0 where
  pub host_open : Bytes → ℕ → ℕ → S → IoResult ℕ × S
  pub host_close : ℕ → S → IoResult (Unit {0}) × S
  pub host_pread : ℕ → ℕ → ℕ → S → IoResult Bytes × S
  pub host_pwrite : ℕ → ℕ → Bytes → S → IoResult ℕ × S
  pub host_fstat : ℕ → S → IoResult HostStat × S
  pub host_unlink : Bytes → S → IoResult (Unit {0}) × S
  pub host_readlink : Bytes → S → IoResult Bytes × S
  pub host_setfs : ℕ → S → IoResult (Unit {0}) × S

-- `Handler`. `vcont` runs the program, which may go on for ever: then it gives `none`.
pub record Handler (S : Type 0) : Type 0 where
  pub query_supported_features : S → List Bytes
  pub attached : Option ℕ → S → Handled ProcessType × S
  pub detach : Option ℕ → S → Handled (Unit {0}) × S
  pub kill : Option ℕ → S → Handled (Unit {0}) × S
  pub ping_thread : ThreadId → S → Handled (Unit {0}) × S
  pub read_memory : MemoryRegion → S → Handled Bytes × S
  pub write_memory : ℕ → Bytes → S → Handled (Unit {0}) × S
  pub read_register : ℕ → S → Handled Bytes × S
  pub write_register : ℕ → Bytes → S → Handled (Unit {0}) × S
  pub read_general_registers : S → Handled Bytes × S
  pub write_general_registers : Bytes → S → Handled (Unit {0}) × S
  pub read_bytes : Bytes → Bytes → ℕ → ℕ → S → Handled (Bytes × Bool) × S
  pub current_thread : S → Handled (Option ThreadId) × S
  pub set_current_thread : SetThreadFor → ThreadId → S → Handled (Unit {0}) × S
  pub search_memory : ℕ → ℕ → Bytes → S → Handled (Option ℕ) × S
  pub halt_reason : S → Handled StopReason × S
  pub invoke : Bytes → S → Handled Bytes × S
  pub set_address_randomization : Bool → S → Handled (Unit {0}) × S
  pub catch_syscalls : Option (List ℕ) → S → Handled (Unit {0}) × S
  pub set_pass_signals : List ℕ → S → Handled (Unit {0}) × S
  pub set_program_signals : List ℕ → S → Handled (Unit {0}) × S
  pub thread_info : ThreadId → S → Handled Bytes × S
  pub thread_list : Bool → S → Handled (List ThreadId) × S
  pub insert_software_breakpoint : Breakpoint → S → Handled (Unit {0}) × S
  pub insert_hardware_breakpoint : Breakpoint → S → Handled (Unit {0}) × S
  pub insert_write_watchpoint : Watchpoint → S → Handled (Unit {0}) × S
  pub insert_read_watchpoint : Watchpoint → S → Handled (Unit {0}) × S
  pub insert_access_watchpoint : Watchpoint → S → Handled (Unit {0}) × S
  pub remove_software_breakpoint : Breakpoint → S → Handled (Unit {0}) × S
  pub remove_hardware_breakpoint : Breakpoint → S → Handled (Unit {0}) × S
  pub remove_write_watchpoint : Watchpoint → S → Handled (Unit {0}) × S
  pub remove_read_watchpoint : Watchpoint → S → Handled (Unit {0}) × S
  pub remove_access_watchpoint : Watchpoint → S → Handled (Unit {0}) × S
  pub query_supported_vcont : S → Handled (List VContFeature) × S
  pub vcont : List (VCont × Option ThreadId) → S → Option (Handled StopReason × S)
  pub fs : Option (FileSystem S)
  pub process_symbol : Bytes → Bytes → S → Handled SymbolLookupResponse × S

-- A method that is not overridden.
abbrev unsupported : {A S : Type 0} → S → Handled A × S
unsupported s = (err unimplemented, s)

-- The trait's own methods, with the two that every server must have.
abbrev pub default_handler :
    {S : Type 0}
    → (Option ℕ → S → Handled ProcessType × S)
    → (S → Handled StopReason × S)
    → Handler S
default_handler attached halt_reason = record {
  query_supported_features = λ s. [];
  attached = attached;
  detach = λ pid. unsupported;
  kill = λ pid. unsupported;
  ping_thread = λ id. unsupported;
  read_memory = λ region. unsupported;
  write_memory = λ address data_. unsupported;
  read_register = λ register. unsupported;
  write_register = λ register contents. unsupported;
  read_general_registers = unsupported;
  write_general_registers = λ contents. unsupported;
  read_bytes = λ object annex offset length. unsupported;
  current_thread = λ s. (ok none, s);
  set_current_thread = λ for_ id. unsupported;
  search_memory = λ address length data_. unsupported;
  halt_reason = halt_reason;
  invoke = λ command. unsupported;
  set_address_randomization = λ enable. unsupported;
  catch_syscalls = λ syscalls. unsupported;
  set_pass_signals = λ signals s. (ok tt, s);
  set_program_signals = λ signals s. (ok tt, s);
  thread_info = λ id. unsupported;
  thread_list = λ reset. unsupported;
  insert_software_breakpoint = λ breakpoint. unsupported;
  insert_hardware_breakpoint = λ breakpoint. unsupported;
  insert_write_watchpoint = λ watchpoint. unsupported;
  insert_read_watchpoint = λ watchpoint. unsupported;
  insert_access_watchpoint = λ watchpoint. unsupported;
  remove_software_breakpoint = λ breakpoint. unsupported;
  remove_hardware_breakpoint = λ breakpoint. unsupported;
  remove_write_watchpoint = λ watchpoint. unsupported;
  remove_read_watchpoint = λ watchpoint. unsupported;
  remove_access_watchpoint = λ watchpoint. unsupported;
  query_supported_vcont = unsupported;
  vcont = λ request s. some (unsupported s);
  fs = none;
  process_symbol = λ value name. unsupported;
}
