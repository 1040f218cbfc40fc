-- ===== src/Protocol/Types.antt =====
-- The data types of the protocol (ckb-gdb-remote-protocol/src/lib.rs and fs.rs), without the
-- variants of the features `all_stop` and `lldb`, which are off by default.
-- Numbers are natural numbers; a text is the list of its bytes.
use ckb_standalone_debugger.Prelude.{ℕ, Bool, Option, List, Bytes, Outcome}

pub data Packet : Type 0 where
  ack nack interrupt : Packet
  packet_data : Bytes → ℕ → Packet

pub data GdbFeature : Type 0 where
  multiprocess xml_registers q_reloc_insn swbreak hwbreak fork_events vfork_events exec_events
        v_cont_supported no_resumed q_thread_events :
      GdbFeature

pub data Known : Type 0 where
  yes_feature : GdbFeature → Known
  no_feature : Bytes → Known

pub data FeatureSupported : Type 0 where
  supported unsupported maybe_supported : FeatureSupported
  value : Bytes → FeatureSupported

pub record GdbFeatureSupported : Type 0 where
  pub feature : Known
  pub support : FeatureSupported

pub data SetThreadFor : Type 0 where
  for_continue for_read_register : SetThreadFor

-- A process or thread id: a `u32`, or all, or any.
pub data ThreadNumber : Type 0 where
  number : ℕ → ThreadNumber
  every any : ThreadNumber

pub record ThreadId : Type 0 where
  pub pid : ThreadNumber
  pub tid : ThreadNumber

pub record Watchpoint : Type 0 where
  pub addr : ℕ
  pub n_bytes : ℕ

pub record Bytecode : Type 0 where
  pub bytecode : Bytes

pub record Breakpoint : Type 0 where
  pub addr : ℕ
  pub kind : ℕ
  pub conditions : Option (List Bytecode)
  pub commands : Option (List Bytecode)

pub record MemoryRegion : Type 0 where
  pub address : ℕ
  pub length : ℕ

pub data VContFeature : Type 0 where
  feature_continue feature_continue_with_signal feature_step feature_step_with_signal feature_stop
        feature_range_step :
      VContFeature

pub data VCont : Type 0 where
  continue : VCont
  continue_with_signal : ℕ → VCont
  step : VCont
  step_with_signal : ℕ → VCont
  stop : VCont
  range_step : ℕ → ℕ → VCont

pub data Query : Type 0 where
  attached : Option ℕ → Query
  current_thread : Query
  search_memory : ℕ → ℕ → Bytes → Query
  supported_features : List GdbFeatureSupported → Query
  start_no_ack_mode : Query
  invoke : Bytes → Query
  address_randomization : Bool → Query
  catch_syscalls : Option (List ℕ) → Query
  pass_signals : List ℕ → Query
  program_signals : List ℕ → Query
  thread_info : ThreadId → Query
  thread_list : Bool → Query
  read_bytes : Bytes → Bytes → ℕ → ℕ → Query
  symbol : Bytes → Bytes → Query

pub data Command : Type 0 where
  detach : Option ℕ → Command
  enable_extended_mode target_halt_reason read_general_registers : Command
  write_general_registers : Bytes → Command
  read_register : ℕ → Command
  write_register : ℕ → Bytes → Command
  kill : Option ℕ → Command
  read_memory : MemoryRegion → Command
  write_memory : MemoryRegion → Bytes → Command
  query : Query → Command
  reset : Command
  ping_thread : ThreadId → Command
  ctrl_c unknown_v_command : Command
  set_current_thread : SetThreadFor → ThreadId → Command
  insert_software_breakpoint insert_hardware_breakpoint : Breakpoint → Command
  insert_write_watchpoint insert_read_watchpoint insert_access_watchpoint : Watchpoint → Command
  remove_software_breakpoint remove_hardware_breakpoint : Breakpoint → Command
  remove_write_watchpoint remove_read_watchpoint remove_access_watchpoint : Watchpoint → Command
  v_cont_supported : Command
  v_cont : List (VCont × Option ThreadId) → Command
  host_open : Bytes → ℕ → ℕ → Command
  host_close : ℕ → Command
  host_pread : ℕ → ℕ → ℕ → Command
  host_pwrite : ℕ → ℕ → Bytes → Command
  host_fstat : ℕ → Command
  host_unlink host_readlink : Bytes → Command
  host_set_fs : ℕ → Command

-- `Error`, as a `Handler` method returns it.
pub data Error : Type 0 where
  error : ℕ → Error
  unimplemented : Error

-- What a `Handler` method returns; a panic ends the server.
abbrev pub Handled : Type 0 → Type 0
Handled A = Outcome Error A

pub data ProcessType : Type 0 where
  was_attached was_created : ProcessType

pub data StopReason : Type 0 where
  signal : ℕ → StopReason
  exited : ℕ → ℕ → StopReason
  exited_with_signal : ℕ → ℕ → StopReason
  thread_exited : ThreadId → ℕ → StopReason
  no_more_threads : StopReason

pub data SymbolLookupResponse : Type 0 where
  no_symbol : SymbolLookupResponse
  symbol_name : Bytes → SymbolLookupResponse

pub data HostErrno : Type 0 where
  eperm enoent eintr ebadf eacces efault ebusy eexist enodev enotdir eisdir einval enfile emfile
        efbig enospc espipe erofs enametoolong eunknown :
      HostErrno

pub record HostStat : Type 0 where
  pub st_dev : ℕ
  pub st_ino : ℕ
  pub st_mode : ℕ
  pub st_nlink : ℕ
  pub st_uid : ℕ
  pub st_gid : ℕ
  pub st_rdev : ℕ
  pub st_size : ℕ
  pub st_blksize : ℕ
  pub st_blocks : ℕ
  pub st_atime : ℕ
  pub st_mtime : ℕ
  pub st_ctime : ℕ

pub data HostIoResult : Type 0 where
  host_ok : HostIoResult
  host_error : HostErrno → HostIoResult
  host_integer : ℕ → HostIoResult
  host_data : Bytes → HostIoResult
  host_stat : HostStat → HostIoResult

pub data Response : Type 0 where
  empty response_ok : Response
  response_error : ℕ → Response
  text : Bytes → Response
  output : Bytes → Response
  bytes : Bytes → Response
  bytes_or_eof : Bytes → Bool → Response
  thread : Option ThreadId → Response
  process_type : ProcessType → Response
  stopped : StopReason → Response
  search_result : Option ℕ → Response
  v_cont_features : List VContFeature → Response
  threads : List ThreadId → Response
  host_io_result : HostIoResult → Response
  symbol_response : Bytes → Response
