-- ===== src/Protocol/Dispatch.antt =====
-- `handle_packet` (ckb-gdb-remote-protocol/src/lib.rs) behind the parser: what each command makes
-- of a handler, and the answer that is written. `none` in place of an answer is a panic of the
-- handler.
pub mod Answers
use ckb_standalone_debugger.Prelude.{
  ℕ, zero, suc, ◌==◌, Bool, true, false, Option, none, some, List, [], ◌∷◌, ◌++◌, Bytes, length,
  Outcome, ok, err, panic, if◌then◌else◌, ◌*◌,
}
use ckb_standalone_debugger.Prelude.Format.{codes, hex}
use ckb_standalone_debugger.Protocol.Types
use ckb_standalone_debugger.Protocol.Types.{
  MemoryRegion, ThreadId, Query, Command, Error, error, unimplemented, Handled, ProcessType,
  StopReason, SymbolLookupResponse, no_symbol, symbol_name, HostErrno, HostStat, HostIoResult,
  host_ok, host_error, host_integer, host_data, host_stat, Response, empty, response_ok,
  response_error, text, output, bytes, bytes_or_eof, thread, process_type, stopped, search_result,
  v_cont_features, threads, host_io_result, symbol_response, VContFeature,
}
use ckb_standalone_debugger.Protocol.Writer.{Memchr}
use ckb_standalone_debugger.Protocol.Writer.Respond.{BigEndian, write_response}
use ckb_standalone_debugger.Protocol.Handler.{Handler, FileSystem, IoResult}

-- `From<Result<T, Error>>`, by the conversion of `T`.
unfoldable pub into_response : {A : Type 0} → (A → Response) → Handled A → Option Response
into_response into (ok val) = some (into val)
into_response into (err (error val)) = some (response_error val)
into_response into (err unimplemented) = some empty
into_response into panic = none

-- `From<()>`, and `From<SymbolLookupResponse>`
abbrev pub from_unit : Unit {0} → Response
from_unit u = response_ok

abbrev pub from_symbol : SymbolLookupResponse → Response
from_symbol no_symbol = response_ok
from_symbol (symbol_name n) = symbol_response n

-- `From<IOResult<T>>` and `From<Result<T, HostErrno>>`
unfoldable pub from_host : {A : Type 0} → (A → HostIoResult) → IoResult A → Option Response
from_host into none = some empty
from_host into (some (ok val)) = some (host_io_result (into val))
from_host into (some (err errno)) = some (host_io_result (host_error errno))
from_host into (some panic) = none

-- `handler.invoke(…)`: no output is `OK`.
unfoldable pub from_invoke : Handled Bytes → Option Response
from_invoke (ok []) = some response_ok
from_invoke (ok (b ∷ val)) = some (output (b ∷ val))
from_invoke (err (error val)) = some (response_error val)
from_invoke (err unimplemented) = some empty
from_invoke panic = none

-- `join(";")`
abbrev pub join : List Bytes → Bytes
join [] = []
join (feature ∷ []) = feature
join (feature ∷ next ∷ features) = feature ++ (codes ";" ++ join (next ∷ features))

abbrev pub append_features : List Bytes → List Bytes → List Bytes
append_features xs ys = xs ++ ys

-- The features of every server: `PacketSize` is 64 KiB.
abbrev pub built_in_features : List Bytes
built_in_features =
    (codes "PacketSize=" ++ hex (64 * 1024))
    ∷ codes "QStartNoAckMode+"
    ∷ codes "multiprocess+"
    ∷ codes "QDisableRandomization+"
    ∷ codes "QCatchSyscalls+"
    ∷ codes "QPassSignals+"
    ∷ codes "QProgramSignals+"
    ∷ []

-- `from_bits_truncate`: the bits of the flags that `bitflags` knows.
pub record Truncate : Type 0 where
  pub open_flags : ℕ → ℕ
  pub host_mode : ℕ → ℕ

-- `no_ack_mode`: only the command for it turns the acknowledgements off.
unfoldable pub no_ack_mode : Option Command → Bool
no_ack_mode (some (Command.query Query.start_no_ack_mode)) = true
no_ack_mode parsed = false

module _ {S : Type 0} (handler : Handler S) (truncate : Truncate) where
  -- An answer and the state after it.
  abbrev pub Reply : Type 0
  Reply = Option Response × S

  unfoldable pub reply : {A : Type 0} → (A → Response) → Handled A × S → Reply
  unfolding into_response
  reply into (result, s) = (into_response into result, s)

  unfoldable pub handle_supported_features : S → Response
  handle_supported_features s =
      text (join (append_features built_in_features (handler.query_supported_features s)))

  -- `handler.fs().and_then(…).into()`
  unfoldable pub with_fs :
      {A : Type 0} → (A → HostIoResult) → (FileSystem S → S → IoResult A × S) → S → Reply
  unfolding from_host
  with_fs into op s = elim handler.fs [
    | some fs ↦ let (result, s') = op fs s in (from_host into result, s')
    | none ↦ (some empty, s)
  ]

  unfoldable pub handle_query : Query → S → Reply
  unfolding reply handle_supported_features from_invoke
  handle_query (Query.attached pid) s = reply process_type (handler.attached pid s)
  handle_query Query.current_thread s = reply thread (handler.current_thread s)
  handle_query (Query.invoke cmd) s =
      let (result, s') = handler.invoke cmd s in (from_invoke result, s')
  handle_query (Query.search_memory address length_ data_) s =
      reply search_result (handler.search_memory address length_ data_ s)
  handle_query (Query.supported_features features) s = (some (handle_supported_features s), s)
  handle_query Query.start_no_ack_mode s = (some response_ok, s)
  handle_query (Query.address_randomization randomize) s =
      reply from_unit (handler.set_address_randomization randomize s)
  handle_query (Query.catch_syscalls calls) s = reply from_unit (handler.catch_syscalls calls s)
  handle_query (Query.pass_signals signals) s = reply from_unit (handler.set_pass_signals signals s)
  handle_query (Query.program_signals signals) s =
      reply from_unit (handler.set_program_signals signals s)
  handle_query (Query.thread_info id) s = reply text (handler.thread_info id s)
  handle_query (Query.thread_list reset) s = reply threads (handler.thread_list reset s)
  handle_query (Query.read_bytes object annex offset length_) s =
      reply (λ (data_, eof). bytes_or_eof data_ eof)
        (handler.read_bytes object annex offset length_ s)
  handle_query (Query.symbol sym_value sym_name) s =
      reply from_symbol (handler.process_symbol sym_value sym_name s)

  -- The `match` on the command; `none` if the handler does not come back.
  unfoldable pub handle_command : Command → S → Option Reply
  unfolding handle_query with_fs
  handle_command Command.enable_extended_mode s = some (some response_ok, s)
  handle_command Command.target_halt_reason s = some (reply stopped (handler.halt_reason s))
  handle_command Command.read_general_registers s =
      some (reply bytes (handler.read_general_registers s))
  handle_command (Command.write_general_registers data_) s =
      some (reply from_unit (handler.write_general_registers data_ s))
  handle_command (Command.kill none) s =
      let (result, s') = handler.kill none s in
      some (elim result [ panic ↦ none | ok u ↦ some empty | err e ↦ some empty ], s')
  handle_command (Command.kill (some pid)) s = some (reply from_unit (handler.kill (some pid) s))
  handle_command Command.reset s = some (some empty, s)
  handle_command (Command.read_register regno) s =
      some (reply bytes (handler.read_register regno s))
  handle_command (Command.write_register regno data_) s =
      some (reply from_unit (handler.write_register regno data_ s))
  handle_command (Command.read_memory region) s = some (reply bytes (handler.read_memory region s))
  handle_command (Command.write_memory region data_) s =
      if region.length == length data_
      then some (reply from_unit (handler.write_memory region.address data_ s))
      else some (some (response_error 1), s)
  handle_command (Command.set_current_thread f id) s =
      some (reply from_unit (handler.set_current_thread f id s))
  handle_command (Command.detach pid) s = some (reply from_unit (handler.detach pid s))
  handle_command (Command.query q) s = some (handle_query q s)
  handle_command (Command.ping_thread id) s = some (reply from_unit (handler.ping_thread id s))
  handle_command Command.ctrl_c s = some (some empty, s)
  handle_command Command.unknown_v_command s = some (some empty, s)
  handle_command (Command.insert_software_breakpoint bp) s =
      some (reply from_unit (handler.insert_software_breakpoint bp s))
  handle_command (Command.insert_hardware_breakpoint bp) s =
      some (reply from_unit (handler.insert_hardware_breakpoint bp s))
  handle_command (Command.insert_write_watchpoint wp) s =
      some (reply from_unit (handler.insert_write_watchpoint wp s))
  handle_command (Command.insert_read_watchpoint wp) s =
      some (reply from_unit (handler.insert_read_watchpoint wp s))
  handle_command (Command.insert_access_watchpoint wp) s =
      some (reply from_unit (handler.insert_access_watchpoint wp s))
  handle_command (Command.remove_software_breakpoint bp) s =
      some (reply from_unit (handler.remove_software_breakpoint bp s))
  handle_command (Command.remove_hardware_breakpoint bp) s =
      some (reply from_unit (handler.remove_hardware_breakpoint bp s))
  handle_command (Command.remove_write_watchpoint wp) s =
      some (reply from_unit (handler.remove_write_watchpoint wp s))
  handle_command (Command.remove_read_watchpoint wp) s =
      some (reply from_unit (handler.remove_read_watchpoint wp s))
  handle_command (Command.remove_access_watchpoint wp) s =
      some (reply from_unit (handler.remove_access_watchpoint wp s))
  handle_command Command.v_cont_supported s =
      some (reply v_cont_features (handler.query_supported_vcont s))
  handle_command (Command.v_cont list) s = elim (handler.vcont list s) [
    | some answered ↦ some (reply stopped answered)
    | none ↦ none
  ]
  handle_command (Command.host_open filename mode flags) s = some (
      with_fs host_integer
        (λ fs. fs.host_open filename (truncate.open_flags mode) (truncate.host_mode flags)) s)
  handle_command (Command.host_close fd) s =
      some (with_fs (λ u. host_ok) (λ fs. fs.host_close fd) s)
  handle_command (Command.host_pread fd count offset) s =
      some (with_fs host_data (λ fs. fs.host_pread fd count offset) s)
  handle_command (Command.host_pwrite fd offset data_) s =
      some (with_fs host_integer (λ fs. fs.host_pwrite fd offset data_) s)
  handle_command (Command.host_fstat fd) s = some (with_fs host_stat (λ fs. fs.host_fstat fd) s)
  handle_command (Command.host_unlink filename) s =
      some (with_fs (λ u. host_ok) (λ fs. fs.host_unlink filename) s)
  handle_command (Command.host_readlink filename) s =
      some (with_fs host_data (λ fs. fs.host_readlink filename) s)
  handle_command (Command.host_set_fs pid) s =
      some (with_fs (λ u. host_ok) (λ fs. fs.host_setfs pid) s)

  -- What `command(data)` gave, `none` if it is no command.
  unfoldable pub handle_parsed : Option Command → S → Option Reply
  unfolding handle_command
  handle_parsed (some c) s = handle_command c s
  handle_parsed none s = some (some empty, s)

  -- `handle_packet` from there on: the connection got `sent`. Its answer has the new mode, the
  -- connection and the state; the inner `none` is a panic.
  unfoldable pub handle_packet :
      Memchr → BigEndian → Option Command → Bytes → S → Option (Option (Bool × Bytes) × S)
  unfolding handle_parsed no_ack_mode
  handle_packet m be parsed sent s = elim (handle_parsed parsed s) [
    | none ↦ none
    | some (none, s') ↦ some (none, s')
    | some (some response, s') ↦ some (
      elim (write_response m be response sent) [
        | some sent' ↦ some (no_ack_mode parsed, sent')
        | none ↦ none
      ],
      s',
    )
  ]
