-- ===== src/Protocol/Writer/Respond.antt =====
-- `write_response` and `write_stat` (ckb-gdb-remote-protocol/src/lib.rs and fs.rs). `byteorder` is
-- another package and an argument.
pub mod Frame
use ckb_standalone_debugger.Prelude.{
  ℕ, zero, suc, Bool, true, false, Option, none, some, List, [], ◌∷◌, ◌++◌, Bytes, length,
  if◌then◌else◌,
}
use ckb_standalone_debugger.Prelude.Format.{codes, hex, hex_byte}
use ckb_standalone_debugger.Protocol.Types.{
  ThreadId, ProcessType, was_attached, was_created, StopReason, signal, exited, exited_with_signal,
  thread_exited, no_more_threads, VContFeature, feature_continue, feature_continue_with_signal,
  feature_step, feature_step_with_signal, feature_stop, feature_range_step, HostErrno, eperm,
  enoent, eintr, ebadf, eacces, efault, ebusy, eexist, enodev, enotdir, eisdir, einval, enfile,
  emfile, efbig, enospc, espipe, erofs, enametoolong, eunknown, HostStat, HostIoResult, host_ok,
  host_error, host_integer, host_data, host_stat, Response, empty, response_ok, response_error,
  text, output, bytes, bytes_or_eof, thread, process_type, stopped, search_result, v_cont_features,
  threads, host_io_result, symbol_response,
}
use ckb_standalone_debugger.Protocol.Writer.{
  PacketWriter, packet_writer, write, finish, write_thread_id, write_hex_data, Memchr,
  write_binary_data,
}

-- `feature as u8`
unfoldable pub feature_code : VContFeature → ℕ
feature_code feature_continue = b'c'
feature_code feature_continue_with_signal = b'C'
feature_code feature_step = b's'
feature_code feature_step_with_signal = b'S'
feature_code feature_stop = b't'
feature_code feature_range_step = b'r'

-- `errno as u32`
unfoldable pub errno_code : HostErrno → ℕ
errno_code eperm = 1
errno_code enoent = 2
errno_code eintr = 4
errno_code ebadf = 9
errno_code eacces = 13
errno_code efault = 14
errno_code ebusy = 16
errno_code eexist = 17
errno_code enodev = 19
errno_code enotdir = 20
errno_code eisdir = 21
errno_code einval = 22
errno_code enfile = 23
errno_code emfile = 24
errno_code efbig = 27
errno_code enospc = 28
errno_code espipe = 29
errno_code erofs = 30
errno_code enametoolong = 91
errno_code eunknown = 9999

-- `byteorder::BigEndian`
pub record BigEndian : Type 0 where
  pub write_u32 : ℕ → Bytes
  pub write_u64 : ℕ → Bytes

-- The bytes of a `HostStat`: `write_stat` into an empty vector.
unfoldable pub write_stat : BigEndian → HostStat → Bytes
write_stat be stat =
    be.write_u32 stat.st_dev
    ++ be.write_u32 stat.st_ino
    ++ be.write_u32 stat.st_mode
    ++ be.write_u32 stat.st_nlink
    ++ be.write_u32 stat.st_uid
    ++ be.write_u32 stat.st_gid
    ++ be.write_u32 stat.st_rdev
    ++ be.write_u64 stat.st_size
    ++ be.write_u64 stat.st_blksize
    ++ be.write_u64 stat.st_blocks
    ++ be.write_u32 stat.st_atime
    ++ be.write_u32 stat.st_mtime
    ++ be.write_u32 stat.st_ctime

unfoldable pub write_features : List VContFeature → PacketWriter → PacketWriter
unfolding feature_code
write_features [] w = w
write_features (feature ∷ features) w =
    write_features features (write (codes ";" ++ feature_code feature ∷ []) w)

-- The rest of a list of threads, behind its first.
unfoldable pub write_threads : List ThreadId → PacketWriter → PacketWriter
unfolding write_thread_id
write_threads [] w = w
write_threads (id ∷ ids) w = write_threads ids (write_thread_id id (write (codes ",") w))

unfoldable pub write_stop_reason : StopReason → PacketWriter → PacketWriter
unfolding write_thread_id
write_stop_reason (signal signo) w = write (codes "S" ++ hex_byte signo) w
write_stop_reason (exited pid status) w =
    write (codes "W" ++ hex_byte status ++ codes ";process:" ++ hex pid) w
write_stop_reason (exited_with_signal pid status) w =
    write (codes "X" ++ hex status ++ codes ";process:" ++ hex pid) w
write_stop_reason (thread_exited thread_id status) w =
    write_thread_id thread_id (write (codes "w" ++ hex status ++ codes ";") w)
write_stop_reason no_more_threads w = write (codes "N") w

module _ (m : Memchr) (be : BigEndian) where
  unfoldable pub write_host_result : HostIoResult → PacketWriter → Option PacketWriter
  unfolding write_binary_data errno_code write_stat
  write_host_result host_ok w = some (write (codes "F0") w)
  write_host_result (host_error errno) w = some (write (codes "F-1," ++ hex (errno_code errno)) w)
  write_host_result (host_integer i) w = some (write (codes "F" ++ hex i) w)
  write_host_result (host_data v) w =
      write_binary_data m v (write (codes "F" ++ hex (length v) ++ codes ";") w)
  write_host_result (host_stat stat) w =
      let data_ = write_stat be stat in
      write_binary_data m data_ (write (codes "F" ++ hex (length data_) ++ codes ";") w)

  -- The `match` of `write_response`.
  unfoldable pub write_body : Response → PacketWriter → Option PacketWriter
  unfolding write_host_result write_features write_threads write_stop_reason write_hex_data
  write_body response_ok w = some (write (codes "OK") w)
  write_body empty w = some w
  write_body (response_error val) w = some (write (codes "E" ++ hex_byte val) w)
  write_body (text s) w = some (write s w)
  write_body (output s) w = some (write_hex_data s (write (codes "O") w))
  write_body (bytes data_) w = some (write_hex_data data_ w)
  write_body (bytes_or_eof data_ eof) w =
      write_binary_data m data_ (write (if eof then codes "l" else codes "m") w)
  write_body (thread none) w = some (write (codes "OK") w)
  write_body (thread (some thread_id)) w = some (write_thread_id thread_id (write (codes "QC") w))
  write_body (process_type was_attached) w = some (write (codes "1") w)
  write_body (process_type was_created) w = some (write (codes "0") w)
  write_body (search_result (some addr)) w = some (write (codes "1," ++ hex addr) w)
  write_body (search_result none) w = some (write (codes "0") w)
  write_body (stopped stop_reason) w = some (write_stop_reason stop_reason w)
  write_body (v_cont_features features) w = some (write_features features (write (codes "vCont") w))
  write_body (threads []) w = some (write (codes "l") w)
  write_body (threads (id ∷ ids)) w =
      some (write_threads ids (write_thread_id id (write (codes "m") w)))
  write_body (symbol_response name) w = some (write_hex_data name (write (codes "qSymbol:") w))
  write_body (host_io_result result) w = write_host_result result w

  -- What the connection got, and then gets with the packet.
  unfoldable pub write_response : Response → Bytes → Option Bytes
  unfolding write_body finish packet_writer
  write_response response sent = elim (write_body response (packet_writer (sent ++ codes "$"))) [
    | some w ↦ some (finish w).sent
    | none ↦ none
  ]
