-- ===== src/Tests/Protocol.antt =====
-- Packets of the protocol.
use ckb_standalone_debugger.Prelude.{
  ◌%◌, ◌≡◌, refl, ◌==◌, ◌||◌, true, false, Option, some, [], ◌∷◌, ◌++◌, Bytes, replicate,
}
use ckb_standalone_debugger.Prelude.Format.{codes, hex, hex_byte}
use ckb_standalone_debugger.Protocol.Types.{
  response_ok, bytes_or_eof, threads, number, any, Command, Query,
}
use ckb_standalone_debugger.Protocol.Writer.{
  compute_checksum_incremental, PacketWriter, packet_writer, write, Memchr, MemchrLaws, first,
  write_binary_data, write_thread_id,
}
use ckb_standalone_debugger.Protocol.Writer.Binary.{
  escape, unescape, write_binary_data-escape, write_binary_data-unescape,
}
use ckb_standalone_debugger.Protocol.Writer.Respond.{BigEndian, write_response, write_threads}
use ckb_standalone_debugger.Protocol.Handler.{Handler}
use ckb_standalone_debugger.Protocol.Dispatch.{Truncate, no_ack_mode, handle_parsed, handle_packet}
use ckb_standalone_debugger.Protocol.Dispatch.Answers.{handle_packet-Framed}
use ckb_standalone_debugger.Gdbserver.Serve.{gdb_handler}
use ckb_standalone_debugger.Gdbserver.State.{GdbHandler}
use ckb_standalone_debugger.Tests.Toy.{Toy, toy_vm}
use ckb_standalone_debugger.Tests.Gdbserver.{coding, handler}

abbrev pub searches : Memchr
searches = record {
  memchr = λ a data_. first (λ b. b == a) data_;
  memchr3 = λ a b c data_. first (λ x. (x == a) || ((x == b) || (x == c))) data_;
}

pub searches_laws : MemchrLaws searches
searches_laws = record { memchr-first = λ a data_. refl; memchr3-first = λ a b c data_. refl }

abbrev pub big_endian : BigEndian
big_endian = record {
  write_u32 = λ v. replicate 4 (v % 256);
  write_u64 = λ v. replicate 8 (v % 256);
}

abbrev pub no_bits : Truncate
no_bits = record { open_flags = λ v. v; host_mode = λ v. v }

-- The answers of the repository's own test of the writer.
ok_packet : write_response searches big_endian response_ok [] ≡ some (codes "$OK#9a")
unfolding write_response hex_byte
ok_packet = refl

thread_packet :
    write_response searches big_endian
      (threads (
        record { pid = number 123; tid = number 123 }
        ∷ record { pid = number 456; tid = any }
        ∷ []))
      []
    ≡ some (codes "$mp7b.7b,p1c8.0#03")
unfolding write_response write_threads write_thread_id hex hex_byte
thread_packet = refl

plain_packet :
    write_response searches big_endian (bytes_or_eof (codes "does not need to be escaped") true) []
    ≡ some (codes "$ldoes not need to be escaped#23")
unfolding write_response write_binary_data first hex_byte
plain_packet = refl

abbrev sample : Bytes
sample = codes "a#b}*$"

write_binary_data-escape_example :
    write_binary_data searches sample (packet_writer [])
    ≡ some (write (escape sample) (packet_writer []))
write_binary_data-escape_example =
    write_binary_data-escape searches searches_laws sample (packet_writer [])

abbrev sample_written : PacketWriter
sample_written = write (97 ∷ 125 ∷ 3 ∷ 98 ∷ 125 ∷ 93 ∷ 125 ∷ 10 ∷ 125 ∷ 4 ∷ []) (packet_writer [])

sample_bytes : write_binary_data searches sample (packet_writer []) ≡ some sample_written
unfolding write_binary_data first packet_writer
sample_bytes = refl

write_binary_data-unescape_example : unescape false sample_written.sent ≡ sample
write_binary_data-unescape_example =
    write_binary_data-unescape searches searches_laws sample sample_bytes

abbrev pub server : Handler (GdbHandler Toy)
server = gdb_handler toy_vm coding 10

abbrev pub no_ack : Option Command
no_ack = some (Command.query Query.start_no_ack_mode)

pub no_ack_answer : handle_parsed server no_bits no_ack handler ≡ some (some response_ok, handler)
unfolding handle_parsed
no_ack_answer = refl

handle_packet-Framed_example :
    (body : Bytes) × (handle_packet server no_bits searches big_endian no_ack [] handler
      ≡ some (
        some (
          no_ack_mode no_ack,
          [] ++ (b'$' ∷ (body ++ (b'#' ∷ hex_byte (compute_checksum_incremental body 0)))),
        ),
        handler,
      ))
handle_packet-Framed_example =
    handle_packet-Framed server no_bits searches searches_laws big_endian no_ack [] handler
      no_ack_answer
