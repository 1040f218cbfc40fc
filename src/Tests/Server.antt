-- ===== src/Tests/Server.antt =====
-- The server's loop, and the parsers of packets.
use ckb_standalone_debugger.Prelude.{
  ◌+◌, ◌^◌, ◌≡◌, refl, true, some, [], ◌∷◌, ◌++◌, Bytes, length, arith, not, ◌&&◌, if◌then◌else◌,
}
use ckb_standalone_debugger.Prelude.Format.{codes, hex}
use ckb_standalone_debugger.Protocol.Types.{Command, packet_data, Query, number, any}
use ckb_standalone_debugger.Protocol.Nom.{done}
use ckb_standalone_debugger.Protocol.Nom.Documented.{span}
use ckb_standalone_debugger.Protocol.Parser.Numbers.Written.{Plain}
use ckb_standalone_debugger.Protocol.Parser.Commands.{command}
use ckb_standalone_debugger.Protocol.Parser.Commands.Reads.{memory, command-Encodes}
use ckb_standalone_debugger.Protocol.Parser.Packets.{run_parser}
use ckb_standalone_debugger.Protocol.Parser.Packets.Written.{frame, run_parser-frame}
use ckb_standalone_debugger.Protocol.Writer.{compute_checksum_incremental}
use ckb_standalone_debugger.Protocol.Dispatch.{no_ack_mode}
use ckb_standalone_debugger.Protocol.Server.{Server, served, crashed, process_packets_from}
use ckb_standalone_debugger.Protocol.Server.Chunks.{process-concat, with_buf, concat}
use ckb_standalone_debugger.Protocol.Server.Answers.{
  idle, process-frame, process_stuck, process-read_register_crashes,
}
use ckb_standalone_debugger.Gdbserver.State.{GdbHandler}
use ckb_standalone_debugger.Tests.Toy.{Toy}
use ckb_standalone_debugger.Tests.Nom.{toy_nom, toy_nom_laws}
use ckb_standalone_debugger.Tests.Gdbserver.{handler}
use ckb_standalone_debugger.Tests.Protocol.{
  searches, searches_laws, big_endian, no_bits, server, no_ack_answer,
}

abbrev toy_server : Server (GdbHandler Toy)
toy_server = record {
  nom = toy_nom;
  memchr = searches;
  big_endian = big_endian;
  truncate = no_bits;
  handler = server;
}

thread_name :
    command toy_nom (codes "qThreadExtraInfo,ffff")
    ≡ done [] (Command.query (Query.thread_info (record { pid = number 65535; tid = any })))
unfolding command span
thread_name = refl

command-Encodes_example :
    command toy_nom (b'm' ∷ (hex 4096 ++ b',' ∷ hex 8))
    ≡ done [] (Command.read_memory (record { address = 4096; length = 8 }))
command-Encodes_example =
    command-Encodes toy_nom toy_nom_laws (memory 4096 8 (omega arith) (omega arith))

abbrev no_ack_text : Bytes
no_ack_text = codes "QStartNoAckMode"

no_ack_Plain : Plain no_ack_text
no_ack_Plain = omega arith

run_parser-frame_example :
    run_parser toy_nom (frame no_ack_text 0xb0 ++ codes "+")
    ≡ some (length no_ack_text + 4, packet_data no_ack_text 0xb0)
run_parser-frame_example =
    run_parser-frame toy_nom toy_nom_laws no_ack_text 0xb0 (codes "+") no_ack_Plain (omega arith)

no_ack_read : command toy_nom no_ack_text ≡ done [] (Command.query Query.start_no_ack_mode)
unfolding command
no_ack_read = refl

-- The sum 1 is not that of the text.
process-frame_example :
    (answer : Bytes) × (process_packets_from toy_server
        (frame no_ack_text 1 ∷ [])
        (idle true (codes "+") handler)
      ≡ served (
          idle
            (true && not (no_ack_mode (some (Command.query Query.start_no_ack_mode))))
            ((if true then codes "+" ++ codes "+" else codes "+")
              ++ frame answer (compute_checksum_incremental answer 0))
            handler))
process-frame_example =
    process-frame toy_server toy_nom_laws searches_laws true (codes "+") no_ack_text [] 1 handler
      no_ack_Plain (omega arith) (omega arith) no_ack_read no_ack_answer

process-concat_example :
    process_packets_from toy_server
      (codes "$g" ∷ codes "#67$k#" ∷ codes "6b+" ∷ [])
      (idle true [] handler)
    ≡ process_packets_from toy_server (codes "$g#67" ∷ codes "$k#6b+" ∷ []) (idle true [] handler)
process-concat_example =
    process-concat toy_server toy_nom_laws (codes "$g" ∷ codes "#67$k#" ∷ codes "6b+" ∷ [])
      (codes "$g#67" ∷ codes "$k#6b+" ∷ []) (idle true [] handler) refl (omega arith) (omega arith)
      (omega arith)

process_stuck_example :
    process_packets_from toy_server
      (codes "g#67" ∷ [])
      (with_buf (codes "x") (idle true [] handler))
    ≡ served (with_buf (codes "x" ++ concat (codes "g#67" ∷ [])) (idle true [] handler))
process_stuck_example =
    process_stuck toy_server toy_nom_laws b'x' [] (codes "g#67" ∷ [])
      (with_buf (codes "x") (idle true [] handler)) (omega arith) (omega arith) (omega arith)
      (omega arith) refl (omega arith) (omega arith)

length_digits : length (hex (2 ^ 64)) ≡ 17
unfolding hex
length_digits = refl

process-read_register_crashes_example :
    process_packets_from toy_server (frame (b'p' ∷ hex (2 ^ 64)) 0 ∷ []) (idle true [] handler)
    ≡ crashed
process-read_register_crashes_example =
    process-read_register_crashes toy_server toy_nom_laws true [] (2 ^ 64) 0 [] handler
      (omega arith) (omega arith) (omega arith) (omega (arith, length_digits))
