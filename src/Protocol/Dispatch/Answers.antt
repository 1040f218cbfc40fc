-- ===== src/Protocol/Dispatch/Answers.antt =====
-- What `handle_packet` sends for a command.
use ckb_standalone_debugger.Prelude.{◌≡◌, Option, some, ◌∷◌, ◌++◌, Bytes}
use ckb_standalone_debugger.Prelude.Format.{hex_byte}
use ckb_standalone_debugger.Protocol.Types.{Command, Response}
use ckb_standalone_debugger.Protocol.Writer.{Memchr, MemchrLaws, compute_checksum_incremental}
use ckb_standalone_debugger.Protocol.Writer.Respond.{BigEndian}
use ckb_standalone_debugger.Protocol.Writer.Respond.Frame.{write_response-Framed}
use ckb_standalone_debugger.Protocol.Handler.{Handler}
use ckb_standalone_debugger.Protocol.Dispatch.{Truncate, no_ack_mode, handle_parsed, handle_packet}

module _ {S : Type 0} (handler : Handler S) (truncate : Truncate) (m : Memchr) (laws : MemchrLaws m)
    (be : BigEndian) where
  -- When the handler answers, the connection gets exactly one packet more: `$`, a text, `#` and
  -- the checksum of the text. The state is the handler's, and acknowledgements go off only if the
  -- packet asked for that.
  pub handle_packet-Framed :
      (parsed : Option Command) (sent : Bytes) (s : S) {r : Response} {s' : S}
      → handle_parsed handler truncate parsed s ≡ some (some r, s')
      → (body : Bytes) × (handle_packet handler truncate m be parsed sent s
          ≡ some (
            some (
              no_ack_mode parsed,
              sent ++ (b'$' ∷ (body ++ (b'#' ∷ hex_byte (compute_checksum_incremental body 0)))),
            ),
            s',
          ))
  unfolding handle_packet
  handle_packet-Framed parsed sent s {r} e =
      let (body, framed) = write_response-Framed m laws be r sent in
      (body, rw (e, handle_packet, framed))
