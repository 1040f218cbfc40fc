-- ===== src/Protocol/Server/Answers.antt =====
-- What the server answers to a packet, and to what is none.
use ckb_standalone_debugger.Prelude.{
  ℕ, zero, suc, ◌+◌, ◌^◌, ◌<◌, ◌≤◌, ◌≡◌, ◌≢◌, refl, sym, ap, ◌∙◌, Bool, not, ◌&&◌, none, some, List,
  [], ◌∷◌, ◌++◌, append-nil, append_assoc, Bytes, length, drop, arith, length-append, if◌then◌else◌,
}
use ckb_standalone_debugger.Prelude.Format.{codes, hex, hex_byte}
use ckb_standalone_debugger.Protocol.Types.{packet_data, Command, Response}
use ckb_standalone_debugger.Protocol.Nom.{done, panicked}
use ckb_standalone_debugger.Protocol.Nom.Documented.{NomLaws}
use ckb_standalone_debugger.Protocol.Parser.Commands.{command}
use ckb_standalone_debugger.Protocol.Parser.Commands.Reads.{command-read_register_panics}
use ckb_standalone_debugger.Protocol.Parser.Packets.{run_parser}
use ckb_standalone_debugger.Protocol.Parser.Packets.Written.{frame, run_parser-frame}
use ckb_standalone_debugger.Protocol.Parser.Numbers.Written.{Plain, hex-Plain}
use ckb_standalone_debugger.Protocol.Parser.Packets.Frames.{run_parser_nil, run_parser_other}
use ckb_standalone_debugger.Protocol.Writer.{MemchrLaws, compute_checksum_incremental}
use ckb_standalone_debugger.Protocol.Dispatch.{no_ack_mode, handle_parsed, handle_packet}
use ckb_standalone_debugger.Protocol.Dispatch.Answers.{handle_packet-Framed}
use ckb_standalone_debugger.Protocol.Server.{
  Session, served, crashed, served_then, Server, after_data, handle_read, handle_data, handle_frame,
  drain, process_packets_from, max_packet_size,
}
use ckb_standalone_debugger.Protocol.Server.Chunks.{
  process_read, drain-some, drain-none, with_buf, NonEmpty, concat,
}

-- Between two packets.
abbrev pub idle : {S : Type 0} → Bool → Bytes → S → Session S
idle ack_mode sent s = record { buf = []; ack_mode = ack_mode; sent = sent; state = s }

drop_all : (n : ℕ) (xs : Bytes) → length xs ≤ n → drop n xs ≡ []
drop_all zero [] h = refl
drop_all zero (x ∷ xs) h = absurd (omega arith)
drop_all (suc n) [] h = refl
drop_all (suc n) (x ∷ xs) h = drop_all n xs (omega arith)

length-frame : (body : Bytes) (sum : ℕ) → length (frame body sum) ≡ length body + 4
unfolding hex_byte
length-frame body sum = omega (arith, length-append body (b'#' ∷ hex_byte sum))

module _ {S : Type 0} (server : Server S) (laws : NomLaws server.nom) where
  process_end : (c : Session S) → process_packets_from server [] c ≡ served c
  unfolding process_packets_from
  process_end c = refl

  -- Once a byte that starts no packet is in front, the server does nothing any more: it neither
  -- skips the byte nor answers, whatever comes, as long as the buffer has room.
  pub process_stuck :
      (b : ℕ) (buf : Bytes) (reads : List Bytes) (c : Session S)
      → b ≢ b'$'
      → b ≢ b'+'
      → b ≢ b'-'
      → b ≢ 3
      → c.buf ≡ b ∷ buf
      → NonEmpty reads
      → length c.buf + length (concat reads) ≤ max_packet_size
      → process_packets_from server reads c ≡ served (with_buf (c.buf ++ concat reads) c)
  process_stuck b buf [] c p q r t e all h =
      process_end c ∙ ap (λ l. served (with_buf l c)) (sym (append-nil c.buf))
  process_stuck b buf ([] ∷ reads) c p q r t e all h = absurd (omega (arith, all.0))
  process_stuck b buf ((x ∷ xs) ∷ reads) c p q r t e all h =
      let c' = with_buf (c.buf ++ x ∷ xs) c in
      let front : c'.buf ≡ b ∷ (buf ++ x ∷ xs) = ap (λ l. l ++ x ∷ xs) e in
      process_read server laws x xs reads c (omega (arith, length-append (x ∷ xs) (concat reads)))
      ∙ ap (λ r. served_then r (process_packets_from server reads))
          (drain-none server laws (length c'.buf) c' (
            ap (run_parser server.nom) front
            ∙ run_parser_other server.nom laws b (buf ++ x ∷ xs) p q r t))
      ∙ process_stuck b (buf ++ x ∷ xs) reads c' p q r t front all.1
          (omega (arith, length-append (x ∷ xs) (concat reads), length-append c.buf (x ∷ xs)))
      ∙ ap (λ l. served (with_buf l c)) (append_assoc c.buf (x ∷ xs) (concat reads))

  run_parser-frame_end :
      (body : Bytes) (sum : ℕ)
      → Plain body
      → sum < 256
      → run_parser server.nom (frame body sum) ≡ some (length body + 4, packet_data body sum)
  run_parser-frame_end body sum p h =
      ap (run_parser server.nom) (sym (append-nil (frame body sum)))
      ∙ run_parser-frame server.nom laws body sum [] p h

  handle_data_panicked :
      (data_ sent : Bytes) (s : S)
      → command server.nom data_ ≡ panicked
      → handle_data server data_ sent s ≡ some (none, s)
  unfolding handle_data
  handle_data_panicked data_ sent s e = ap (λ r. handle_read server r sent s) e

  handle_frame_panicked :
      (body : Bytes) (sum : ℕ) (c : Session S)
      → command server.nom body ≡ panicked
      → handle_frame server (packet_data body sum) c ≡ crashed
  unfolding handle_frame
  handle_frame_panicked body sum c e =
      ap (after_data server c) (handle_data_panicked body _ c.state e)

  -- A packet on which the parser panics ends the server.
  process_panics :
      (ack_mode : Bool) (sent body : Bytes) (sum : ℕ) (reads : List Bytes) (s : S)
      → Plain body
      → sum < 256
      → length body + 4 ≤ max_packet_size
      → command server.nom body ≡ panicked
      → process_packets_from server (frame body sum ∷ reads) (idle ack_mode sent s) ≡ crashed
  process_panics ack_mode sent body sum reads s p h fits e =
      let c = record (idle ack_mode sent s) { buf = frame body sum } in
      process_read server laws b'$' _ reads (idle ack_mode sent s)
        (omega (arith, length-frame body sum))
      ∙ ap (λ r. served_then r (process_packets_from server reads))
          (drain-some server laws (length (frame body sum)) c (run_parser-frame_end body sum p h)
            ∙ ap
                (λ r. served_then r (λ c'.
                  drain server (length (frame body sum))
                    (with_buf (drop (length body + 4) (frame body sum)) c')))
                (handle_frame_panicked body sum c e))

  -- Between two packets, one that asks for a register whose number takes more than 64 bits, and is
  -- written in at most 64 digits that fit into the buffer, ends the server, whatever its handler is.
  pub process-read_register_crashes :
      (ack_mode : Bool) (sent : Bytes) (v sum : ℕ) (reads : List Bytes) (s : S)
      → 2 ^ 64 ≤ v
      → v < 16 ^ 64
      → sum < 256
      → length (hex v) + 5 ≤ max_packet_size
      → process_packets_from server (frame (b'p' ∷ hex v) sum ∷ reads) (idle ack_mode sent s)
        ≡ crashed
  process-read_register_crashes ack_mode sent v sum reads s h small k fits =
      process_panics ack_mode sent (b'p' ∷ hex v) sum reads s ((omega arith), hex-Plain v small) k
        (omega arith) (command-read_register_panics server.nom laws v h small)

module _ {S : Type 0} (server : Server S) (laws : NomLaws server.nom)
    (finds : MemchrLaws server.memchr) where
  handle_data-command :
      (data_ rest sent : Bytes) (s : S) {c : Command}
      → command server.nom data_ ≡ done rest c
      → handle_data server data_ sent s
        ≡ handle_packet server.handler server.truncate server.memchr server.big_endian
            (some c)
            sent
            s
  unfolding handle_data
  handle_data-command data_ rest sent s e = ap (λ r. handle_read server r sent s) e

  -- acknowledged, then answered
  handle_frame_answered :
      (body rest : Bytes) (sum : ℕ) (c : Session S) {cmd : Command} {r : Response} {s' : S}
      → command server.nom body ≡ done rest cmd
      → handle_parsed server.handler server.truncate (some cmd) c.state ≡ some (some r, s')
      → (answer : Bytes) × (handle_frame server (packet_data body sum) c
          ≡ served (record c {
            ack_mode = c.ack_mode && not (no_ack_mode (some cmd));
            sent =
                (if c.ack_mode then c.sent ++ codes "+" else c.sent)
                ++ frame answer (compute_checksum_incremental answer 0);
            state = s';
          }))
  unfolding handle_frame
  handle_frame_answered body rest sum c {cmd} e handled =
      let sent = if c.ack_mode then c.sent ++ codes "+" else c.sent in
      let (answer, framed) =
        handle_packet-Framed server.handler server.truncate server.memchr finds server.big_endian
          (some cmd) sent c.state handled in
      (answer, rw (handle_data-command body rest sent c.state e, framed) refl)

  -- A packet that arrives between two packets, has a text without a number sign that fits into the
  -- buffer, and parses as a command which the handler answers, is acknowledged, unless
  -- acknowledgements are off, and answered by exactly one packet with the right checksum, whatever
  -- the two digits of its own checksum are. The buffer is empty again.
  pub process-frame :
      (ack_mode : Bool) (sent body rest : Bytes) (sum : ℕ) (s : S) {cmd : Command} {r : Response}
      {s' : S}
      → Plain body
      → sum < 256
      → length body + 4 ≤ max_packet_size
      → command server.nom body ≡ done rest cmd
      → handle_parsed server.handler server.truncate (some cmd) s ≡ some (some r, s')
      → (answer : Bytes) × (process_packets_from server (frame body sum ∷ []) (idle ack_mode sent s)
          ≡ served (
              idle
                (ack_mode && not (no_ack_mode (some cmd)))
                ((if ack_mode then sent ++ codes "+" else sent)
                  ++ frame answer (compute_checksum_incremental answer 0))
                s'))
  process-frame ack_mode sent body rest sum s {cmd} {s' = s'} p h fits e handled =
      let c = record (idle ack_mode sent s) { buf = frame body sum } in
      let (answer, framed) = handle_frame_answered body rest sum c e handled in
      let after =
        idle (ack_mode && not (no_ack_mode (some cmd)))
          ((if ack_mode then sent ++ codes "+" else sent)
            ++ frame answer (compute_checksum_incremental answer 0))
          s' in
      (
        answer,
        process_read server laws b'$' _ [] (idle ack_mode sent s)
              (omega (arith, length-frame body sum))
            ∙ ap (λ r. served_then r (process_packets_from server []))
                (drain-some server laws (length (frame body sum)) c
                    (run_parser-frame_end server laws body sum p h)
                  ∙ ap
                      (λ r. served_then r (λ c'.
                        drain server (length (frame body sum))
                          (with_buf (drop (length body + 4) (frame body sum)) c')))
                      framed
                  ∙ ap (λ l. drain server (length (frame body sum)) (with_buf l after))
                      (drop_all (length body + 4) (frame body sum)
                        (omega (arith, length-frame body sum)))
                  ∙ drain-none server laws _ (with_buf [] after) (run_parser_nil server.nom laws))
            ∙ process_end server laws after,
      )
