-- ===== src/Protocol/Server.antt =====
-- The server's loop, `process_packets_from`, and `handle_packet` from the bytes of a packet on
-- (ckb-gdb-remote-protocol/src/lib.rs). The reader is the list of what its calls give, in order;
-- where the list ends, the connection is closed or has failed.
pub mod Chunks
pub mod Answers
use ckb_standalone_debugger.Prelude.{
  ℕ, zero, suc, ◌+◌, ◌-◌, ◌*◌, Bool, true, false, not, ◌&&◌, Option, none, some, List, [], ◌∷◌,
  ◌++◌, Bytes, length, drop, if◌then◌else◌, ltb,
}
use ckb_standalone_debugger.Prelude.Format.{codes}
use ckb_standalone_debugger.Protocol.Types.{Packet, ack, nack, interrupt, packet_data, Command}
use ckb_standalone_debugger.Protocol.Nom.{IResult, done, incomplete, error, panicked, Nom}
use ckb_standalone_debugger.Protocol.Parser.Commands.{command}
use ckb_standalone_debugger.Protocol.Parser.Packets.{run_parser}
use ckb_standalone_debugger.Protocol.Writer.{Memchr}
use ckb_standalone_debugger.Protocol.Writer.Respond.{BigEndian}
use ckb_standalone_debugger.Protocol.Handler.{Handler}
use ckb_standalone_debugger.Protocol.Dispatch.{Truncate, handle_packet}

abbrev pub max_packet_size : ℕ
max_packet_size = 64 * 1024

-- `buf[..endbuf]`, what the connection got, and the state of the handler.
pub record Session (S : Type 0) : Type 0 where
  pub buf : Bytes
  pub ack_mode : Bool
  pub sent : Bytes
  pub state : S

-- A panic ends the server; `never` says that the handler does not come back, or that the fuel of
-- the model ran out.
pub data Served (S : Type 0) : Type 0 where
  served : Session S → Served S
  crashed never : Served S

abbrev pub served_then : {S : Type 0} → Served S → (Session S → Served S) → Served S
served_then (served c) f = f c
served_then crashed f = crashed
served_then never f = never

-- What the server is made of: other packages, and the handler.
pub record Server (S : Type 0) : Type 1 where
  pub nom : Nom
  pub memchr : Memchr
  pub big_endian : BigEndian
  pub truncate : Truncate
  pub handler : Handler S

module _ {S : Type 0} (server : Server S) where
  open server use {nom, memchr, big_endian, truncate, handler}

  -- `if let Done(_, command) = command(data)`; the parser may have panicked.
  unfoldable pub handle_read : IResult Command → Bytes → S → Option (Option (Bool × Bytes) × S)
  unfolding handle_packet
  handle_read (done rest c) sent s =
      handle_packet handler truncate memchr big_endian (some c) sent s
  handle_read incomplete sent s = handle_packet handler truncate memchr big_endian none sent s
  handle_read error sent s = handle_packet handler truncate memchr big_endian none sent s
  handle_read panicked sent s = some (none, s)

  -- `handle_packet`: a new mode, what the connection got and the state; `none` inside is a panic.
  unfoldable pub handle_data : Bytes → Bytes → S → Option (Option (Bool × Bytes) × S)
  unfolding command handle_read
  handle_data data_ sent s = handle_read (command nom data_) sent s

  -- What `handle_packet` came back with. A packet that turns the acknowledgements off does so for
  -- good.
  abbrev pub after_data : Session S → Option (Option (Bool × Bytes) × S) → Served S
  after_data c (some (some (no_ack_mode, sent), s)) =
      served (record c { ack_mode = c.ack_mode && not no_ack_mode; sent = sent; state = s })
  after_data c (some (none, s)) = crashed
  after_data c none = never

  -- The acknowledgement, and the packet's turn. The checksum of the packet is not looked at.
  unfoldable pub handle_frame : Packet → Session S → Served S
  unfolding handle_data
  handle_frame (packet_data data_ checksum) c =
      let sent = if c.ack_mode then c.sent ++ codes "+" else c.sent in
      after_data c (handle_data data_ sent c.state)
  handle_frame ack c = served c
  handle_frame nack c = served c
  handle_frame interrupt c = served c

  -- The loop over the packets of the buffer. A packet takes a byte at least, so `1 + length`
  -- rounds are enough.
  unfoldable pub drain : ℕ → Session S → Served S
  unfolding run_parser handle_frame
  drain zero c = never
  drain (suc fuel) c = elim (run_parser nom c.buf) [
    | none ↦ served c
    | some (len, found) ↦
        served_then (handle_frame found c) (λ c'. drain fuel (record c' { buf = drop len c.buf }))
  ]

  -- One read of `n` bytes: none of them, as when the buffer is full, ends the loop. A reader gives
  -- no more than there is room for; if it did, the slice would be out of bounds.
  unfoldable pub process_packets_from : List Bytes → Session S → Served S
  unfolding drain
  process_packets_from [] c = served c
  process_packets_from ([] ∷ reads) c = served c
  process_packets_from ((b ∷ bytes) ∷ reads) c =
      let buf = c.buf ++ b ∷ bytes in
      let rest =
        served_then (drain (suc (length buf)) (record c { buf = buf }))
          (process_packets_from reads) in
      if ltb max_packet_size (length buf) then crashed else rest

  -- The state in which the loop starts.
  abbrev pub connected : S → Session S
  connected s = record { buf = []; ack_mode = true; sent = []; state = s }
