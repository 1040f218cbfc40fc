-- ===== src/Protocol/Parser/Packets.antt =====
-- The frame around a command: `packet_or_response` and `run_parser`
-- (ckb-gdb-remote-protocol/src/lib.rs).
pub mod Scan
pub mod Frames
pub mod Written
use ckb_standalone_debugger.Prelude.{ℕ, ◌-◌, Option, none, some, [], ◌∷◌, Bytes, length, unwrap_or}
use ckb_standalone_debugger.Prelude.Format.{codes}
use ckb_standalone_debugger.Protocol.Types.{Packet, ack, nack, interrupt, packet_data}
use ckb_standalone_debugger.Protocol.Nom.{IResult, done, incomplete, error, panicked, Parser, Nom}
use ckb_standalone_debugger.Protocol.Parser.Numbers.{from_utf8, from_str_radix}

-- What is left is a part of `buf`, and its place there is the difference of the lengths.
unfoldable pub offset : Bytes → Bytes → ℕ
offset from_ to_ = length from_ - length to_

-- The `if let` of `run_parser`.
abbrev pub packet_of : Bytes → IResult Packet → Option (ℕ × Packet)
packet_of buf (done rest found) = some (offset buf rest, found)
packet_of buf incomplete = none
packet_of buf error = none
packet_of buf panicked = none

module _ (n : Nom) where
  open n use {tag, take, is_not, map, map_res, preceded, separated_pair, alt, opt}

  unfoldable pub checksum : Parser ℕ
  unfolding from_utf8 from_str_radix
  checksum = map_res (map_res (take 2) from_utf8) (from_str_radix 8)

  -- `o.map_or(vec!(), |s| s.to_vec())` is `unwrap_or o []`.
  unfoldable pub packet : Parser (Bytes × ℕ)
  unfolding checksum
  packet = preceded (tag (codes "$")) (
      separated_pair (map (opt (is_not (codes "#"))) (λ o. unwrap_or o [])) (tag (codes "#"))
        checksum)

  unfoldable pub packet_or_response : Parser Packet
  unfolding packet
  packet_or_response = alt (
      map packet (λ (d, chk). packet_data d chk)
      ∷ map (tag (codes "+")) (λ _. ack)
      ∷ map (tag (codes "-")) (λ _. nack)
      ∷ map (tag (3 ∷ [])) (λ _. interrupt)
      ∷ [])

  unfoldable pub run_parser : Bytes → Option (ℕ × Packet)
  unfolding packet_or_response offset
  run_parser buf = packet_of buf (packet_or_response buf)
