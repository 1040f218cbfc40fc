-- ===== src/Protocol/Writer.antt =====
-- `PacketWriter` and the functions that write through it (ckb-gdb-remote-protocol/src/lib.rs).
-- The writer behind it takes all that it is given, as a `Vec<u8>` or a connection does that is not
-- broken; what it got is part of the state. `memchr` is another package and an argument.
pub mod Binary
pub mod Respond
use ckb_standalone_debugger.Prelude.{
  unwrap_or, ℕ, zero, suc, ◌+◌, ◌-◌, ◌/◌, ◌%◌, min, ◌==◌, ◌||◌, ◌≡◌, Bool, Option, none, some, List,
  [], ◌∷◌, ◌++◌, Bytes, length, take, drop, if◌then◌else◌,
}
use ckb_standalone_debugger.Prelude.Format.{codes, hex, hex_byte}
use ckb_standalone_debugger.Protocol.Types.{ThreadId, ThreadNumber, number, every, any}

-- `sum.wrapping_add(b)` over the bytes
unfoldable pub compute_checksum_incremental : Bytes → ℕ → ℕ
compute_checksum_incremental [] init = init
compute_checksum_incremental (b ∷ bytes) init =
    compute_checksum_incremental bytes ((init + b) % 256)

-- `sent` is what the writer behind has got so far.
pub record PacketWriter : Type 0 where
  pub sent : Bytes
  pub checksum : ℕ

-- `PacketWriter::new`
unfoldable pub packet_writer : Bytes → PacketWriter
packet_writer sent = record { sent = sent; checksum = 0 }

unfoldable pub write : Bytes → PacketWriter → PacketWriter
unfolding compute_checksum_incremental
write buf w = record {
  sent = w.sent ++ buf;
  checksum = compute_checksum_incremental buf w.checksum;
}

-- `#` and the checksum go past the sum.
unfoldable pub finish : PacketWriter → PacketWriter
finish w = record { sent = w.sent ++ b'#' ∷ hex_byte w.checksum; checksum = 0 }

abbrev pub thread_number : ThreadNumber → Bytes
thread_number every = codes "-1"
thread_number any = codes "0"
thread_number (number num) = hex num

unfoldable pub write_thread_id : ThreadId → PacketWriter → PacketWriter
unfolding write
write_thread_id thread_id w =
    write (thread_number thread_id.tid)
      (write (codes ".") (write (thread_number thread_id.pid) (write (codes "p") w)))

unfoldable pub write_hex_data : Bytes → PacketWriter → PacketWriter
unfolding write
write_hex_data [] w = w
write_hex_data (b ∷ data_) w = write_hex_data data_ (write (hex_byte b) w)

-- `byte ^ 0x20` of a byte: the bit 5 is flipped.
unfoldable pub flip : ℕ → ℕ
flip byte = if (byte / 32) % 2 == 1 then byte - 32 else byte + 32

-- `memchr::memchr` and `memchr::memchr3`
pub record Memchr : Type 0 where
  pub memchr : ℕ → Bytes → Option ℕ
  pub memchr3 : ℕ → ℕ → ℕ → Bytes → Option ℕ

-- The position of the first byte that passes a test.
unfoldable pub first : (ℕ → Bool) → Bytes → Option ℕ
first test [] = none
first test (b ∷ bytes) =
    let rest = first test bytes in
    if test b then some 0 else elim rest [ some i ↦ some (suc i) | none ↦ none ]

-- They give the first position of the byte, or of one of the three.
pub record MemchrLaws (m : Memchr) : Type 0 where
  pub memchr-first : (a : ℕ) (bytes : Bytes) → m.memchr a bytes ≡ first (λ b. b == a) bytes
  pub memchr3-first :
      (a b c : ℕ) (bytes : Bytes)
      → m.memchr3 a b c bytes ≡ first (λ x. (x == a) || ((x == b) || (x == c))) bytes

module _ (m : Memchr) where
  -- How many bytes of `remaining` go out as they are.
  abbrev pub unescaped : Bytes → ℕ
  unescaped remaining =
      min (unwrap_or (m.memchr3 b'#' b'$' b'}' remaining) (length remaining))
        (unwrap_or (m.memchr b'*' remaining) (length remaining))

  -- The loop of `write_binary_data`. A round that goes on takes a byte off, so `1 + length`
  -- rounds are enough; `none` says that the fuel ran out.
  unfoldable pub write_remaining : ℕ → Bytes → PacketWriter → Option PacketWriter
  unfolding write flip
  write_remaining zero remaining w = none
  write_remaining (suc fuel) remaining w =
      let plain = unescaped remaining in
      let w' = write (take plain remaining) w in
      elim (drop plain remaining) [
        | byte ∷ rest ↦ write_remaining fuel rest (write (b'}' ∷ flip byte ∷ []) w')
        | [] ↦ some w'
      ]

  unfoldable pub write_binary_data : Bytes → PacketWriter → Option PacketWriter
  unfolding write_remaining
  write_binary_data data_ w = write_remaining (suc (length data_)) data_ w
