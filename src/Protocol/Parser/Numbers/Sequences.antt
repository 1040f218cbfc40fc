-- ===== src/Protocol/Parser/Numbers/Sequences.antt =====
-- The parser of byte sequences reads what `{:02x}` of each byte writes.
use ckb_standalone_debugger.Prelude.{
  ℕ, ◌/◌, ◌%◌, ◌<◌, ◌≡◌, refl, ap, true, some, [], ◌∷◌, ◌++◌, Bytes, arith, Octets,
}
use ckb_standalone_debugger.Prelude.Format.{codes, digit_char}
use ckb_standalone_debugger.Prelude.Format
use ckb_standalone_debugger.Protocol.Nom.{Nom, done}
use ckb_standalone_debugger.Protocol.Nom.Documented.{NomLaws, contains, Repeats, ended, again}
use ckb_standalone_debugger.Protocol.Parser.Numbers.{
  byte_of_digits, hex_digit, hex_byte, hex_byte_sequence,
}
use ckb_standalone_debugger.Protocol.Parser.Numbers.Written.{to_digit-digit_char}

-- `{:02x}` of each byte.
abbrev pub hex_bytes : Bytes → Bytes
hex_bytes [] = []
hex_bytes (b ∷ bytes) = Format.hex_byte b ++ hex_bytes bytes

abbrev hex_chars : Bytes
hex_chars = codes "0123456789abcdefABCDEF"

contains-digit_char : (d : ℕ) → d < 16 → contains hex_chars (digit_char d) ≡ true
unfolding digit_char
contains-digit_char d h = ground arith

byte_of_digits-digit_char :
    (b : ℕ) → b < 256 → byte_of_digits (digit_char (b / 16)) (digit_char (b % 16)) ≡ some b
unfolding byte_of_digits
byte_of_digits-digit_char b h =
    rw
      (
        to_digit-digit_char (b / 16) (omega arith),
        byte_of_digits,
        to_digit-digit_char (b % 16) (omega arith),
      )
      (ap some (omega arith))

module _ (n : Nom) (laws : NomLaws n) where
  hex_digit-digit_char :
      (d : ℕ) (rest : Bytes) → d < 16 → hex_digit n (digit_char d ∷ rest) ≡ done rest (digit_char d)
  unfolding hex_digit
  hex_digit-digit_char d rest h = rw (laws.one_of_lem, contains-digit_char d h) refl

  hex_byte-hex_byte :
      (b : ℕ) (rest : Bytes) → b < 256 → hex_byte n (Format.hex_byte b ++ rest) ≡ done rest b
  unfolding hex_byte Format.hex_byte
  hex_byte-hex_byte b rest h =
      rw
        (
          laws.map_unwrap_lem,
          laws.then_parse_lem,
          hex_digit-digit_char (b / 16) (digit_char (b % 16) ∷ rest) (omega arith),
          laws.then_parse_lem,
          hex_digit-digit_char (b % 16) rest (omega arith),
          byte_of_digits-digit_char b h,
        )
        refl

  hex_bytes-Repeats :
      (bytes : Bytes) → Octets bytes → Repeats (hex_byte n) (hex_bytes bytes) bytes []
  unfolding Format.hex_byte
  hex_bytes-Repeats [] all = ended
  hex_bytes-Repeats (b ∷ bytes) all =
      again (hex_byte-hex_byte b (hex_bytes bytes) all.0) (omega arith)
        (hex_bytes-Repeats bytes all.1)

  -- A sequence of bytes that is the rest of a packet is read back.
  pub hex_byte_sequence-hex_bytes :
      (b : ℕ) (bytes : Bytes)
      → Octets (b ∷ bytes)
      → hex_byte_sequence n (hex_bytes (b ∷ bytes)) ≡ done [] (b ∷ bytes)
  unfolding hex_byte_sequence
  hex_byte_sequence-hex_bytes b bytes all =
      laws.many1_Repeats (hex_byte n) _ (hex_bytes bytes) [] b bytes
        (hex_byte-hex_byte b (hex_bytes bytes) all.0) (hex_bytes-Repeats bytes all.1)
