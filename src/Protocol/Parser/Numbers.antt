-- ===== src/Protocol/Parser/Numbers.antt =====
-- Numbers, bytes, texts and thread ids of a packet (ckb-gdb-remote-protocol/src/lib.rs).
pub mod Written
pub mod Sequences
use ckb_standalone_debugger.Prelude.{
  ℕ, zero, suc, ◌+◌, ◌-◌, ◌*◌, ◌%◌, ◌^◌, ◌==◌, ◌&&◌, ◌||◌, Bool, true, false, Option, none, some,
  List, [], ◌∷◌, Bytes, if◌then◌else◌, leb, ltb,
}
use ckb_standalone_debugger.Prelude.Format.{codes}
use ckb_standalone_debugger.Protocol.Types.{ThreadNumber, number, every, any, ThreadId}
use ckb_standalone_debugger.Protocol.Writer.{flip}
use ckb_standalone_debugger.Protocol.Nom.{Parser, IResult, done, Nom}

-- `char::to_digit(16)`
unfoldable pub to_digit : ℕ → Option ℕ
to_digit c =
    if leb b'0' c && leb c b'9'
    then some (c - b'0')
    else if leb b'a' c && leb c b'f'
    then some (c - b'a' + 10)
    else if leb b'A' c && leb c b'F'
    then some (c - b'A' + 10)
    else none

-- The digits of `from_str_radix`, from the value so far: `none` at a byte that is no digit, and
-- where the value passes the type's width.
unfoldable pub radix_digits : ℕ → ℕ → Bytes → Option ℕ
unfolding to_digit
radix_digits width acc [] = some acc
radix_digits width acc (c ∷ s) = elim (to_digit c) [
  | none ↦ none
  | some d ↦
      let rest = radix_digits width (acc * 16 + d) s in
      if ltb (acc * 16 + d) (2 ^ width) then rest else none
]

-- `from_str_radix(s, 16)` of an unsigned type: a sign `+` may come before the digits, of which
-- there is at least one.
unfoldable pub from_str_radix : ℕ → Bytes → Option ℕ
unfolding radix_digits
from_str_radix width [] = none
from_str_radix width (c ∷ []) = radix_digits width 0 (c ∷ [])
from_str_radix width (c ∷ d ∷ s) =
    if c == b'+' then radix_digits width 0 (d ∷ s) else radix_digits width 0 (c ∷ d ∷ s)

-- What `str::from_utf8` accepts: `need` more bytes of a character are due, the next one of them
-- from `lo` to `hi`.
unfoldable pub utf8_tail : ℕ → ℕ → ℕ → Bytes → Bool
utf8_tail zero lo hi [] = true
utf8_tail (suc need) lo hi [] = false
utf8_tail (suc need) lo hi (b ∷ s) = (leb lo b && leb b hi) && utf8_tail need 0x80 0xbf s
utf8_tail zero lo hi (b ∷ s) =
    if ltb b 0x80
    then utf8_tail 0 0x80 0xbf s
    else if leb 0xc2 b && leb b 0xdf
    then utf8_tail 1 0x80 0xbf s
    else if b == 0xe0
    then utf8_tail 2 0xa0 0xbf s
    else if b == 0xed
    then utf8_tail 2 0x80 0x9f s
    else if leb 0xe1 b && leb b 0xef
    then utf8_tail 2 0x80 0xbf s
    else if b == 0xf0
    then utf8_tail 3 0x90 0xbf s
    else if leb 0xf1 b && leb b 0xf3
    then utf8_tail 3 0x80 0xbf s
    else if b == 0xf4
    then utf8_tail 3 0x80 0x8f s
    else false

unfoldable pub from_utf8 : Bytes → Option Bytes
unfolding utf8_tail
from_utf8 s = if utf8_tail 0 0x80 0xbf s then some s else none

-- `16 * digit0.to_digit(16).unwrap() + digit1.to_digit(16).unwrap()`
unfoldable pub byte_of_digits : ℕ → ℕ → Option ℕ
byte_of_digits digit0 digit1 = elim (to_digit digit0) [
  | none ↦ none
  | some d0 ↦ elim (to_digit digit1) [ none ↦ none | some d1 ↦ some ((16 * d0 + d1) % 256) ]
]

-- `b[0]` of a slice of one byte
abbrev pub head_byte : Bytes → Option ℕ
head_byte [] = none
head_byte (b ∷ bs) = some b

module _ (n : Nom) where
  open n use {
    tag, take, map, map_unwrap, take_while1, is_hex_digit, one_of, then_parse, many1, preceded,
    separated_pair, alt_complete,
  }

  infixl 5 ◌>>=◌
  abbrev ◌>>=◌ : {A B : Type 0} → Parser A → (A → Parser B) → Parser B
  p >>= f = then_parse p f

  -- More than 16 digits that matter are a panic.
  unfoldable pub hex_value : Parser ℕ
  unfolding from_str_radix
  hex_value = map_unwrap (take_while1 is_hex_digit) (from_str_radix 64)

  unfoldable pub hex_digit : Parser ℕ
  hex_digit = one_of (codes "0123456789abcdefABCDEF")

  unfoldable pub hex_byte : Parser ℕ
  unfolding hex_digit byte_of_digits
  hex_byte =
      map_unwrap (do digit0 ← hex_digit; digit1 ← hex_digit; λ rest. done rest (digit0, digit1))
        (λ (digit0, digit1). byte_of_digits digit0 digit1)

  unfoldable pub hex_byte_sequence : Parser Bytes
  unfolding hex_byte
  hex_byte_sequence = many1 hex_byte

  unfoldable pub binary_byte : Parser ℕ
  unfolding flip
  binary_byte = alt_complete (
      map_unwrap (preceded (tag (codes "}")) (take 1))
        (λ b. elim (head_byte b) [ none ↦ none | some c ↦ some (flip c) ])
      ∷ map_unwrap (take 1) head_byte
      ∷ [])

  unfoldable pub binary_byte_sequence : Parser Bytes
  unfolding binary_byte
  binary_byte_sequence = many1 binary_byte

  -- `val as u32`
  unfoldable pub parse_thread_id_element : Parser ThreadNumber
  unfolding hex_value
  parse_thread_id_element = alt_complete (
      map (tag (codes "0")) (λ _. any)
      ∷ map (tag (codes "-1")) (λ _. every)
      ∷ map hex_value (λ val. number (val % 2 ^ 32))
      ∷ [])

  unfoldable pub parse_thread_id : Parser ThreadId
  unfolding parse_thread_id_element
  parse_thread_id = alt_complete (
      map parse_thread_id_element (λ pid. record { pid = pid; tid = any })
      ∷ map
          (preceded (tag (codes "p"))
            (separated_pair parse_thread_id_element (tag (codes ".")) parse_thread_id_element))
          (λ (pid, tid). record { pid = pid; tid = tid })
      ∷ map (preceded (tag (codes "p")) parse_thread_id_element)
          (λ id. record { pid = id; tid = every })
      ∷ [])
