-- ===== src/Prelude/Format.antt =====
-- What `format!` writes for numbers: `{}`, `{:x}` and `{:02x}`, as ASCII codes.
use Prim.Native.Nat.{ℕ, zero, suc, ◌+◌, ◌-◌, ◌/◌, ◌%◌}
use Prim.Native.Char.{code}
use Prim.Native.String.{String}
use mathlib.Core.List.{[], ◌∷◌}
use mathlib.Core.Path.{◌≡◌, refl}
use ckb_standalone_debugger.Prelude.Lists.{Bytes}
use ckb_standalone_debugger.Prelude.Tests.{ltb, if◌then◌else◌}

-- The codes of a text, which are its bytes if it is ASCII.
abbrev pub codes : String → Bytes
codes String.[] = []
codes (String.◌∷◌ c s) = code c ∷ codes s

-- The character of a digit, lower case.
unfoldable pub digit_char : ℕ → ℕ
digit_char d = if ltb d 10 then b'0' + d else b'a' + (d - 10)

-- The digits of a number in a base, most significant first: `fuel` rounds at most.
unfoldable pub digits_in : ℕ → ℕ → ℕ → Bytes → Bytes
unfolding digit_char
digits_in zero base n out = out
digits_in (suc fuel) base n out =
    let rest = digits_in fuel base (n / base) (digit_char (n % base) ∷ out) in
    if ltb n base then digit_char n ∷ out else rest

-- `{}` of an unsigned number: a 64-bit number has 20 digits at most.
unfoldable pub decimal : ℕ → Bytes
unfolding digits_in
decimal n = digits_in 64 10 n []

-- `{:x}`: a 64-bit number has 16 digits at most.
unfoldable pub hex : ℕ → Bytes
unfolding digits_in
hex n = digits_in 64 16 n []

-- `{:02x}` of a byte.
unfoldable pub hex_byte : ℕ → Bytes
unfolding digit_char
hex_byte b = digit_char (b / 16) ∷ digit_char (b % 16) ∷ []

hex_test : hex 4096 ≡ codes "1000"
unfolding hex
hex_test = refl

decimal_test : decimal 120 ≡ codes "120"
unfolding decimal
decimal_test = refl
