-- ===== src/Converter/Lines/Written.antt =====
-- A line that is written as the profiler does is read back.
use ckb_standalone_debugger.Prelude.{
  ℕ, zero, suc, ◌+◌, ◌-◌, ◌*◌, ◌/◌, ◌%◌, ◌^◌, ◌<◌, ◌≤◌, ◌≡◌, ◌≢◌, refl, sym, ap, subst, ◌∙◌, true,
  none, some, List, [], ◌∷◌, ◌++◌, map, Bytes, leb, ltb, lt→ltb, le→ltb-false, ltb→lt, ltb-false→le,
  ne→==-false, Bool-cases, inl, inr, arith,
}
use native.Mathlib.Nat.{pow-suc}
use ckb_standalone_debugger.Prelude.Format.{decimal, digits_in, digit_char}
use ckb_standalone_debugger.Converter.Lines.{
  rfind_space, split_frames, in_first, decimal_digits, u64_from_str, symbol_of, reversed,
  parse_line,
}

-- No space, and no plus sign.
abbrev Number : Bytes → Type 0
Number [] = Unit
Number (c ∷ s) = (b'0' ≤ c) × (c ≤ b'9') × Number s

rfind_space_absent : (s : Bytes) → Number s → rfind_space s ≡ none
unfolding rfind_space
rfind_space_absent [] h = refl
rfind_space_absent (c ∷ s) (low, high, h) =
    rw (rfind_space_absent s h, ne→==-false c b' ' (λ e. omega arith)) refl

rfind_space-Number : (text s : Bytes) → Number s → rfind_space (text ++ b' ' ∷ s) ≡ some (text, s)
unfolding rfind_space
rfind_space-Number [] s h = rw (rfind_space_absent s h) refl
rfind_space-Number (b ∷ text) s h = rw (rfind_space-Number text s h) refl

digits_in-last :
    (fuel n : ℕ) (out : Bytes) → n < 10 → digits_in (suc fuel) 10 n out ≡ (b'0' + n) ∷ out
unfolding digits_in digit_char
digits_in-last fuel n out h = rw (lt→ltb n 10 h) refl

digits_in-more :
    (fuel n : ℕ) (out : Bytes)
    → 10 ≤ n
    → digits_in (suc fuel) 10 n out ≡ digits_in fuel 10 (n / 10) ((b'0' + n % 10) ∷ out)
unfolding digits_in digit_char
digits_in-more fuel n out h =
    let digit : n % 10 < 10 = omega arith in rw (le→ltb-false n 10 h, lt→ltb (n % 10) 10 digit) refl

decimal_digits-cons :
    (acc d : ℕ) (s : Bytes)
    → d < 10
    → acc * 10 + d < 2 ^ 64
    → decimal_digits acc ((b'0' + d) ∷ s) ≡ decimal_digits (acc * 10 + d) s
unfolding decimal_digits
decimal_digits-cons acc d s h fits =
    let low : leb b'0' (b'0' + d) ≡ true = ground arith in
    let high : leb (b'0' + d) b'9' ≡ true = ground arith in
    let digit : b'0' + d - b'0' ≡ d = omega arith in
    rw (low, high, digit, lt→ltb (acc * 10 + d) (2 ^ 64) fits) refl

-- A number is written in digits, at least one of them, which are read back.
Written : ℕ → Bytes → Bytes → Type 0
Written n out s =
    (c : ℕ) × (rest : Bytes) × (s ≡ c ∷ rest)
    × Number s
    × (decimal_digits 0 s ≡ decimal_digits n out)

digits_in-last_Written :
    (fuel n : ℕ) (out : Bytes) → n < 10 → Number out → Written n out (digits_in (suc fuel) 10 n out)
unfolding Written
digits_in-last_Written fuel n out below h =
    let zero_and : 0 * 10 + n ≡ n = omega arith in
    rw (digits_in-last fuel n out below) (
      b'0' + n,
      out,
      refl,
      (omega arith, omega arith, h),
      decimal_digits-cons 0 n out below (omega arith) ∙ ap (λ k. decimal_digits k out) zero_and,
    )

digits_in-more_Written :
    (fuel n : ℕ) (out : Bytes)
    → 10 ≤ n
    → n % 10 < 10
    → n < 2 ^ 64
    → Written (n / 10) ((b'0' + n % 10) ∷ out) (digits_in fuel 10 (n / 10) ((b'0' + n % 10) ∷ out))
    → Written n out (digits_in (suc fuel) 10 n out)
unfolding Written
digits_in-more_Written fuel n out above digit fits (c, rest, shape, number, read) =
    let whole : n / 10 * 10 + n % 10 ≡ n = omega arith in
    rw (digits_in-more fuel n out above) (
      c,
      rest,
      shape,
      number,
      read
          ∙ decimal_digits-cons (n / 10) (n % 10) out digit (omega arith)
          ∙ ap (λ k. decimal_digits k out) whole,
    )

digits_in-Written :
    (fuel n : ℕ) (out : Bytes)
    → n < 2 ^ 64
    → n < 10 ^ suc fuel
    → Number out
    → Written n out (digits_in (suc fuel) 10 n out)
digits_in-Written zero n out fits few h = digits_in-last_Written zero n out few h
digits_in-Written (suc fuel) n out fits few h = elim (Bool-cases (ltb n 10)) [
  | inl small ↦ digits_in-last_Written (suc fuel) n out (ltb→lt n 10 small) h
  | inr large ↦
      let above = ltb-false→le n 10 large in
      let few' : n < 10 ^ suc fuel * 10 = rw (sym (pow-suc 10 (suc fuel))) few in
      let digit : n % 10 < 10 = omega arith in
      let whole : n / 10 * 10 + n % 10 ≡ n = omega arith in
      digits_in-more_Written (suc fuel) n out above digit fits (
        digits_in-Written fuel (n / 10) ((b'0' + n % 10) ∷ out) (omega arith) (omega arith)
          (omega arith, omega arith, h))
]

decimal-Written : (n : ℕ) → n < 2 ^ 64 → Written n [] (decimal n)
unfolding decimal
decimal-Written n h = digits_in-Written 63 n [] h (omega arith) tt

u64_from_str-digits :
    (c : ℕ) (s : Bytes) → b'0' ≤ c → u64_from_str (c ∷ s) ≡ decimal_digits 0 (c ∷ s)
unfolding u64_from_str
u64_from_str-digits c [] h = refl
u64_from_str-digits c (d ∷ s) h = rw (ne→==-false c b'+' (λ e. omega arith)) refl

u64_from_str-decimal : (n : ℕ) → n < 2 ^ 64 → u64_from_str (decimal n) ≡ some n
unfolding Written decimal_digits
u64_from_str-decimal n h =
    let (c, rest, shape, number, read) = decimal-Written n h in
    ap u64_from_str shape
    ∙ u64_from_str-digits c rest ((subst Number shape number).0)
    ∙ ap (decimal_digits 0) (sym shape)
    ∙ read

parse_line-decimal :
    (text : Bytes) (n : ℕ)
    → n < 2 ^ 64
    → parse_line (text ++ b' ' ∷ decimal n)
      ≡ some (record { stack = reversed (map symbol_of (split_frames text)) []; cycles = n })
unfolding parse_line Written
parse_line-decimal text n h =
    let (c, rest, shape, number, read) = decimal-Written n h in
    rw (rfind_space-Number text (decimal n) number, u64_from_str-decimal n h, parse_line) refl

-- Without a semicolon.
abbrev pub NoSemicolon : Bytes → Type 0
NoSemicolon [] = Unit
NoSemicolon (b ∷ s) = (b ≢ b';') × NoSemicolon s

abbrev pub AllNoSemicolon : List Bytes → Type 0
AllNoSemicolon [] = Unit
AllNoSemicolon (s ∷ parts) = NoSemicolon s × AllNoSemicolon parts

-- The frames of a line, as the profiler writes them: a semicolon and a space between two of them.
abbrev pub joined : Bytes → List Bytes → Bytes
joined part [] = part
joined part (next ∷ parts) = part ++ b';' ∷ b' ' ∷ joined next parts

split_frames-cons :
    (b c : ℕ) (s : Bytes) → b ≢ b';' → split_frames (b ∷ c ∷ s) ≡ in_first b (split_frames (c ∷ s))
unfolding split_frames
split_frames-cons b c s h = rw (ne→==-false b b';' h) refl

split_frames-last : (s : Bytes) → NoSemicolon s → split_frames s ≡ s ∷ []
unfolding split_frames
split_frames-last [] h = refl
split_frames-last (b ∷ []) h = refl
split_frames-last (b ∷ c ∷ s) (h, hs) =
    split_frames-cons b c s h ∙ ap (in_first b) (split_frames-last (c ∷ s) hs)

split_frames-part :
    (s rest : Bytes)
    → NoSemicolon s
    → split_frames (s ++ b';' ∷ b' ' ∷ rest) ≡ s ∷ split_frames rest
unfolding split_frames
split_frames-part [] rest h = refl
split_frames-part (b ∷ []) rest (h, hs) =
    split_frames-cons b b';' (b' ' ∷ rest) h ∙ ap (in_first b) (split_frames-part [] rest tt)
split_frames-part (b ∷ c ∷ s) rest (h, hs) =
    split_frames-cons b c (s ++ b';' ∷ b' ' ∷ rest) h
    ∙ ap (in_first b) (split_frames-part (c ∷ s) rest hs)

split_frames-joined :
    (part : Bytes) (parts : List Bytes)
    → AllNoSemicolon (part ∷ parts)
    → split_frames (joined part parts) ≡ part ∷ parts
split_frames-joined part [] (h, hs) = split_frames-last part h
split_frames-joined part (next ∷ parts) (h, hs) =
    split_frames-part part (joined next parts) h
    ∙ ap (λ l. part ∷ l) (split_frames-joined next parts hs)

-- A line of frames without a semicolon, with a semicolon and a space between two of them, a space,
-- and a number of 64 bits in decimal digits, is read as the symbols of the frames, the last one
-- first, with the number, whatever spaces the frames have.
pub parse_line-joined :
    (part : Bytes) (parts : List Bytes) (n : ℕ)
    → AllNoSemicolon (part ∷ parts)
    → n < 2 ^ 64
    → parse_line (joined part parts ++ b' ' ∷ decimal n)
      ≡ some (record { stack = reversed (map symbol_of (part ∷ parts)) []; cycles = n })
parse_line-joined part parts n h small =
    parse_line-decimal (joined part parts) n small
    ∙ ap (λ l. some (record { stack = reversed (map symbol_of l) []; cycles = n }))
        (split_frames-joined part parts h)
