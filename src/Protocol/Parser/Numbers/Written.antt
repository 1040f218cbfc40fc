-- ===== src/Protocol/Parser/Numbers/Written.antt =====
-- The parser of numbers reads what `{:x}` writes.
use ckb_standalone_debugger.Prelude.{
  ℕ, zero, suc, ◌+◌, ◌*◌, ◌/◌, ◌%◌, ◌^◌, ◌<◌, ◌≤◌, ◌==◌, ◌≡◌, ◌≢◌, refl, sym, ap, subst, ◌∙◌, true,
  false, none, some, List, [], ◌∷◌, ◌++◌, Bytes, arith, append_assoc, append-nil, map, Option, ltb,
  Bool-cases, inl, inr, lt→ltb, map-append, ltb→lt,
}
use ckb_standalone_debugger.Prelude.Format.{digit_char, digits_in, hex}
use ckb_standalone_debugger.Protocol.Nom.{Parser, Nom, done, panicked}
use ckb_standalone_debugger.Protocol.Nom.Documented.{NomLaws, span, hex_digit_test}
use ckb_standalone_debugger.Protocol.Parser.Numbers.{
  to_digit, radix_digits, from_str_radix, hex_value,
}

abbrev Digits : List ℕ → Type 0
Digits [] = Unit
Digits (d ∷ ds) = (d < 16) × Digits ds

abbrev value_from : ℕ → List ℕ → ℕ
value_from acc [] = acc
value_from acc (d ∷ ds) = value_from (acc * 16 + d) ds

abbrev pow16 : ℕ → ℕ
pow16 zero = 1
pow16 (suc f) = 16 * pow16 f

Digits-append : (ds : List ℕ) (d : ℕ) → Digits ds → d < 16 → Digits (ds ++ d ∷ [])
Digits-append [] d all h = (h, tt)
Digits-append (e ∷ ds) d all h = (all.0, Digits-append ds d all.1 h)

value_from-append :
    (acc : ℕ) (ds : List ℕ) (d : ℕ) → value_from acc (ds ++ d ∷ []) ≡ value_from acc ds * 16 + d
value_from-append acc [] d = refl
value_from-append acc (e ∷ ds) d = value_from-append (acc * 16 + e) ds d

le-value_from : (acc : ℕ) (ds : List ℕ) → acc ≤ value_from acc ds
le-value_from acc [] = omega arith
le-value_from acc (d ∷ ds) = omega (arith, le-value_from (acc * 16 + d) ds)

digit_char-ne-mark : (d : ℕ) → d < 16 → digit_char d ≢ b'#'
unfolding digit_char
digit_char-ne-mark d h = ground arith

-- No byte of a text is a number sign.
abbrev pub Plain : Bytes → Type 0
Plain [] = Unit
Plain (b ∷ body) = (b ≢ b'#') × Plain body

-- The digits that are written in front of `out`.
record Written (n : ℕ) (out written : Bytes) : Type 0 where
  first : ℕ
  more : List ℕ
  are_digits : Digits (first ∷ more)
  value_is : value_from 0 (first ∷ more) ≡ n
  text_is : written ≡ map digit_char (first ∷ more) ++ out

digits_in_small :
    (f n : ℕ) (out : Bytes) → ltb n 16 ≡ true → digits_in (suc f) 16 n out ≡ digit_char n ∷ out
unfolding digits_in
digits_in_small f n out e = rw (e, digits_in) refl

digits_in_large :
    (f n : ℕ) (out : Bytes)
    → ltb n 16 ≡ false
    → digits_in (suc f) 16 n out ≡ digits_in f 16 (n / 16) (digit_char (n % 16) ∷ out)
unfolding digits_in
digits_in_large f n out e = rw (e, digits_in) refl

-- One digit more at the end.
Written-more :
    {n : ℕ} {out written : Bytes}
    → Written (n / 16) (digit_char (n % 16) ∷ out) written
    → Written n out written
Written-more {n} {out} w = record {
  first = w.first;
  more = w.more ++ (n % 16) ∷ [];
  are_digits = Digits-append (w.first ∷ w.more) (n % 16) w.are_digits (omega arith);
  value_is = value_from-append 0 (w.first ∷ w.more) (n % 16) ∙ omega (arith, w.value_is);
  text_is =
      w.text_is
      ∙ sym (
          ap (λ l. l ++ out) (map-append digit_char (w.first ∷ w.more) (n % 16 ∷ []))
          ∙ append_assoc (map digit_char (w.first ∷ w.more)) (digit_char (n % 16) ∷ []) out);
}

Written-one : (n : ℕ) (out : Bytes) → n < 16 → Written n out (digit_char n ∷ out)
Written-one n out h = record {
  first = n;
  more = [];
  are_digits = (h, tt);
  value_is = omega arith;
  text_is = refl;
}

digits_in-Written :
    (f n : ℕ) (out : Bytes) → n < pow16 (suc f) → Written n out (digits_in (suc f) 16 n out)
digits_in-Written zero n out h =
    rw (digits_in_small 0 n out (lt→ltb n 16 (omega arith))) (Written-one n out (omega arith))
digits_in-Written (suc f) n out h = elim (Bool-cases (ltb n 16)) [
  | inl small ↦ rw (digits_in_small (suc f) n out small) (Written-one n out (ltb→lt n 16 small))
  | inr large ↦
      rw (digits_in_large (suc f) n out large)
        (Written-more (digits_in-Written f (n / 16) (digit_char (n % 16) ∷ out) (omega arith)))
]

long-Written : (n : ℕ) → n < 16 ^ 64 → Written n [] (hex n)
unfolding hex
long-Written n h = digits_in-Written 63 n [] (omega arith)

-- No digit is a number sign.
Plain-Digits : (ds : List ℕ) → Digits ds → Plain (map digit_char ds)
Plain-Digits [] all = tt
Plain-Digits (d ∷ ds) all = (digit_char-ne-mark d all.0, Plain-Digits ds all.1)

pub hex-Plain : (n : ℕ) → n < 16 ^ 64 → Plain (hex n)
hex-Plain n h =
    let w = long-Written n h in
    subst Plain (sym (w.text_is ∙ append-nil (map digit_char (w.first ∷ w.more))))
      (Plain-Digits (w.first ∷ w.more) w.are_digits)

hex-Written : (n : ℕ) → n < 2 ^ 64 → Written n [] (hex n)
unfolding hex
hex-Written n h = digits_in-Written 63 n [] (omega arith)

pub to_digit-digit_char : (d : ℕ) → d < 16 → to_digit (digit_char d) ≡ some d
unfolding to_digit digit_char
to_digit-digit_char d h = ground arith

digit_char_hex : (d : ℕ) → d < 16 → hex_digit_test (digit_char d) ≡ true
unfolding digit_char
digit_char_hex d h = ground arith

digit_char-ne-plus : (d : ℕ) → d < 16 → (digit_char d == b'+') ≡ false
unfolding digit_char
digit_char-ne-plus d h = ground arith

radix_digits-Digits :
    (width acc : ℕ) (ds : List ℕ)
    → Digits ds
    → value_from acc ds < 2 ^ width
    → radix_digits width acc (map digit_char ds) ≡ some (value_from acc ds)
unfolding radix_digits
radix_digits-Digits width acc [] all h = refl
radix_digits-Digits width acc (d ∷ ds) all h =
    let step : ltb (acc * 16 + d) (2 ^ width) ≡ true =
      lt→ltb _ _ (omega (arith, le-value_from (acc * 16 + d) ds)) in
    rw (to_digit-digit_char d all.0, radix_digits, step)
      (radix_digits-Digits width (acc * 16 + d) ds all.1 h)

from_str_radix-Digits :
    (width d : ℕ) (ds : List ℕ)
    → Digits (d ∷ ds)
    → value_from 0 (d ∷ ds) < 2 ^ width
    → from_str_radix width (map digit_char (d ∷ ds)) ≡ some (value_from 0 (d ∷ ds))
unfolding from_str_radix
from_str_radix-Digits width d [] all h = radix_digits-Digits width 0 (d ∷ []) all h
from_str_radix-Digits width d (e ∷ ds) all h =
    rw (digit_char-ne-plus d all.0) (radix_digits-Digits width 0 (d ∷ e ∷ ds) all h)

radix_digits_overflow :
    (width acc : ℕ) (ds : List ℕ)
    → Digits ds
    → acc < 2 ^ width
    → 2 ^ width ≤ value_from acc ds
    → radix_digits width acc (map digit_char ds) ≡ none
unfolding radix_digits
radix_digits_overflow width acc [] all small h = absurd (omega arith)
radix_digits_overflow width acc (d ∷ ds) all small h =
    elim (Bool-cases (ltb (acc * 16 + d) (2 ^ width))) [
      | inl less ↦
          rw (to_digit-digit_char d all.0, radix_digits, less)
            (radix_digits_overflow width (acc * 16 + d) ds all.1 (ltb→lt _ _ less) h)
      | inr more ↦ rw (to_digit-digit_char d all.0, radix_digits, more) refl
    ]

from_str_radix_overflow :
    (width d : ℕ) (ds : List ℕ)
    → Digits (d ∷ ds)
    → 0 < 2 ^ width
    → 2 ^ width ≤ value_from 0 (d ∷ ds)
    → from_str_radix width (map digit_char (d ∷ ds)) ≡ none
unfolding from_str_radix
from_str_radix_overflow width d [] all some_ h = radix_digits_overflow width 0 (d ∷ []) all some_ h
from_str_radix_overflow width d (e ∷ ds) all some_ h =
    rw (digit_char-ne-plus d all.0) (radix_digits_overflow width 0 (d ∷ e ∷ ds) all some_ h)

-- The input ends, or goes on with a byte that is no digit.
abbrev pub Stops : Bytes → Type 0
Stops [] = Unit
Stops (b ∷ rest) = hex_digit_test b ≡ false

module _ (n : Nom) (laws : NomLaws n) where
  span-Digits :
      (ds : List ℕ) (rest : Bytes)
      → Digits ds
      → Stops rest
      → span n.is_hex_digit (map digit_char ds ++ rest) ≡ (map digit_char ds, rest)
  unfolding span
  span-Digits [] [] all stop = refl
  span-Digits [] (b ∷ rest) all stop = rw (laws.is_hex_digit_lem b, stop) refl
  span-Digits (d ∷ ds) rest all stop =
      rw
        (
          laws.is_hex_digit_lem (digit_char d),
          digit_char_hex d all.0,
          span-Digits ds rest all.1 stop,
        )
        refl

  take_while1-Digits :
      (d : ℕ) (ds : List ℕ) (rest : Bytes)
      → Digits (d ∷ ds)
      → Stops rest
      → n.take_while1 n.is_hex_digit (map digit_char (d ∷ ds) ++ rest)
        ≡ done rest (map digit_char (d ∷ ds))
  take_while1-Digits d ds rest all stop =
      rw
        (
          laws.take_while1_lem,
          laws.is_hex_digit_lem (digit_char d),
          digit_char_hex d all.0,
          span-Digits ds rest all.1 stop,
        )
        refl

  map_unwrap_done :
      {A B : Type 0} (p : Parser A) (f : A → Option B) {i rest : Bytes} {a : A} {b : B}
      → p i ≡ done rest a
      → f a ≡ some b
      → n.map_unwrap p f i ≡ done rest b
  map_unwrap_done p f e e' = rw (laws.map_unwrap_lem, e, e') refl

  -- A number of 64 bits that is written in hexadecimal digits is read back, up to the first byte
  -- behind it that is no such digit.
  pub hex_value-hex :
      (v : ℕ) (rest : Bytes) → v < 2 ^ 64 → Stops rest → hex_value n (hex v ++ rest) ≡ done rest v
  unfolding hex_value
  hex_value-hex v rest h stop =
      let w = hex-Written v h in
      ap (λ l. hex_value n (l ++ rest)) (w.text_is ∙ append-nil (map digit_char (w.first ∷ w.more)))
      ∙ map_unwrap_done (n.take_while1 n.is_hex_digit) (from_str_radix 64)
          (take_while1-Digits w.first w.more rest w.are_digits stop)
          (from_str_radix-Digits 64 w.first w.more w.are_digits (omega (arith, w.value_is)))
      ∙ ap (done rest) w.value_is

  map_unwrap_panicked :
      {A B : Type 0} (p : Parser A) (f : A → Option B) {i rest : Bytes} {a : A}
      → p i ≡ done rest a
      → f a ≡ none
      → n.map_unwrap p f i ≡ panicked
  map_unwrap_panicked p f e e' = rw (laws.map_unwrap_lem, e, e') refl

  -- A number that takes more than 64 bits is a panic. The model prints 64 digits at most.
  pub hex_value-hex_panics :
      (v : ℕ) (rest : Bytes)
      → 2 ^ 64 ≤ v
      → v < 16 ^ 64
      → Stops rest
      → hex_value n (hex v ++ rest) ≡ panicked
  unfolding hex_value
  hex_value-hex_panics v rest h small stop =
      let w = long-Written v small in
      ap (λ l. hex_value n (l ++ rest)) (w.text_is ∙ append-nil (map digit_char (w.first ∷ w.more)))
      ∙ map_unwrap_panicked (n.take_while1 n.is_hex_digit) (from_str_radix 64)
          (take_while1-Digits w.first w.more rest w.are_digits stop)
          (from_str_radix_overflow 64 w.first w.more w.are_digits (omega arith)
            (omega (arith, w.value_is)))

  pub hex_value-hex_end : (v : ℕ) → v < 2 ^ 64 → hex_value n (hex v) ≡ done [] v
  hex_value-hex_end v h = ap (hex_value n) (sym (append-nil (hex v))) ∙ hex_value-hex v [] h tt
