-- ===== src/Protocol/Nom/Documented.antt =====
-- How nom documents the combinators that the theorems rely on. Each is given by what it makes of
-- the results of its parts.
use ckb_standalone_debugger.Prelude.{
  ℕ, zero, suc, ◌<◌, ◌==◌, ◌≡◌, ◌&&◌, ◌||◌, Bool, true, false, Option, none, some, List, [], ◌∷◌,
  Bytes, length, if◌then◌else◌, leb,
}
use ckb_standalone_debugger.Protocol.Nom.{IResult, done, incomplete, error, panicked, Parser, Nom}

-- What stands for a closure that gave nothing: an error, or a panic.
abbrev pub settle : {B : Type 0} → IResult B → Bytes → Option B → IResult B
settle failed rest none = failed
settle failed rest (some b) = done rest b

module _ {A B : Type 0} where
  abbrev pub and_then : IResult A → (A → Parser B) → IResult B
  and_then (done rest a) f = f a rest
  and_then incomplete f = incomplete
  and_then error f = error
  and_then panicked f = panicked

  abbrev pub map_result : (A → B) → IResult A → IResult B
  map_result f (done rest a) = done rest (f a)
  map_result f incomplete = incomplete
  map_result f error = error
  map_result f panicked = panicked

module _ {A : Type 0} where
  -- `alt!` goes on after an error, and after an error only.
  abbrev pub or_else : IResult A → IResult A → IResult A
  or_else (done rest a) next = done rest a
  or_else incomplete next = incomplete
  or_else error next = next
  or_else panicked next = panicked

  -- `complete!` makes an error of a lack of input.
  abbrev pub completed : IResult A → IResult A
  completed (done rest a) = done rest a
  completed incomplete = error
  completed error = error
  completed panicked = panicked

  -- `opt!`: an error reads nothing.
  abbrev pub optional : Bytes → IResult A → IResult (Option A)
  optional i (done rest a) = done rest (some a)
  optional i incomplete = incomplete
  optional i error = done i none
  optional i panicked = panicked

-- The rest of a tag against the input.
abbrev pub match_tag : Bytes → Bytes → Bytes → IResult Bytes
match_tag whole [] i = done i whole
match_tag whole (t ∷ ts) [] = incomplete
match_tag whole (t ∷ ts) (b ∷ i) = if t == b then match_tag whole ts i else error

abbrev pub push_front : ℕ → IResult Bytes → IResult Bytes
push_front b = map_result (λ bs. b ∷ bs)

abbrev pub take_bytes : ℕ → Bytes → IResult Bytes
take_bytes zero i = done i []
take_bytes (suc n) [] = incomplete
take_bytes (suc n) (b ∷ i) = push_front b (take_bytes n i)

-- The longest prefix of bytes that pass a test, all of the input if they all do.
unfoldable pub span : (ℕ → Bool) → Bytes → Bytes × Bytes
span test [] = ([], [])
span test (b ∷ i) =
    let (front, rest) = span test i in if test b then (b ∷ front, rest) else ([], b ∷ i)

-- At least one byte: none of the input lacks input, a first byte that fails is an error.
abbrev pub take_front : (ℕ → Bool) → Bytes → IResult Bytes
take_front test [] = incomplete
take_front test (b ∷ i) =
    let (front, rest) = span test i in if test b then done rest (b ∷ front) else error

abbrev pub contains : Bytes → ℕ → Bool
contains [] b = false
contains (c ∷ cs) b = (c == b) || contains cs b

abbrev pub is_other : Bytes → ℕ → Bool
is_other cs b = if contains cs b then false else true

abbrev pub pick : Bytes → Bytes → IResult ℕ
pick cs [] = incomplete
pick cs (b ∷ i) = if contains cs b then done i b else error

abbrev pub hex_digit_test : ℕ → Bool
hex_digit_test b =
    (leb b'0' b && leb b b'9') || ((leb b'A' b && leb b b'F') || (leb b'a' b && leb b b'f'))

-- A parser read these values one after the other, each from some of the input; then there is no
-- input left, or it fails with an error.
pub data Repeats {A : Type 0} (p : Parser A) : Bytes → List A → Bytes → Type 0 where
  ended : Repeats p [] [] []
  refused : {i : Bytes} → p i ≡ error → Repeats p i [] i
  again :
      {i rest out : Bytes} {a : A} {values : List A}
      → p i ≡ done rest a
      → length rest < length i
      → Repeats p rest values out
      → Repeats p i (a ∷ values) out

pub record NomLaws (n : Nom) : Type 1 where
  pub tag_lem : (t i : Bytes) → n.tag t i ≡ match_tag t t i
  pub take_lem : (k : ℕ) (i : Bytes) → n.take k i ≡ take_bytes k i
  pub is_not_lem : (cs i : Bytes) → n.is_not cs i ≡ take_front (is_other cs) i
  pub is_hex_digit_lem : (b : ℕ) → n.is_hex_digit b ≡ hex_digit_test b
  pub take_while1_lem : (test : ℕ → Bool) (i : Bytes) → n.take_while1 test i ≡ take_front test i
  pub one_of_lem : (cs i : Bytes) → n.one_of cs i ≡ pick cs i
  pub map_lem :
      {A B : Type 0} (p : Parser A) (f : A → B) (i : Bytes) → n.map p f i ≡ map_result f (p i)
  pub map_unwrap_lem :
      {A B : Type 0} (p : Parser A) (f : A → Option B) (i : Bytes)
      → n.map_unwrap p f i ≡ and_then (p i) (λ a rest. settle panicked rest (f a))
  pub map_res_lem :
      {A B : Type 0} (p : Parser A) (f : A → Option B) (i : Bytes)
      → n.map_res p f i ≡ and_then (p i) (λ a rest. settle error rest (f a))
  pub then_parse_lem :
      {A B : Type 0} (p : Parser A) (f : A → Parser B) (i : Bytes)
      → n.then_parse p f i ≡ and_then (p i) f
  pub preceded_lem :
      {A B : Type 0} (p : Parser A) (q : Parser B) (i : Bytes)
      → n.preceded p q i ≡ and_then (p i) (λ _. q)
  pub separated_pair_lem :
      {A B C : Type 0} (p : Parser A) (q : Parser B) (r : Parser C) (i : Bytes)
      → n.separated_pair p q r i
        ≡ and_then
            (p i)
            (λ a rest. and_then (q rest) (λ _ rest'. map_result (λ c. (a, c)) (r rest')))
  pub alt_nil : {A : Type 0} (i : Bytes) → n.alt {A = A} [] i ≡ error
  pub alt_cons :
      {A : Type 0} (p : Parser A) (ps : List (Parser A)) (i : Bytes)
      → n.alt (p ∷ ps) i ≡ or_else (p i) (n.alt ps i)
  pub alt_complete_nil : {A : Type 0} (i : Bytes) → n.alt_complete {A = A} [] i ≡ error
  pub alt_complete_cons :
      {A : Type 0} (p : Parser A) (ps : List (Parser A)) (i : Bytes)
      → n.alt_complete (p ∷ ps) i ≡ or_else (completed (p i)) (n.alt_complete ps i)
  pub opt_lem : {A : Type 0} (p : Parser A) (i : Bytes) → n.opt p i ≡ optional i (p i)
  pub complete_lem : {A : Type 0} (p : Parser A) (i : Bytes) → n.complete p i ≡ completed (p i)
  pub many1_Repeats :
      {A : Type 0} (p : Parser A) (i rest out : Bytes) (a : A) (values : List A)
      → p i ≡ done rest a
      → Repeats p rest values out
      → n.many1 p i ≡ done out (a ∷ values)
  pub many0_Repeats :
      {A : Type 0} (p : Parser A) (i out : Bytes) (values : List A)
      → Repeats p i values out
      → n.many0 p i ≡ done out values
