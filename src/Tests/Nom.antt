-- ===== src/Tests/Nom.antt =====
-- Combinators that meet what the theorems assume of nom.
use ckb_standalone_debugger.Prelude.{
  ℕ, zero, suc, ◌≤◌, ◌≡◌, refl, true, false, List, [], ◌∷◌, Bytes, length, arith, if◌then◌else◌,
  unwrap_or,
}
use ckb_standalone_debugger.Protocol.Nom.{IResult, done, incomplete, error, panicked, Parser, Nom}
use ckb_standalone_debugger.Protocol.Nom.Documented.{
  and_then, map_result, settle, or_else, completed, optional, match_tag, push_front, take_bytes,
  span, take_front, is_other, pick, hex_digit_test, Repeats, ended, refused, again, NomLaws,
}

-- The values that a parser reads until it fails, with fuel for their number.
unfoldable pub collect : {A : Type 0} → ℕ → Parser A → Bytes → IResult (List A)
collect zero p i = done i []
collect (suc fuel) p [] = done [] []
collect (suc fuel) p (b ∷ i) = elim (p (b ∷ i)) [
  | done rest a ↦ map_result (λ values. a ∷ values) (collect fuel p rest)
  | incomplete ↦ incomplete
  | error ↦ done (b ∷ i) []
  | panicked ↦ panicked
]

collect-Repeats :
    {A : Type 0} (p : Parser A) (i : Bytes) {out : Bytes} {values : List A} (fuel : ℕ)
    → length i ≤ fuel
    → Repeats p i values out
    → collect fuel p i ≡ done out values
unfolding collect
collect-Repeats p [] zero h ended = refl
collect-Repeats p [] (suc fuel) h ended = refl
collect-Repeats p [] zero h (refused e) = refl
collect-Repeats p [] (suc fuel) h (refused e) = refl
collect-Repeats p (b ∷ i) zero h r = absurd (omega arith)
collect-Repeats p (b ∷ i) (suc fuel) h (refused e) = rw (e, collect) refl
collect-Repeats p [] fuel h (again e shorter r) = absurd (omega arith)
collect-Repeats p (b ∷ i) (suc fuel) h (again {rest} e shorter r) =
    rw (e, collect, collect-Repeats p rest fuel (omega arith) r) refl

abbrev many : {A : Type 0} → Parser A → Parser (List A)
many p i = collect (length i) p i

abbrev many_more : {A : Type 0} → Parser A → Parser (List A)
many_more p i = and_then (p i) (λ a rest. map_result (λ values. a ∷ values) (many p rest))

abbrev choose : {A : Type 0} → List (Parser A) → Parser A
choose [] i = error
choose (p ∷ ps) i = or_else (p i) (choose ps i)

abbrev choose_complete : {A : Type 0} → List (Parser A) → Parser A
choose_complete [] i = error
choose_complete (p ∷ ps) i = or_else (completed (p i)) (choose_complete ps i)

abbrev separated : {A B : Type 0} → Parser A → Parser B → Parser (List B)
separated sep p i =
    and_then (p i)
      (λ b rest. map_result (λ values. b ∷ values) (many (λ j. and_then (sep j) (λ _ k. p k)) rest))

abbrev until_tag : Bytes → Parser Bytes
until_tag t [] = incomplete
until_tag t (b ∷ i) = elim (match_tag t t (b ∷ i)) [
  | done rest a ↦ done (b ∷ i) []
  | _ ↦ push_front b (until_tag t i)
]

abbrev at_end : Parser Bytes
at_end [] = done [] []
at_end (b ∷ i) = error

abbrev pub toy_nom : Nom
toy_nom = record {
  tag = λ t i. match_tag t t i;
  take = take_bytes;
  is_not = λ cs i. take_front (is_other cs) i;
  is_hex_digit = hex_digit_test;
  take_while1 = take_front;
  take_till =
      λ test i. let (front, rest) = span (λ b. if test b then false else true) i in done rest front;
  take_until = until_tag;
  one_of = pick;
  eof = at_end;
  map = λ p f i. map_result f (p i);
  map_unwrap = λ p f i. and_then (p i) (λ a rest. settle panicked rest (f a));
  map_res = λ p f i. and_then (p i) (λ a rest. settle error rest (f a));
  flat_map = λ p q i. and_then (p i) (λ a rest. and_then (q a) (λ b _. done rest b));
  then_parse = λ p f i. and_then (p i) f;
  preceded = λ p q i. and_then (p i) (λ _. q);
  separated_pair = λ p q r i.
      and_then (p i) (λ a rest. and_then (q rest) (λ _ rest'. map_result (λ c. (a, c)) (r rest')));
  alt = choose;
  alt_complete = choose_complete;
  opt = λ p i. optional i (p i);
  complete = λ p i. completed (p i);
  many0 = many;
  many1 = many_more;
  separated_list_complete =
      λ sep p i. map_result (λ o. unwrap_or o []) (optional i (separated sep p i));
  separated_nonempty_list_complete = separated;
}

pub toy_nom_laws : NomLaws toy_nom
toy_nom_laws = record {
  tag_lem = λ t i. refl;
  take_lem = λ k i. refl;
  is_not_lem = λ cs i. refl;
  is_hex_digit_lem = λ b. refl;
  take_while1_lem = λ test i. refl;
  one_of_lem = λ cs i. refl;
  map_lem = λ p f i. refl;
  map_unwrap_lem = λ p f i. refl;
  map_res_lem = λ p f i. refl;
  then_parse_lem = λ p f i. refl;
  preceded_lem = λ p q i. refl;
  separated_pair_lem = λ p q r i. refl;
  alt_nil = λ i. refl;
  alt_cons = λ p ps i. refl;
  alt_complete_nil = λ i. refl;
  alt_complete_cons = λ p ps i. refl;
  opt_lem = λ p i. refl;
  complete_lem = λ p i. refl;
  many1_Repeats = λ p i rest out a values e r.
      rw (e, collect-Repeats p rest (length rest) (omega arith) r) refl;
  many0_Repeats = λ p i out values r. collect-Repeats p i (length i) (omega arith) r;
}
