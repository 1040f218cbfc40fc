-- ===== src/Protocol/Parser/Packets/Scan.antt =====
-- What the frame's parser reads, byte by byte.
use ckb_standalone_debugger.Prelude.{
  ℕ, ◌==◌, ==_iff, unwrap_or, ◌≡◌, refl, Bool, false, Option, none, some, [], ◌∷◌, Bytes, arith,
  if◌then◌else◌, Bool-cases, inl, inr, ◌⊎◌,
}
use ckb_standalone_debugger.Prelude.Format.{codes}
use ckb_standalone_debugger.Protocol.Types.{Packet, ack, nack, interrupt, packet_data}
use ckb_standalone_debugger.Protocol.Nom.{IResult, done, incomplete, error, panicked, Nom}
use ckb_standalone_debugger.Protocol.Nom.Documented.{
  NomLaws, span, is_other, and_then, map_result, or_else, settle,
}
use ckb_standalone_debugger.Protocol.Parser.Numbers.{from_utf8, from_str_radix}
use ckb_standalone_debugger.Protocol.Parser.Packets.{checksum, packet, packet_or_response}

-- The value of two digits.
abbrev pub sum_of : ℕ → ℕ → Option ℕ
sum_of a b = elim (from_utf8 (a ∷ b ∷ [])) [ some s ↦ from_str_radix 8 s | none ↦ none ]

abbrev pub digits_read : Bytes → IResult ℕ
digits_read [] = incomplete
digits_read (a ∷ []) = incomplete
digits_read (a ∷ b ∷ rest) = settle error rest (sum_of a b)

-- The two digits behind a number sign.
abbrev pub checked : Bytes → Bytes → IResult Packet
checked body [] = incomplete
checked body (mark ∷ rest) = map_result (λ chk. packet_data body chk) (digits_read rest)

-- The text of a packet goes up to the next number sign.
abbrev pub scan_body : Bytes → IResult Packet
scan_body i = checked (span (is_other (codes "#")) i).0 (span (is_other (codes "#")) i).1

abbrev pub scan : Bytes → IResult Packet
scan [] = incomplete
scan (b ∷ i) =
    if b'$' == b
    then scan_body i
    else if b'+' == b
    then done i ack
    else if b'-' == b
    then done i nack
    else if 3 == b
    then done i interrupt
    else error

abbrev is_text : ℕ → Bool
is_text = is_other (codes "#")

-- The scan of a text ends with the input, or before a number sign.
span_stop :
    (i : Bytes) → ((span is_text i).1 ≡ []) ⊎ ((rest : Bytes) × ((span is_text i).1 ≡ b'#' ∷ rest))
unfolding span
span_stop [] = inl refl
span_stop (b ∷ i) = elim (Bool-cases (b'#' == b)) [
  | inl e ↦ inr (i, ground (arith, ==_iff b'#' b))
  | inr e ↦ elim (span_stop i) [
    | inl q ↦ inl (ground arith)
    | inr (rest, q) ↦ inr (rest, ground arith)
  ]
]

map_result-map_result :
    {A B C : Type 0} (f : A → B) (g : B → C) (r : IResult A)
    → map_result g (map_result f r) ≡ map_result (λ a. g (f a)) r
map_result-map_result f g (done rest a) = refl
map_result-map_result f g incomplete = refl
map_result-map_result f g error = refl
map_result-map_result f g panicked = refl

module _ (n : Nom) (laws : NomLaws n) where
  open laws use {
    tag_lem, take_lem, is_not_lem, map_lem, map_res_lem, preceded_lem, separated_pair_lem, alt_nil,
    alt_cons, opt_lem,
  }

  two_digits :
      (f : Bytes → Option Bytes) (g : Bytes → Option ℕ) (a b : ℕ) (rest : Bytes)
      → n.map_res (n.map_res (n.take 2) f) g (a ∷ b ∷ rest)
        ≡ settle error rest (elim (f (a ∷ b ∷ [])) [ some s ↦ g s | none ↦ none ])
  two_digits f g a b rest =
      rw (map_res_lem, map_res_lem, take_lem)
        (elim (f (a ∷ b ∷ []))
          as (λ o.
            and_then (and_then (done rest (a ∷ b ∷ [])) (λ x r. settle error r o))
              (λ s r. settle error r (g s))
            ≡ settle error rest (elim o [ some s ↦ g s | none ↦ none ])) [
              | none ↦ refl
              | some s ↦ refl
            ])

  checksum_lem : (i : Bytes) → checksum n i ≡ digits_read i
  unfolding checksum
  checksum_lem [] = simp (map_res_lem, take_lem)
  checksum_lem (a ∷ []) = simp (map_res_lem, take_lem)
  checksum_lem (a ∷ b ∷ rest) = two_digits from_utf8 (from_str_radix 8) a b rest

  text_lem :
      (b : ℕ) (i : Bytes)
      → n.map (n.opt (n.is_not (codes "#"))) (λ o. unwrap_or o []) (b ∷ i)
        ≡ done (span is_text (b ∷ i)).1 (span is_text (b ∷ i)).0
  unfolding span
  text_lem b i = rw (map_lem, opt_lem, is_not_lem) (ground arith)

  packet_lem :
      (i : Bytes) → n.map (packet n) (λ (d, chk). packet_data d chk) (b'$' ∷ i) ≡ scan_body i
  unfolding packet
  packet_lem [] =
      simp (map_lem, preceded_lem, tag_lem, separated_pair_lem, opt_lem, is_not_lem)
        (unfold span in refl)
  packet_lem (b ∷ i) =
      rw (map_lem, preceded_lem, tag_lem, separated_pair_lem, text_lem b i)
        (elim (span_stop (b ∷ i)) [
          | inl e ↦ rw e (simp tag_lem)
          | inr (rest, e) ↦ rw (e, tag_lem, checksum_lem rest) (map_result-map_result _ _ _)
        ])

  no_packet :
      (b : ℕ) (i : Bytes)
      → (b'$' == b) ≡ false
      → n.map (packet n) (λ (d, chk). packet_data d chk) (b ∷ i) ≡ error
  unfolding packet
  no_packet b i e = rw (map_lem, preceded_lem, tag_lem, e) refl

  or_else_error : {A : Type 0} (r : IResult A) → or_else r error ≡ r
  or_else_error (done rest a) = refl
  or_else_error incomplete = refl
  or_else_error error = refl
  or_else_error panicked = refl

  signs :
      (b : ℕ) (i : Bytes)
      → n.alt
          (n.map (n.tag (codes "+")) (λ _. ack)
            ∷ n.map (n.tag (codes "-")) (λ _. nack)
            ∷ n.map (n.tag (3 ∷ [])) (λ _. interrupt)
            ∷ [])
          (b ∷ i)
        ≡ (if b'+' == b
            then done i ack
            else if b'-' == b
            then done i nack
            else if 3 == b
            then done i interrupt
            else error)
  signs b i = simp (alt_cons, alt_nil, map_lem, tag_lem) (ground arith)

  pub packet_or_response-scan : (i : Bytes) → packet_or_response n i ≡ scan i
  unfolding packet_or_response
  packet_or_response-scan [] = simp (alt_cons, map_lem, preceded_lem, tag_lem) refl
  packet_or_response-scan (b ∷ i) = elim (Bool-cases (b'$' == b)) [
    | inl e ↦
        rw (← (==_iff b'$' b).0 e) (rw (alt_cons, packet_lem i, signs b'$' i) (or_else_error _))
    | inr e ↦ rw (alt_cons, no_packet b i e, signs b i, e) refl
  ]
