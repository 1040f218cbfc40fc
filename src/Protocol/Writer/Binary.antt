-- ===== src/Protocol/Writer/Binary.antt =====
-- What `write_binary_data` writes, byte by byte, and how a reader gets the data back.
use ckb_standalone_debugger.Prelude.{
  unwrap_or, ℕ, zero, suc, ◌+◌, ◌%◌, ◌<◌, min, ◌==◌, ◌||◌, ◌≡◌, refl, ◌∙◌, ap, sym, subst, Bool,
  true, false, some, [], ◌∷◌, ◌++◌, append-nil, append_assoc, Bytes, length, take, drop,
  if◌then◌else◌, arith, Bool-cases, inl, inr, ◌⊎◌, Option-cases, some-injective,
}
use ckb_standalone_debugger.Protocol.Writer.{
  compute_checksum_incremental, PacketWriter, write, flip, Memchr, MemchrLaws, first, unescaped,
  write_remaining, write_binary_data, packet_writer,
}

-- The bytes that must not go out as they are: `#`, `$`, `}` and `*`.
unfoldable pub special : ℕ → Bool
special b = ((b == b'#') || ((b == b'$') || (b == b'}'))) || (b == b'*')

-- The encoding of the protocol: `}` and the flipped byte for each of these.
unfoldable pub escape : Bytes → Bytes
unfolding special flip
escape [] = []
escape (b ∷ bs) = let rest = escape bs in if special b then b'}' ∷ flip b ∷ rest else b ∷ rest

-- A reader: the state says whether the byte before was a `}`.
unfoldable pub unescape : Bool → Bytes → Bytes
unfolding flip
unescape after [] = []
unescape true (b ∷ bs) = flip b ∷ unescape false bs
unescape false (b ∷ bs) =
    let escaped = unescape true bs in
    let rest = unescape false bs in if b == b'}' then escaped else b ∷ rest

flip-flip : (b : ℕ) → flip (flip b) ≡ b
unfolding flip
flip-flip b = ground arith

special-flip : (b : ℕ) → special b ≡ true → special (flip b) ≡ false
unfolding special flip
special-flip b h = ground arith

special_brace : (b : ℕ) → special b ≡ false → (b == b'}') ≡ false
unfolding special
special_brace b h = ground arith

-- A reader of the encoded data gets the data.
pub unescape-escape : (bs : Bytes) → unescape false (escape bs) ≡ bs
unfolding escape unescape
unescape-escape [] = refl
unescape-escape (b ∷ bs) = elim (Bool-cases (special b)) [
  | inl s ↦ rw (s, flip-flip b) (ap (λ l. b ∷ l) (unescape-escape bs))
  | inr s ↦ rw (s, special_brace b s) (ap (λ l. b ∷ l) (unescape-escape bs))
]

-- How many bytes at the front fail a test.
unfoldable span : (ℕ → Bool) → Bytes → ℕ
span test [] = 0
span test (b ∷ bs) = let rest = span test bs in if test b then 0 else suc rest

first-span : (test : ℕ → Bool) (bs : Bytes) → unwrap_or (first test bs) (length bs) ≡ span test bs
unfolding first span
first-span test [] = refl
first-span test (b ∷ bs) =
    let rest = first-span test bs in
    elim (Bool-cases (test b)) [
      | inl hit ↦ rw hit
      | inr miss ↦ elim (Option-cases (first test bs)) [
        | inl e ↦ rw (miss, e) (ap suc (rw e at rest))
        | inr (i, e) ↦ rw (miss, e) (ap suc (rw e at rest))
      ]
    ]

min-span : (p q : ℕ → Bool) (bs : Bytes) → min (span p bs) (span q bs) ≡ span (λ b. p b || q b) bs
unfolding span
min-span p q [] = refl
min-span p q (b ∷ bs) = elim (Bool-cases (p b)) [
  | inl h ↦ rw h (omega arith)
  | inr h ↦ elim (Bool-cases (q b)) [
    | inl k ↦ rw (h, k) (omega arith)
    | inr k ↦ rw (h, k) (omega (arith, min-span p q bs))
  ]
]

take-escape :
    (bs : Bytes) → take (span special bs) bs ++ escape (drop (span special bs) bs) ≡ escape bs
unfolding span escape
take-escape [] = refl
take-escape (b ∷ bs) = elim (Bool-cases (special b)) [
  | inl s ↦ rw s (rw s)
  | inr s ↦ rw s (ap (λ l. b ∷ l) (take-escape bs))
]

-- The byte after them is special.
drop-special :
    (bs : Bytes) {b : ℕ} {rest : Bytes}
    → drop (span special bs) bs ≡ b ∷ rest
    → (special b ≡ true) × (length rest < length bs)
unfolding span
drop-special [] e = cc
drop-special (c ∷ bs) {b} {rest} e = elim (Bool-cases (special c)) [
  | inl s ↦
      let h = rw s at e in
      (ap (λ (l : Bytes). special (head l)) (sym h) ∙ s, omega (arith, ap length h))
  | inr s ↦ let (t, l) = drop-special bs (rw s at e) in (t, omega arith)
]
  where
    head : Bytes → ℕ
    head [] = 0
    head (x ∷ xs) = x

List-cases : (xs : Bytes) → (xs ≡ []) ⊎ ((b : ℕ) × (rest : Bytes) × (xs ≡ b ∷ rest))
List-cases [] = inl refl
List-cases (b ∷ rest) = inr (b, rest, refl)

compute_checksum-append :
    (a b : Bytes) (init : ℕ)
    → compute_checksum_incremental (a ++ b) init
      ≡ compute_checksum_incremental b (compute_checksum_incremental a init)
unfolding compute_checksum_incremental
compute_checksum-append [] b init = refl
compute_checksum-append (x ∷ a) b init = compute_checksum-append a b ((init + x) % 256)

pub write-write : (a b : Bytes) (w : PacketWriter) → write b (write a w) ≡ write (a ++ b) w
unfolding write
write-write a b w = rw (append_assoc, compute_checksum-append a b w.checksum)

module _ (m : Memchr) (laws : MemchrLaws m) where
  unescaped-span : (bs : Bytes) → unescaped m bs ≡ span special bs
  unfolding special
  unescaped-span bs =
      rw
        (
          laws.memchr-first,
          laws.memchr3-first,
          first-span (λ x. (x == b'#') || ((x == b'$') || (x == b'}'))) bs,
          first-span (λ b. b == b'*') bs,
        )
        (min-span (λ x. (x == b'#') || ((x == b'$') || (x == b'}'))) (λ b. b == b'*') bs)

  write_remaining_lem :
      (fuel : ℕ) (bs : Bytes) (w : PacketWriter)
      → length bs < fuel
      → write_remaining m fuel bs w ≡ some (write (escape bs) w)
  unfolding write_remaining escape
  write_remaining_lem zero bs w h = absurd (omega arith)
  write_remaining_lem (suc fuel) bs w h =
      let k = unescaped m bs in
      let at_k = sym (unescaped-span bs) in
      let split : take k bs ++ escape (drop k bs) ≡ escape bs =
        subst (λ i. take i bs ++ escape (drop i bs) ≡ escape bs) at_k (take-escape bs) in
      elim (List-cases (drop k bs)) [
        | inl e ↦
            rw (e, write_remaining)
              (ap (λ l. some (write l w)) (sym (append-nil _) ∙ (rw e at split)))
        | inr (b, rest, e) ↦
            let (s, shorter) =
              drop-special bs (subst (λ i. drop i bs ≡ b ∷ rest) (unescaped-span bs) e) in
            rw (e, write_remaining)
              (write_remaining_lem fuel rest _ (omega arith)
                ∙ (rw (write-write, write-write)
                    (ap (λ l. some (write l w)) (rw (e, escape, s) at split))))
      ]

  -- `write_binary_data` never runs out of fuel, and writes the encoding of the data.
  pub write_binary_data-escape :
      (data_ : Bytes) (w : PacketWriter)
      → write_binary_data m data_ w ≡ some (write (escape data_) w)
  unfolding write_binary_data
  write_binary_data-escape data_ w = write_remaining_lem (suc (length data_)) data_ w (omega arith)

  -- What `write_binary_data` writes into an empty packet, a reader of the encoding reads as the data.
  pub write_binary_data-unescape :
      (data_ : Bytes) {w : PacketWriter}
      → write_binary_data m data_ (packet_writer []) ≡ some w
      → unescape false w.sent ≡ data_
  unfolding packet_writer write
  write_binary_data-unescape data_ e =
      let written =
        some-injective _ _ (sym (write_binary_data-escape data_ (packet_writer [])) ∙ e) in
      rw (sym written) (unescape-escape data_)
