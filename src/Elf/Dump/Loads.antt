-- ===== src/Elf/Dump/Loads.antt =====
-- What a loader gets from a file that was dumped.
use ckb_standalone_debugger.Prelude.{
  ℕ, zero, suc, ◌+◌, ◌*◌, ◌-◌, ◌/◌, ◌^◌, ◌<◌, ◌≤◌, ◌≡◌, refl, sym, ap, subst, ◌∙◌, true, false,
  List, [], ◌∷◌, ◌++◌, Bytes, length, length-append, ok, ok-injective, ltb→lt, to_le_bytes,
  Outcome-cases, leb, ltb, Bool-cases, arith, inl, inr,
}
use native.Mathlib.Nat.{div-mul-le_self, lt-div-mul-add}
use ckb_standalone_debugger.Elf.Segments.{Segment, collect, first_page, first_page_address}
use ckb_standalone_debugger.Elf.Segments.Layout.{flat, Ordered, Pure}
use ckb_standalone_debugger.Elf.Segments.Flat.{in_memory, collect-Holds}
use ckb_standalone_debugger.Elf.Restore.{
  register_buffer, jump_offset_from, jump_instruction, in_reach,
}
use ckb_standalone_debugger.Elf.Image.{build}
use ckb_standalone_debugger.Elf.Image.Headers.{load, contents, Addresses}
use ckb_standalone_debugger.Elf.Image.Loaded.{load-build}
use ckb_standalone_debugger.Elf.Dump.{Dumped, in_order, restoring, image_of}

leb-false→lt : (a b : ℕ) → leb a b ≡ false → b < a
leb-false→lt a b e = ground (arith, e)

-- Segments that lie apart are no longer than the memory.
Ordered-Addresses :
    (segments after : List Segment) (upto : ℕ)
    → Ordered segments upto
    → upto < 2 ^ 64
    → Addresses after
    → Addresses (in_order segments after)
Ordered-Addresses [] after upto h below rest = rest
Ordered-Addresses (s ∷ segments) after upto h below rest =
    Ordered-Addresses segments (s ∷ after) s.start h.2 (omega (arith, h.1))
      (omega (arith, h.1), rest)

length-contents_in_order :
    (segments after : List Segment) (upto : ℕ)
    → Ordered segments upto
    → length (contents (in_order segments after)) ≤ upto + length (contents after)
length-contents_in_order [] after upto h = omega arith
length-contents_in_order (s ∷ segments) after upto h =
    let later = length-contents_in_order segments (s ∷ after) s.start h.2 in
    let both = length-append s.bytes (contents after) in omega (arith, h.1, later, both)

length-in_order :
    (segments after : List Segment)
    → length (in_order segments after) ≡ length segments + length after
length-in_order [] after = omega arith
length-in_order (s ∷ segments) after = length-in_order segments (s ∷ after) ∙ omega arith

Addresses-append :
    (xs : List Segment) (y : Segment) → Addresses xs → y.start < 2 ^ 64 → Addresses (xs ++ y ∷ [])
Addresses-append [] y h small = (small, tt)
Addresses-append (x ∷ xs) y (h, hs) small = (h, Addresses-append xs y hs small)

length-contents_append :
    (xs : List Segment) (y : Segment)
    → length (contents (xs ++ y ∷ [])) ≡ length (contents xs) + length y.bytes
length-contents_append [] y = length-append y.bytes [] ∙ omega arith
length-contents_append (x ∷ xs) y =
    length-append x.bytes (contents (xs ++ y ∷ []))
    ∙ omega (arith, length-contents_append xs y, length-append x.bytes (contents xs))

-- The page in front of an address past the first page.
page_below : (a b q : ℕ) → 0 < b → b < a → q ≡ a / b → q * b ≤ a → q * b - b + b ≤ a
page_below a b zero some_byte above e h =
    let short : a < 0 * b + b = subst (λ q. a < q * b + b) (sym e) (lt-div-mul-add some_byte) in
    omega arith
page_below a b (suc q) some_byte above e h = omega arith

-- A segment that is executable, in front of others.
abbrev pub InFront : List Segment → Segment → Type 0
InFront [] s = Unit
InFront (first ∷ more) s = (s.start + length s.bytes ≤ first.start) × (s.executable ≡ true)

module _ {M F : Type 0} (env : Dumped M F) where
  jump : Segment → M → ℕ
  unfolding first_page_address register_buffer jump_offset_from
  jump first m = jump_offset_from (env.pc m) (
      first_page_address env.memory first
      - env.memory.page_size
      + length (register_buffer (env.registers m)))

  code : Segment → M → Bytes
  unfolding jump register_buffer jump_instruction
  code first m =
      register_buffer (env.registers m) ++ to_le_bytes 4 (jump_instruction (jump first m))

  restoring-InFront :
      (first : Segment) (more : List Segment) (m : M) (s : Segment) (entry : ℕ)
      → env.memory.page_size < first.start
      → restoring env first m ≡ ok (s, entry)
      → InFront (first ∷ more) s × (length s.bytes < env.memory.page_size)
  unfolding restoring first_page_address jump code first_page
  restoring-InFront first more m s entry above e = elim (Bool-cases (in_reach (jump first m))) [
    | inr far ↦ absurd (cc (rw far at e))
    | inl near ↦ elim (Bool-cases (ltb (length (code first m)) env.memory.page_size)) [
      | inr large ↦ absurd (cc (rw (near, large) at e))
      | inl fits ↦
          let same = ap (λ r. r.0) (ok-injective (rw (near, fits) at e)) in
          let short = ltb→lt (length (code first m)) env.memory.page_size fits in
          let below =
            page_below first.start env.memory.page_size _ (omega arith) above refl
              (div-mul-le_self first.start env.memory.page_size) in
          subst (λ s. InFront (first ∷ more) s × (length s.bytes < env.memory.page_size)) same
            ((omega arith, refl), short)
    ]
  ]

  image_of-build :
      (first : Segment) (more : List Segment) (m : M) (elf : Bytes)
      → image_of env (first ∷ more) m ≡ ok elf
      → (s : Segment) × (entry : ℕ) × (env.memory.page_size < first.start)
        × (restoring env first m ≡ ok (s, entry))
        × (elf ≡ build entry ((first ∷ more) ++ s ∷ []))
  unfolding image_of
  image_of-build first more m elf e = elim (Bool-cases (leb first.start env.memory.page_size)) [
    | inl low ↦ absurd (cc (rw low at e))
    | inr high ↦ elim (Outcome-cases (restoring env first m)) [
      | inl ((s, entry), restored) ↦ (
        s,
        entry,
        leb-false→lt first.start env.memory.page_size high,
        restored,
        sym (ok-injective (rw (high, restored) at e)),
      )
      | inr (inl (x, failed)) ↦ absurd (cc (rw (high, failed) at e))
      | inr (inr failed) ↦ absurd (cc (rw (high, failed) at e))
    ]
  ]

  load-image_of :
      (all : List Segment) (m : M) (elf : Bytes)
      → image_of env all m ≡ ok elf
      → suc (length all) < 2 ^ 16
      → 71 + length (contents all) + env.memory.page_size < 2 ^ 64
      → Addresses all
      → (s : Segment) × (load elf ≡ all ++ s ∷ []) × InFront all s
  unfolding image_of
  load-image_of [] m elf image few room addresses = absurd (cc image)
  load-image_of (first ∷ more) m elf image few room addresses =
      let (s, entry, above, restored, built) = image_of-build first more m elf image in
      let (in_front, short) = restoring-InFront first more m s entry above restored in
      let all = first ∷ more in
      (
        s,
        ap load built
            ∙ load-build entry (all ++ s ∷ []) (omega (arith, length-append more (s ∷ [])))
                (omega (arith, length-contents_append all s))
                (Addresses-append all s addresses (omega (arith, in_front.0, addresses.0))),
        in_front,
      )

  module _ (m : M) (pure : Pure env.memory m) where
    abbrev total : ℕ
    total = 8 * (env.memory.pages * pure.page_words)

    -- A file from a memory that reading leaves as it is: a loader finds the segments that were
    -- collected, then one that is executable and ends where the first of them starts or before; with
    -- zeros elsewhere, the collected segments give the memory, byte for byte. The memory and a page more
    -- are below 2^64, and there are fewer than 2^16 segments.
    pub load-image_of_Pure :
        (gap : ℕ) (segments : List Segment) (elf : Bytes)
        → collect env.memory gap m ≡ (ok segments, m)
        → image_of env (in_order segments []) m ≡ ok elf
        → suc (length segments) < 2 ^ 16
        → 71 + total + env.memory.page_size < 2 ^ 64
        → (s : Segment) × (load elf ≡ in_order segments [] ++ s ∷ [])
          × InFront (in_order segments []) s
          × (flat segments total ≡ in_memory env.memory m pure (env.memory.pages * pure.page_words))
    load-image_of_Pure gap segments elf collected image few room =
        let (found, ran, same, ordered) = collect-Holds env.memory m pure gap in
        let is_found = ok-injective (ap (λ r. r.0) (sym ran ∙ collected)) in
        let held : Ordered segments total = subst (λ l. Ordered l total) is_found ordered in
        let whole =
          subst
            (λ l. flat l total ≡ in_memory env.memory m pure (env.memory.pages * pure.page_words))
            is_found same in
        let lengths = length-in_order segments [] in
        let (s, loaded, in_front) =
          load-image_of (in_order segments []) m elf image (omega arith)
            (omega (arith, length-contents_in_order segments [] total held))
            (Ordered-Addresses segments [] total held (omega arith) tt) in
        (s, loaded, in_front, whole)
