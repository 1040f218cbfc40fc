-- ===== src/Elf/Segments/Flat.antt =====
-- The segments hold the memory.
use ckb_standalone_debugger.Prelude.{
  ℕ, zero, suc, ◌+◌, ◌-◌, ◌*◌, ◌/◌, ◌%◌, ◌^◌, ◌<◌, ◌≤◌, ◌==◌, ◌&&◌, ◌||◌, ◌≡◌, ◌≢◌, refl, sym, ap,
  subst, ◌∙◌, Bool, List, [], ◌∷◌, ◌++◌, append-nil, append_assoc, Bytes, length, length-append,
  replicate, ok, to_le_bytes, length-to_le_bytes, arith, Bool-cases, inl, inr, ==_iff, leb,
}
use ckb_standalone_debugger.Elf.Segments.{
  Segment, Paged, skip_zeros, read_words, open_segment, extend, scan_page, scan_pages, collect,
  bool_eq, last_page,
}
use ckb_standalone_debugger.Vm.{VmResult}
use ckb_standalone_debugger.Elf.Segments.Layout.{
  flat, Ordered, length-replicate, flat-add, Ordered-add, Pure, mul_eight, one_more, next_page,
  false-ne-true,
}

module _ {M : Type 0} (mem : Paged M) (m : M) (pure : Pure mem m) where
  -- The bytes of the first `n` words of the memory.
  abbrev pub in_memory : ℕ → Bytes
  in_memory zero = []
  in_memory (suc n) = in_memory n ++ to_le_bytes 8 (pure.word (8 * n))

  -- The segments are what a loader needs for the first `n` words.
  record Holds (segments : List Segment) (n : ℕ) : Type 0 where
    same : flat segments (8 * n) ≡ in_memory n
    ordered : Ordered segments (8 * n)

  zero_word : (n : ℕ) → pure.word (8 * n) ≡ 0 → to_le_bytes 8 (pure.word (8 * n)) ≡ replicate 8 0
  zero_word n e = ap (to_le_bytes 8) e

  Holds-zero :
      (segments : List Segment) (n : ℕ)
      → pure.word (8 * n) ≡ 0
      → Holds segments n
      → Holds segments (suc n)
  Holds-zero segments n e h =
      let next : 8 * n + 8 ≡ 8 * suc n = omega arith in
      record {
        same =
            ap (flat segments) (sym next)
            ∙ flat-add segments (8 * n) 8 h.ordered
            ∙ ap (λ l. l ++ replicate 8 0) h.same
            ∙ ap (λ l. in_memory n ++ l) (sym (zero_word n e));
        ordered = subst (Ordered segments) next (Ordered-add segments (8 * n) 8 h.ordered);
      }

  skip_zeros-Holds :
      (words n : ℕ) (segments : List Segment)
      → Holds segments n
      → (left : ℕ) × (n' : ℕ) × (skip_zeros mem words (8 * n) m ≡ (ok (left, 8 * n'), m))
        × (n' + left ≡ n + words)
        × (left ≤ words)
        × Holds segments n'
        × (left ≢ 0 → pure.word (8 * n') ≢ 0)
  unfolding skip_zeros
  skip_zeros-Holds zero n segments h = (0, n, refl, refl, omega arith, h, λ ne _. ne refl)
  skip_zeros-Holds (suc words) n segments h = elim (Bool-cases (pure.word (8 * n) == 0)) [
    | inl e ↦
        let is_zero = (==_iff (pure.word (8 * n)) 0).0 e in
        let next : 8 * n + 8 ≡ 8 * suc n = omega arith in
        let (left, n', run, count, bound, h', ne) =
          skip_zeros-Holds words (suc n) segments (Holds-zero segments n is_zero h) in
        (
          left,
          n',
          rw (pure.load64_is (8 * n), e) (ap (λ a. skip_zeros mem words a m) next ∙ run),
          omega arith,
          omega arith,
          h',
          ne,
        )
    | inr e ↦ (
      suc words,
      n,
      rw (pure.load64_is (8 * n), e) refl,
      refl,
      omega arith,
      h,
      λ _ z. false-ne-true (sym e ∙ (==_iff (pure.word (8 * n)) 0).1 z),
    )
  ]

  read_words-in_memory :
      (words n : ℕ) (buffer : Bytes)
      → (left : ℕ) × (n' : ℕ) × (chunk : Bytes) × (read_words mem words (8 * n) buffer m
          ≡ (ok (left, 8 * n', buffer ++ chunk), m))
        × (n' + left ≡ n + words)
        × (in_memory n' ≡ in_memory n ++ chunk)
        × (8 * n + length chunk ≡ 8 * n')
        × (words ≢ 0 → pure.word (8 * n) ≢ 0 → left < words)
  unfolding read_words
  read_words-in_memory zero n buffer = (
    0,
    n,
    [],
    ap (λ l. (ok (0, 8 * n, l), m)) (sym (append-nil buffer)),
    refl,
    sym (append-nil (in_memory n)),
    omega arith,
    λ ne _. absurd (ne refl),
  )
  read_words-in_memory (suc words) n buffer = elim (Bool-cases (pure.word (8 * n) == 0)) [
    | inl e ↦ (
      suc words,
      n,
      [],
      rw (pure.load64_is (8 * n), e)
          (ap (λ l. (ok (suc words, 8 * n, l), m)) (sym (append-nil buffer))),
      refl,
      sym (append-nil (in_memory n)),
      omega arith,
      λ _ ne. absurd (ne ((==_iff (pure.word (8 * n)) 0).0 e)),
    )
    | inr e ↦
        let value = to_le_bytes 8 (pure.word (8 * n)) in
        let next : 8 * n + 8 ≡ 8 * suc n = omega arith in
        let (left, n', chunk, run, count, all, size, less) =
          read_words-in_memory words (suc n) (buffer ++ value) in
        (
          left,
          n',
          value ++ chunk,
          rw (pure.load64_is (8 * n), e)
              (ap (λ a. read_words mem words a (buffer ++ value) m) next
                ∙ run
                ∙ ap (λ l. (ok (left, 8 * n', l), m)) (append_assoc buffer value chunk)),
          omega arith,
          all ∙ append_assoc (in_memory n) value chunk,
          omega (arith, length-append value chunk, length-to_le_bytes 8 (pure.word (8 * n))),
          λ _ _. omega arith,
        )
  ]

  -- What is kept and the buffer are together the first `n` words.
  record Opened (kept : List Segment) (start : ℕ) (buffer : Bytes) (n : ℕ) : Type 0 where
    same : flat kept start ++ buffer ≡ in_memory n
    ordered : Ordered kept start
    size : start + length buffer ≡ 8 * n

  merged :
      (s : Segment) (rest : List Segment) (n : ℕ)
      → Holds (s ∷ rest) n
      → 8 * n < 2 ^ 64
      → Opened rest s.start
          (s.bytes ++ replicate ((8 * n + 2 ^ 64 - (s.start + length s.bytes)) % 2 ^ 64) 0)
          n
  merged s rest n h fits =
      let ends = h.ordered.1 in
      let gap : (8 * n + 2 ^ 64 - (s.start + length s.bytes)) % 2 ^ 64
          ≡ 8 * n - (s.start + length s.bytes) =
        omega arith in
      rw gap (record {
        same = sym (append_assoc (flat rest s.start) s.bytes _) ∙ h.same;
        ordered = h.ordered.2;
        size = omega (
          arith,
          length-append s.bytes (replicate (8 * n - (s.start + length s.bytes)) 0),
          length-replicate (8 * n - (s.start + length s.bytes)),
        );
      })

  open_segment-Opened :
      (gap page n : ℕ) (executable : Bool) (segments : List Segment)
      → Holds segments n
      → 8 * n < 2 ^ 64
      → let (kept, start, buffer) = open_segment mem gap page (8 * n) executable segments in
        Opened kept start buffer n
  unfolding open_segment
  open_segment-Opened gap page n executable [] h fits = record {
    same = append-nil (replicate (8 * n) 0) ∙ h.same;
    ordered = tt;
    size = omega arith;
  }
  open_segment-Opened gap page n executable (s ∷ rest) h fits =
      elim (Bool-cases (
        bool_eq s.executable executable
        && (leb ((8 * n + 2 ^ 64 - (s.start + length s.bytes)) % 2 ^ 64) gap
            || page == last_page mem s))) [
              | inl e ↦ rw e (merged s rest n h fits)
              | inr e ↦ rw e (record {
                same = append-nil (flat (s ∷ rest) (8 * n)) ∙ h.same;
                ordered = h.ordered;
                size = omega arith;
              })
            ]

  -- A segment that ends with the words read.
  closed :
      (kept : List Segment) (start : ℕ) (buffer chunk : Bytes) (executable : Bool) (n n' : ℕ)
      → Opened kept start buffer n
      → in_memory n' ≡ in_memory n ++ chunk
      → 8 * n + length chunk ≡ 8 * n'
      → n < n'
      → Holds (record { start = start; bytes = buffer ++ chunk; executable = executable } ∷ kept) n'
  closed kept start buffer chunk executable n n' o all size more =
      let whole : start + length (buffer ++ chunk) ≡ 8 * n' =
        omega (arith, length-append buffer chunk, o.size) in
      let no_room : 8 * n' - (start + length (buffer ++ chunk)) ≡ 0 = omega arith in
      record {
        same =
            ap (λ k. (flat kept start ++ (buffer ++ chunk)) ++ replicate k 0) no_room
            ∙ append-nil _
            ∙ sym (append_assoc (flat kept start) buffer chunk)
            ∙ ap (λ l. l ++ chunk) o.same
            ∙ sym all;
        ordered = (omega (arith, length-append buffer chunk, size), omega arith, o.ordered);
      }

  extend-Holds :
      (gap page words n : ℕ) (segments : List Segment)
      → Holds segments n
      → 8 * n < 2 ^ 64
      → pure.word (8 * n) ≢ 0
      → (left : ℕ) × (n' : ℕ) × (segments' : List Segment) × (extend mem gap page
            (suc words)
            (8 * n)
            segments
            m
          ≡ (ok (left, 8 * n', segments'), m))
        × (n' + left ≡ n + suc words)
        × (left < suc words)
        × Holds segments' n'
  unfolding extend
  extend-Holds gap page words n segments h fits ne =
      let executable = mem.is_executable (pure.flags page) in
      let (kept, start, buffer) = open_segment mem gap page (8 * n) executable segments in
      let opened = open_segment-Opened gap page n executable segments h fits in
      let (left, n', chunk, run, count, all, size, less) =
        read_words-in_memory (suc words) n buffer in
      let fewer : left < suc words = less (omega arith) ne in
      (
        left,
        n',
        record { start = start; bytes = buffer ++ chunk; executable = executable } ∷ kept,
        rw (pure.fetch_flag_is page, run) refl,
        count,
        fewer,
        closed kept start buffer chunk executable n n' opened all size (omega arith),
      )

  -- The page from `n` words on is done.
  abbrev Done : ℕ → ℕ → VmResult (List Segment) × M → Type 0
  Done n words run =
      (segments : List Segment) × (run ≡ (ok segments, m)) × Holds segments (n + words)

  -- One round, if the next ones are right.
  scan_page-step :
      (fuel gap page words n : ℕ) (segments : List Segment)
      → 8 * (n + words) < 2 ^ 64
      → Holds segments n
      → ((left n' : ℕ) (segments' : List Segment)
          → left < words
          → n' + left ≡ n + words
          → Holds segments' n'
          → Done n' left (scan_page mem fuel gap page left (8 * n') segments' m))
      → Done n words (scan_page mem (suc fuel) gap page words (8 * n) segments m)
  unfolding scan_page
  scan_page-step fuel gap page words n segments fits h next =
      let (left, n', run, count, bound, h', ne) = skip_zeros-Holds words n segments h in
      finish left n' run count bound h' ne
    where
      finish :
          (left n' : ℕ)
          → skip_zeros mem words (8 * n) m ≡ (ok (left, 8 * n'), m)
          → n' + left ≡ n + words
          → left ≤ words
          → Holds segments n'
          → (left ≢ 0 → pure.word (8 * n') ≢ 0)
          → Done n words (scan_page mem (suc fuel) gap page words (8 * n) segments m)
      finish zero n' run count bound h' ne =
          (segments, rw run refl, subst (Holds segments) (omega arith) h')
      finish (suc more) n' run count bound h' ne =
          let (left, n'', segments', went, count', fewer, held) =
            extend-Holds gap page more n' segments h' (omega arith) (ne (omega arith)) in
          let (last, later, all) = next left n'' segments' (omega arith) (omega arith) held in
          (last, rw (run, went) later, subst (Holds last) (omega arith) all)

  scan_page-Holds :
      (fuel gap page words n : ℕ) (segments : List Segment)
      → words < fuel
      → 8 * (n + words) < 2 ^ 64
      → Holds segments n
      → Done n words (scan_page mem fuel gap page words (8 * n) segments m)
  scan_page-Holds zero gap page words n segments enough fits h = absurd (omega arith)
  scan_page-Holds (suc fuel) gap page words n segments enough fits h =
      scan_page-step fuel gap page words n segments fits h (λ left n' segments' less count held.
        scan_page-Holds fuel gap page left n' segments' (omega arith) (omega arith) held)

  scan_pages-end :
      (gap page : ℕ) (segments : List Segment)
      → scan_pages mem 0 gap page segments m ≡ (ok segments, m)
  unfolding scan_pages
  scan_pages-end gap page segments = refl

  scan_pages-step :
      (left gap page : ℕ) (segments segments' : List Segment)
      → scan_page mem
          (suc pure.page_words)
          gap
          page
          pure.page_words
          (8 * (page * pure.page_words))
          segments
          m
        ≡ (ok segments', m)
      → scan_pages mem (suc left) gap page segments m
        ≡ scan_pages mem left gap (page + 1) segments' m
  unfolding scan_pages
  scan_pages-step left gap page segments segments' run =
      let words : mem.page_size / 8 ≡ pure.page_words = omega (arith, pure.page_size_is) in
      let start : page * mem.page_size ≡ 8 * (page * pure.page_words) =
        ap (λ k. page * k) pure.page_size_is ∙ mul_eight page pure.page_words in
      rw (words, start, run) refl

  scan_pages-Holds :
      (left gap page : ℕ) (segments : List Segment)
      → 8 * ((page + left) * pure.page_words) < 2 ^ 64
      → Holds segments (page * pure.page_words)
      → (segments' : List Segment) × (scan_pages mem left gap page segments m ≡ (ok segments', m))
        × Holds segments' ((page + left) * pure.page_words)
  scan_pages-Holds zero gap page segments fits h =
      let all : page ≡ page + 0 = omega arith in
      (
        segments,
        scan_pages-end gap page segments,
        subst (λ k. Holds segments (k * pure.page_words)) all h,
      )
  scan_pages-Holds (suc left) gap page segments fits h =
      let more : page * pure.page_words + pure.page_words ≤ (page + suc left) * pure.page_words =
        one_more page left pure.page_words in
      let step : page + 1 + left ≡ page + suc left = omega arith in
      let (segments', run, held) =
        scan_page-Holds (suc pure.page_words) gap page pure.page_words (page * pure.page_words)
          segments (omega arith) (omega arith) h in
      let (last, later, all) =
        scan_pages-Holds left gap (page + 1) segments'
          (subst (λ k. 8 * (k * pure.page_words) < 2 ^ 64) (sym step) fits)
          (subst (Holds segments') (next_page page pure.page_words) held) in
      (
        last,
        scan_pages-step left gap page segments segments' run ∙ later,
        subst (λ k. Holds last (k * pure.page_words)) step all,
      )

  -- On a memory that reading leaves as it is, all of it below 2^64, the segments are collected
  -- without an error, and are as a loader needs them: with zeros where there is no segment, they
  -- give the memory, byte for byte; they lie apart and in order, and none is empty.
  pub collect-Holds :
      (gap : ℕ)
      → (segments : List Segment) × (collect mem gap m ≡ (ok segments, m))
        × (flat segments (8 * (mem.pages * pure.page_words))
            ≡ in_memory (mem.pages * pure.page_words))
        × Ordered segments (8 * (mem.pages * pure.page_words))
  unfolding collect
  collect-Holds gap =
      let no_words : 0 ≡ 0 * pure.page_words = omega arith in
      let zeros : 0 + mem.pages ≡ mem.pages = omega arith in
      let size : 8 * ((0 + mem.pages) * pure.page_words) ≡ mem.pages * mem.page_size =
        ap (λ k. 8 * (k * pure.page_words)) zeros
        ∙ sym (mul_eight mem.pages pure.page_words)
        ∙ ap (λ k. mem.pages * k) (sym pure.page_size_is) in
      let (segments, run, held) =
        scan_pages-Holds mem.pages gap 0 [] (omega (arith, pure.fits))
          (subst (Holds []) no_words (record { same = refl; ordered = tt })) in
      let whole = subst (λ k. Holds segments (k * pure.page_words)) zeros held in
      (segments, run, whole.same, whole.ordered)
