-- ===== src/Elf/Image/Loaded.antt =====
-- What a loader finds in the file.
use ckb_standalone_debugger.Prelude.{
  ℕ, zero, suc, ◌+◌, ◌%◌, ◌^◌, ◌==◌, ◌<◌, ◌≤◌, ◌≡◌, refl, sym, ap, ◌∙◌, List, [], ◌∷◌, ◌++◌,
  append_assoc, append-nil, Bytes, length, length-append, drop, to_le_bytes, arith, inl, inr,
  Bool-cases,
}
use ckb_standalone_debugger.Elf.Segments.{Segment}
use ckb_standalone_debugger.Elf.Image.{
  Built, program_header, string_table_section_header, string_table, elf_header, place, place_all,
  align4, write_at, extend_all, put_program_headers, put_section_headers, build,
}
use ckb_standalone_debugger.Elf.Image.Headers.{
  load, from_le_bytes-to_le_bytes, drop-add, drop-append, contents, headers_from, join, Addresses,
  load_segments-headers,
}

place_all-elf :
    (b : Built) (segments : List Segment) → (place_all b segments).elf ≡ b.elf ++ contents segments
unfolding place_all place
place_all-elf b [] = sym (append-nil b.elf)
place_all-elf b (s ∷ segments) =
    place_all-elf (place b s) segments ∙ append_assoc b.elf s.bytes (contents segments)

place_all-program_headers :
    (b : Built) (segments : List Segment)
    → (place_all b segments).program_headers
      ≡ b.program_headers ++ headers_from (length b.elf) segments
unfolding place_all place
place_all-program_headers b [] = sym (append-nil b.program_headers)
place_all-program_headers b (s ∷ segments) =
    rw
      (
        place_all-program_headers (place b s) segments,
        length-append b.elf s.bytes,
        append_assoc b.program_headers (program_header (length b.elf) s ∷ [])
            (headers_from (length b.elf + length s.bytes) segments),
      )
      refl

align4-zeros :
    (fuel : ℕ) (elf : Bytes)
    → (zeros : Bytes) × (align4 fuel elf ≡ elf ++ zeros) × (length zeros ≤ fuel)
unfolding align4
align4-zeros zero elf = ([], sym (append-nil elf), omega arith)
align4-zeros (suc fuel) elf =
    let (zeros, later, few) = align4-zeros fuel (elf ++ 0 ∷ []) in
    elim (Bool-cases (length elf % 4 == 0)) [
      | inl aligned ↦ ([], rw aligned (sym (append-nil elf)), omega arith)
      | inr not_yet ↦ (0 ∷ zeros, rw not_yet (later ∙ append_assoc elf (0 ∷ []) zeros), omega arith)
    ]

extend_all-join : (elf : Bytes) (hs : List Bytes) → extend_all elf hs ≡ elf ++ join hs
unfolding extend_all
extend_all-join elf [] = sym (append-nil elf)
extend_all-join elf (h ∷ hs) = extend_all-join (elf ++ h) hs ∙ append_assoc elf h (join hs)

length-headers_from :
    (offset : ℕ) (segments : List Segment) → length (headers_from offset segments) ≡ length segments
length-headers_from offset [] = refl
length-headers_from offset (s ∷ segments) =
    ap suc (length-headers_from (offset + length s.bytes) segments)

-- The file's header with the string table behind it, where the offsets and numbers of the program
-- headers and the section headers are known.
abbrev finished : ℕ → ℕ → ℕ → ℕ → ℕ → Bytes
finished entry programs sections program_number section_number =
    (0x7f ∷ 0x45 ∷ 0x4c ∷ 0x46 ∷ 2 ∷ 1 ∷ 1 ∷ 0 ∷ 0 ∷ 0 ∷ 0 ∷ 0 ∷ 0 ∷ 0 ∷ 0 ∷ 0 ∷ [])
    ++ to_le_bytes 2 2
    ++ to_le_bytes 2 243
    ++ to_le_bytes 4 1
    ++ to_le_bytes 8 entry
    ++ to_le_bytes 8 programs
    ++ to_le_bytes 8 sections
    ++ to_le_bytes 4 1
    ++ to_le_bytes 2 64
    ++ to_le_bytes 2 56
    ++ to_le_bytes 2 program_number
    ++ to_le_bytes 2 64
    ++ to_le_bytes 2 section_number
    ++ to_le_bytes 2 0
    ++ to_le_bytes 4 0

elf_header-finished : (entry : ℕ) → elf_header entry ++ string_table ≡ finished entry 0 0 0 0
unfolding elf_header string_table
elf_header-finished entry = refl

length-finished :
    (entry programs sections program_number section_number : ℕ) (rest : Bytes)
    → length (finished entry programs sections program_number section_number ++ rest)
      ≡ 68 + length rest
length-finished entry programs sections program_number section_number rest =
    length-append (finished entry programs sections program_number section_number) rest

put_program_headers-finished :
    (entry : ℕ) (b : Built) (body : Bytes)
    → b.elf ≡ finished entry 0 0 0 0 ++ body
    → (zeros : Bytes) × (put_program_headers b
        ≡ finished entry (68 + length (body ++ zeros)) 0 (length b.program_headers) 0
          ++ ((body ++ zeros) ++ join b.program_headers))
      × (length zeros ≤ 3)
unfolding put_program_headers write_at
put_program_headers-finished entry b body e =
    let (zeros, aligned, few) = align4-zeros 3 b.elf in
    let aligned' : align4 3 b.elf ≡ finished entry 0 0 0 0 ++ (body ++ zeros) =
      aligned ∙ ap (λ l. l ++ zeros) e ∙ append_assoc (finished entry 0 0 0 0) body zeros in
    let written : Bytes → Bytes = λ elf.
      write_at 56 (to_le_bytes 2 (length b.program_headers))
        (write_at 32 (to_le_bytes 8 (length elf)) elf) in
    let place = length-finished entry 0 0 0 0 (body ++ zeros) in
    let rest = body ++ zeros in
    (
      zeros,
      ap (λ elf. extend_all (written elf) b.program_headers) aligned'
          ∙ ap
              (λ n.
                extend_all (finished entry n 0 (length b.program_headers) 0 ++ rest)
                  b.program_headers)
              place
          ∙ extend_all-join
              (finished entry (68 + length rest) 0 (length b.program_headers) 0 ++ rest)
              b.program_headers
          ∙ append_assoc (finished entry (68 + length rest) 0 (length b.program_headers) 0) rest
              (join b.program_headers),
      few,
    )

put_section_headers-finished :
    (entry programs number : ℕ) (section_headers : List Bytes) (elf body : Bytes)
    → elf ≡ finished entry programs 0 number 0 ++ body
    → (offset : ℕ) × (tail : Bytes) × (put_section_headers section_headers elf
        ≡ finished entry programs offset number (length section_headers) ++ (body ++ tail))
unfolding put_section_headers write_at
put_section_headers-finished entry programs number section_headers elf body e =
    let (zeros, aligned, few) = align4-zeros 3 elf in
    let aligned' : align4 3 elf ≡ finished entry programs 0 number 0 ++ (body ++ zeros) =
      aligned
      ∙ ap (λ l. l ++ zeros) e
      ∙ append_assoc (finished entry programs 0 number 0) body zeros in
    let rest = body ++ zeros in
    let offset = length (finished entry programs 0 number 0 ++ rest) in
    let written : Bytes → Bytes = λ elf.
      write_at 60 (to_le_bytes 2 (length section_headers))
        (write_at 40 (to_le_bytes 8 (length elf)) elf) in
    let header = finished entry programs offset number (length section_headers) in
    (
      offset,
      zeros ++ join section_headers,
      ap (λ elf. extend_all (written elf) section_headers) aligned'
          ∙ extend_all-join (header ++ rest) section_headers
          ∙ append_assoc header rest (join section_headers)
          ∙ ap (λ l. header ++ l) (append_assoc body zeros (join section_headers)),
    )

load-finished :
    (entry sections section_number : ℕ) (segments : List Segment) (zeros tail : Bytes)
    → length segments < 2 ^ 16
    → 68 + length (contents segments ++ zeros) < 2 ^ 64
    → Addresses segments
    → load (
        finished entry
          (68 + length (contents segments ++ zeros))
          sections
          (length segments)
          section_number
        ++ (((contents segments ++ zeros) ++ join (headers_from 68 segments)) ++ tail))
      ≡ segments
load-finished entry sections section_number segments zeros tail few fits addresses =
    let headers = join (headers_from 68 segments) in
    let body = contents segments ++ zeros in
    let elf =
      finished entry (68 + length body) sections (length segments) section_number
      ++ ((body ++ headers) ++ tail) in
    let after = append_assoc body headers tail in
    rw
      (
        from_le_bytes-to_le_bytes 2 (length segments) few,
        from_le_bytes-to_le_bytes 8 (68 + length body) fits,
      )
      (load_segments-headers elf tail (zeros ++ (headers ++ tail)) (68 + length body) 68 segments
        (drop-add 68 (length body) elf
          ∙ ap (drop (length body)) after
          ∙ drop-append body (headers ++ tail))
        (after ∙ append_assoc (contents segments) zeros (headers ++ tail))
        (omega (arith, length-append (contents segments) zeros)) addresses)

-- A loader that follows the ELF format finds the segments in the file, in order, each at its
-- address, with its bytes and its right to be executed, where there are fewer than 2^16 segments,
-- and the addresses and the offsets fit in 64 bits.
pub load-build :
    (entry : ℕ) (segments : List Segment)
    → length segments < 2 ^ 16
    → 71 + length (contents segments) < 2 ^ 64
    → Addresses segments
    → load (build entry segments) ≡ segments
unfolding build
load-build entry segments few fits addresses =
    let header = elf_header entry in
    let b0 : Built = record {
      elf = header ++ string_table;
      program_headers = [];
      section_headers = string_table_section_header (length header) ∷ [];
    } in
    let b = place_all b0 segments in
    let placed : b.elf ≡ finished entry 0 0 0 0 ++ contents segments =
      place_all-elf b0 segments ∙ ap (λ l. l ++ contents segments) (elf_header-finished entry) in
    let programs : b.program_headers ≡ headers_from 68 segments =
      place_all-program_headers b0 segments
      ∙ ap (λ n. headers_from n segments) (ap length (elf_header-finished entry)) in
    let number : length b.program_headers ≡ length segments =
      ap length programs ∙ length-headers_from 68 segments in
    let (zeros, with_programs, three) =
      put_program_headers-finished entry b (contents segments) placed in
    let body = contents segments ++ zeros in
    let (sections, tail, whole) =
      put_section_headers-finished entry (68 + length body) (length b.program_headers)
        b.section_headers (put_program_headers b) (body ++ join b.program_headers) with_programs in
    ap load whole
    ∙ ap
        (λ n. load (
          finished entry (68 + length body) sections n (length b.section_headers)
          ++ ((body ++ join b.program_headers) ++ tail)))
        number
    ∙ ap
        (λ hs. load (
          finished entry (68 + length body) sections (length segments) (length b.section_headers)
          ++ ((body ++ join hs) ++ tail)))
        programs
    ∙ load-finished entry sections (length b.section_headers) segments zeros tail few
        (omega (arith, length-append (contents segments) zeros)) addresses
