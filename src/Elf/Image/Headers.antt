-- ===== src/Elf/Image/Headers.antt =====
-- What a loader makes of the program headers.
use ckb_standalone_debugger.Prelude.{
  ℕ, zero, suc, suc-add, ◌+◌, ◌*◌, ◌/◌, ◌%◌, ◌^◌, ◌==◌, ◌<◌, ◌≡◌, refl, sym, ap, ◌∙◌, Bool, true,
  false, List, [], ◌∷◌, ◌++◌, append_assoc, Bytes, length, length-append, take, drop, if◌then◌else◌,
  to_le_bytes, from_le_bytes, arith,
}
use native.Mathlib.Nat.{pow-suc}
use ckb_standalone_debugger.Elf.Segments.{Segment}
use ckb_standalone_debugger.Elf.Image.{program_header}

-- A little endian number of `size` bytes, by an offset of the file.
abbrev number_at : ℕ → ℕ → Bytes → ℕ
number_at size offset elf = from_le_bytes (take size (drop offset elf))

-- A loadable segment by the ELF format, from its program header.
abbrev load_segment : Bytes → ℕ → Segment
load_segment elf header = record {
  start = number_at 8 (header + 16) elf;
  bytes = take (number_at 8 (header + 32) elf) (drop (number_at 8 (header + 8) elf) elf);
  executable = number_at 4 (header + 4) elf % 2 == 1;
}

abbrev load_segments : ℕ → ℕ → Bytes → List Segment
load_segments zero header elf = []
load_segments (suc n) header elf = load_segment elf header ∷ load_segments n (header + 56) elf

-- The table of program headers is where the file's header says.
abbrev pub load : Bytes → List Segment
load elf = load_segments (number_at 2 56 elf) (number_at 8 32 elf) elf

pub from_le_bytes-to_le_bytes : (n v : ℕ) → v < 256 ^ n → from_le_bytes (to_le_bytes n v) ≡ v
from_le_bytes-to_le_bytes zero v h = omega arith
from_le_bytes-to_le_bytes (suc n) v h =
    let h' : v < 256 ^ n * 256 = rw (sym (pow-suc 256 n)) h in
    let below : v / 256 < 256 ^ n = omega arith in
    rw (from_le_bytes-to_le_bytes n (v / 256) below) (omega arith)

drop-nil : (n : ℕ) → drop {A = ℕ} n [] ≡ []
drop-nil zero = refl
drop-nil (suc n) = refl

pub drop-add : (n k : ℕ) (xs : Bytes) → drop (n + k) xs ≡ drop k (drop n xs)
drop-add zero k xs = let e : 0 + k ≡ k = omega arith in ap (λ i. drop i xs) e
drop-add (suc n) k [] = rw suc-add (sym (drop-nil k))
drop-add (suc n) k (x ∷ xs) = rw suc-add (drop-add n k xs)

pub drop-append : (xs ys : Bytes) → drop (length xs) (xs ++ ys) ≡ ys
drop-append [] ys = refl
drop-append (x ∷ xs) ys = drop-append xs ys

take-append : (xs ys : Bytes) → take (length xs) (xs ++ ys) ≡ xs
take-append [] ys = refl
take-append (x ∷ xs) ys = ap (λ l. x ∷ l) (take-append xs ys)

-- The contents of the segments, and the program headers of segments whose contents start at an
-- offset, one after the other.
abbrev pub contents : List Segment → Bytes
contents [] = []
contents (s ∷ segments) = s.bytes ++ contents segments

abbrev pub headers_from : ℕ → List Segment → List Bytes
headers_from offset [] = []
headers_from offset (s ∷ segments) =
    program_header offset s ∷ headers_from (offset + length s.bytes) segments

abbrev pub join : List Bytes → Bytes
join [] = []
join (h ∷ hs) = h ++ join hs

abbrev pub Addresses : List Segment → Type 0
Addresses [] = Unit
Addresses (s ∷ segments) = (s.start < 2 ^ 64) × Addresses segments

flags : (e : Bool) → (from_le_bytes (to_le_bytes 4 (if e then 5 else 6)) % 2 == 1) ≡ e
flags true = refl
flags false = refl

number_at-drop :
    (size offset header : ℕ) (elf h : Bytes)
    → drop header elf ≡ h
    → number_at size (header + offset) elf ≡ number_at size offset h
number_at-drop size offset header elf h e =
    ap (λ l. from_le_bytes (take size l)) (drop-add header offset elf ∙ ap (drop offset) e)

-- A program header gives its segment back.
load_segment-program_header :
    (elf rest more : Bytes) (header offset : ℕ) (s : Segment)
    → drop header elf ≡ program_header offset s ++ rest
    → drop offset elf ≡ s.bytes ++ more
    → offset < 2 ^ 64
    → s.start < 2 ^ 64
    → length s.bytes < 2 ^ 64
    → load_segment elf header ≡ s
unfolding program_header
load_segment-program_header elf rest more header offset s h d fits starts small =
    rw
      (
        number_at-drop 8 16 header elf _ h,
        number_at-drop 8 32 header elf _ h,
        number_at-drop 8 8 header elf _ h,
        number_at-drop 4 4 header elf _ h,
        from_le_bytes-to_le_bytes 8 s.start starts,
        from_le_bytes-to_le_bytes 8 offset fits,
        from_le_bytes-to_le_bytes 8 (length s.bytes) small,
        flags s.executable,
        d,
        take-append s.bytes more,
      )
      refl

length-program_header :
    (offset : ℕ) (s : Segment) (rest : Bytes) → drop 56 (program_header offset s ++ rest) ≡ rest
unfolding program_header
length-program_header offset s rest = refl

pub load_segments-headers :
    (elf tail more : Bytes) (header offset : ℕ) (segments : List Segment)
    → drop header elf ≡ join (headers_from offset segments) ++ tail
    → drop offset elf ≡ contents segments ++ more
    → offset + length (contents segments) < 2 ^ 64
    → Addresses segments
    → load_segments (length segments) header elf ≡ segments
load_segments-headers elf tail more header offset [] h d fits addresses = refl
load_segments-headers elf tail more header offset (s ∷ segments) h d fits (starts, addresses) =
    let total = length-append s.bytes (contents segments) in
    let rest = join (headers_from (offset + length s.bytes) segments) ++ tail in
    let h' : drop header elf ≡ program_header offset s ++ rest =
      h ∙ append_assoc (program_header offset s) _ tail in
    let d' : drop offset elf ≡ s.bytes ++ (contents segments ++ more) =
      d ∙ append_assoc s.bytes (contents segments) more in
    let first =
      load_segment-program_header elf rest (contents segments ++ more) header offset s h' d'
        (omega arith) starts (omega arith) in
    let others =
      load_segments-headers elf tail more (header + 56) (offset + length s.bytes) segments
        (drop-add header 56 elf ∙ ap (drop 56) h' ∙ length-program_header offset s rest)
        (drop-add offset (length s.bytes) elf
          ∙ ap (drop (length s.bytes)) d'
          ∙ drop-append s.bytes (contents segments ++ more))
        (omega arith) addresses in
    rw (first, others) refl
