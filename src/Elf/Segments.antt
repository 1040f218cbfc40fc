-- ===== src/Elf/Segments.antt =====
-- The memory that is not zero (ckb-vm-debug-utils/src/elf_dumper.rs): the loops over the pages.
pub mod Layout
pub mod Flat
use ckb_standalone_debugger.Prelude.{
  ℕ, zero, suc, ◌+◌, ◌-◌, ◌*◌, ◌/◌, ◌%◌, ◌==◌, ◌&&◌, ◌||◌, Bool, true, false, Option, none, some,
  List, [], ◌∷◌, ◌++◌, Bytes, length, replicate, if◌then◌else◌, leb, ok, err, panic, to_le_bytes,
}
use ckb_standalone_debugger.Vm.{VmResult, u64_mod}

pub record Segment : Type 0 where
  pub start : ℕ
  pub bytes : Bytes
  pub executable : Bool

-- What the dumper reads of ckb-vm's memory. `is_executable` is the test of a page's flags:
-- `flags & FLAG_WXORX_BIT == FLAG_EXECUTABLE`.
pub record Paged (M : Type 0) : Type 0 where
  pub pages : ℕ
  pub page_size : ℕ
  pub load64 : ℕ → M → VmResult ℕ × M
  pub fetch_flag : ℕ → M → VmResult ℕ × M
  pub is_executable : ℕ → Bool

-- Of two Booleans.
abbrev pub bool_eq : Bool → Bool → Bool
bool_eq true b = b
bool_eq false true = false
bool_eq false false = true

module _ {M : Type 0} (mem : Paged M) where
  open mem use {pages, page_size, load64, fetch_flag, is_executable}

  -- A computation over the machine that may fail.
  abbrev pub Machine : Type 0 → Type 0
  Machine A = M → VmResult A × M

  abbrev pub then_do : {A B : Type 0} → VmResult A × M → (A → Machine B) → VmResult B × M
  then_do (ok a, m) f = f a m
  then_do (err e, m) f = (err e, m)
  then_do (panic, m) f = (panic, m)

  unfoldable pub first_page : Segment → ℕ
  first_page s = s.start / page_size

  unfoldable pub first_page_address : Segment → ℕ
  unfolding first_page
  first_page_address s = first_page s * page_size

  unfoldable pub last_page : Segment → ℕ
  last_page s = (s.start + length s.bytes - 1) / page_size

  -- The first loop: past words that are zero. Both loops stop after `words` words, where `start`
  -- has come to `end`; they give the words that are left.
  unfoldable pub skip_zeros : ℕ → ℕ → Machine (ℕ × ℕ)
  skip_zeros zero start m = (ok (zero, start), m)
  skip_zeros (suc words) start m = then_do (load64 start m) (λ value m'.
      let rest = skip_zeros words (start + 8) m' in
      if value == 0 then rest else (ok (suc words, start), m'))

  -- The second loop: words that are not zero go to the buffer.
  unfoldable pub read_words : ℕ → ℕ → Bytes → Machine (ℕ × ℕ × Bytes)
  read_words zero start buffer m = (ok (zero, start, buffer), m)
  read_words (suc words) start buffer m = then_do (load64 start m) (λ value m'.
      let rest = read_words words (start + 8) (buffer ++ to_le_bytes 8 value) m' in
      if value == 0 then (ok (suc words, start, buffer), m') else rest)

  -- The vector of segments is used as a stack: its last one is the head of the list. A segment
  -- goes on that has the same rights and is near, or in the same page, with its gap filled.
  unfoldable pub open_segment : ℕ → ℕ → ℕ → Bool → List Segment → List Segment × ℕ × Bytes
  unfolding last_page
  open_segment maximum_zero_gap page start executable [] = ([], start, [])
  open_segment maximum_zero_gap page start executable (last ∷ segments) =
      let same_page = page == last_page last in
      let gap = (start + u64_mod - (last.start + length last.bytes)) % u64_mod in
      if bool_eq last.executable executable && (leb gap maximum_zero_gap || same_page)
      then (segments, last.start, last.bytes ++ replicate gap 0)
      else (last ∷ segments, start, [])

  -- From a word that is not zero on.
  unfoldable pub extend : ℕ → ℕ → ℕ → ℕ → List Segment → Machine (ℕ × ℕ × List Segment)
  unfolding open_segment read_words
  extend maximum_zero_gap page words start segments m = then_do (fetch_flag page m) (λ flags m'.
      let (kept, bytes_start, buffer) =
        open_segment maximum_zero_gap page start (is_executable flags) segments in
      then_do (read_words words start buffer m') (λ (left, start', all) m''. (
        ok (
          left,
          start',
          record { start = bytes_start; bytes = all; executable = is_executable flags } ∷ kept,
        ),
        m'',
      )))

  -- The words of a page. A round takes a word at least, so as many rounds as words are enough;
  -- running out of fuel is a panic of the model.
  unfoldable pub scan_page : ℕ → ℕ → ℕ → ℕ → ℕ → List Segment → Machine (List Segment)
  unfolding skip_zeros extend
  scan_page zero maximum_zero_gap page words start segments m = (panic, m)
  scan_page (suc fuel) maximum_zero_gap page words start segments m =
      then_do (skip_zeros words start m) (λ (left, start') m'. elim left [
        | zero ↦ (ok segments, m')
        | suc more ↦
            then_do (extend maximum_zero_gap page (suc more) start' segments m')
              (λ (left', start'', segments').
                scan_page fuel maximum_zero_gap page left' start'' segments')
      ])

  -- The loop over the pages that are left.
  unfoldable pub scan_pages : ℕ → ℕ → ℕ → List Segment → Machine (List Segment)
  scan_pages zero maximum_zero_gap page segments m = (ok segments, m)
  scan_pages (suc left) maximum_zero_gap page segments m =
      let words = page_size / 8 in
      then_do (scan_page (suc words) maximum_zero_gap page words (page * page_size) segments m)
        (scan_pages left maximum_zero_gap (page + 1))

  -- All segments, the last one first.
  unfoldable pub collect : ℕ → Machine (List Segment)
  unfolding scan_pages
  collect maximum_zero_gap = scan_pages pages maximum_zero_gap 0 []
