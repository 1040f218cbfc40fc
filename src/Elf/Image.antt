-- ===== src/Elf/Image.antt =====
-- The ELF file of the segments (ckb-vm-debug-utils/src/elf_dumper.rs).
pub mod Headers
pub mod Loaded
use ckb_standalone_debugger.Prelude.{
  ℕ, zero, suc, ◌+◌, ◌%◌, ◌==◌, Bool, true, false, List, [], ◌∷◌, ◌++◌, Bytes, length, take, drop,
  if◌then◌else◌, to_le_bytes,
}
use ckb_standalone_debugger.Elf.Segments.{Segment}

-- The header, with placeholders for the offsets and the numbers of the headers that come later.
unfoldable pub elf_header : ℕ → Bytes
elf_header entry =
    (0x7f ∷ 0x45 ∷ 0x4c ∷ 0x46 ∷ 2 ∷ 1 ∷ 1 ∷ 0 ∷ 0 ∷ 0 ∷ 0 ∷ 0 ∷ 0 ∷ 0 ∷ 0 ∷ 0 ∷ [])
    ++ to_le_bytes 2 2
    ++ to_le_bytes 2 243
    ++ to_le_bytes 4 1
    ++ to_le_bytes 8 entry
    ++ to_le_bytes 8 0
    ++ to_le_bytes 8 0
    ++ to_le_bytes 4 1
    ++ to_le_bytes 2 64
    ++ to_le_bytes 2 56
    ++ to_le_bytes 2 0
    ++ to_le_bytes 2 64
    ++ to_le_bytes 2 0
    ++ to_le_bytes 2 0

-- Where the placeholders are: the lengths of the header before each of them.
abbrev pub program_header_offset : ℕ
program_header_offset = 32

abbrev pub section_header_offset : ℕ
section_header_offset = 40

abbrev pub program_header_number_offset : ℕ
program_header_number_offset = 56

abbrev pub section_header_number_offset : ℕ
section_header_number_offset = 60

unfoldable pub string_table : Bytes
string_table = to_le_bytes 4 0

unfoldable pub string_table_section_header : ℕ → Bytes
string_table_section_header string_table_offset =
    to_le_bytes 4 0
    ++ to_le_bytes 4 3
    ++ to_le_bytes 8 0
    ++ to_le_bytes 8 0
    ++ to_le_bytes 8 string_table_offset
    ++ to_le_bytes 8 4
    ++ to_le_bytes 4 0
    ++ to_le_bytes 4 0
    ++ to_le_bytes 8 1
    ++ to_le_bytes 8 0

unfoldable pub program_header : ℕ → Segment → Bytes
program_header current_offset s =
    to_le_bytes 4 1
    ++ to_le_bytes 4 (if s.executable then 5 else 6)
    ++ to_le_bytes 8 current_offset
    ++ to_le_bytes 8 s.start
    ++ to_le_bytes 8 s.start
    ++ to_le_bytes 8 (length s.bytes)
    ++ to_le_bytes 8 (length s.bytes)
    ++ to_le_bytes 8 0x1000

unfoldable pub section_header : ℕ → Segment → Bytes
section_header current_offset s =
    to_le_bytes 4 0
    ++ to_le_bytes 4 1
    ++ to_le_bytes 8 6
    ++ to_le_bytes 8 s.start
    ++ to_le_bytes 8 current_offset
    ++ to_le_bytes 8 (length s.bytes)
    ++ to_le_bytes 4 0
    ++ to_le_bytes 4 0
    ++ to_le_bytes 8 2
    ++ to_le_bytes 8 0

-- The file so far, and the headers that wait.
pub record Built : Type 0 where
  pub elf : Bytes
  pub program_headers : List Bytes
  pub section_headers : List Bytes

-- A round of the loop over the segments.
unfoldable pub place : Built → Segment → Built
unfolding program_header section_header
place b s =
    let current_offset = length b.elf in
    record {
      elf = b.elf ++ s.bytes;
      program_headers = b.program_headers ++ program_header current_offset s ∷ [];
      section_headers =
          if s.executable
          then b.section_headers ++ section_header current_offset s ∷ []
          else b.section_headers;
    }

unfoldable pub place_all : Built → List Segment → Built
unfolding place
place_all b [] = b
place_all b (s ∷ segments) = place_all (place b s) segments

-- `while elf.len() % 4 != 0`: it ends after three rounds at most, which the fuel stands for.
unfoldable pub align4 : ℕ → Bytes → Bytes
align4 zero elf = elf
align4 (suc fuel) elf =
    let rest = align4 fuel (elf ++ 0 ∷ []) in if length elf % 4 == 0 then elf else rest

-- `LittleEndian::write_u64(&mut elf[offset..offset + 8], _)` and the like.
unfoldable pub write_at : ℕ → Bytes → Bytes → Bytes
write_at offset written elf = take offset elf ++ written ++ drop (offset + length written) elf

unfoldable pub extend_all : Bytes → List Bytes → Bytes
extend_all elf [] = elf
extend_all elf (header ∷ headers) = extend_all (elf ++ header) headers

-- The two parts at the end: the program headers and the section headers.
unfoldable pub put_program_headers : Built → Bytes
unfolding align4 write_at extend_all
put_program_headers b =
    let elf = align4 3 b.elf in
    let elf' = write_at program_header_offset (to_le_bytes 8 (length elf)) elf in
    extend_all
      (write_at program_header_number_offset (to_le_bytes 2 (length b.program_headers)) elf')
      b.program_headers

unfoldable pub put_section_headers : List Bytes → Bytes → Bytes
unfolding align4 write_at extend_all
put_section_headers section_headers unaligned =
    let elf = align4 3 unaligned in
    let elf' = write_at section_header_offset (to_le_bytes 8 (length elf)) elf in
    extend_all (write_at section_header_number_offset (to_le_bytes 2 (length section_headers)) elf')
      section_headers

-- The whole file, from the address where it starts to run.
unfoldable pub build : ℕ → List Segment → Bytes
unfolding elf_header string_table string_table_section_header place_all put_program_headers
    put_section_headers
build entry segments =
    let header = elf_header entry in
    let b =
      place_all
        (record {
          elf = header ++ string_table;
          program_headers = [];
          section_headers = string_table_section_header (length header) ∷ [];
        })
        segments in
    put_section_headers b.section_headers (put_program_headers b)
