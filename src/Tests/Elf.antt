-- ===== src/Tests/Elf.antt =====
-- The dumper on a small memory, and jumps.
use ckb_standalone_debugger.Prelude.{
  ℕ, ◌*◌, ◌≡◌, refl, true, false, List, [], ◌∷◌, ◌++◌, Bytes, ok, err, panic, arith, ◌==◌,
  if◌then◌else◌, inl,
}
use ckb_standalone_debugger.Vm.{VmResult}
use ckb_standalone_debugger.Elf.Segments.{Segment, Paged, scan_page, collect}
use ckb_standalone_debugger.Elf.Segments.Layout.{flat, Ordered, Pure}
use ckb_standalone_debugger.Elf.Segments.Flat.{in_memory, collect-Holds}
use ckb_standalone_debugger.Elf.Restore.{in_reach, jump_instruction}
use ckb_standalone_debugger.Elf.Restore.Jump.{
  jal_offset, jal_offset-jump_instruction, jump_instruction-far,
}
use ckb_standalone_debugger.Elf.Image.{build}
use ckb_standalone_debugger.Elf.Image.Headers.{load}
use ckb_standalone_debugger.Elf.Image.Loaded.{load-build}
use ckb_standalone_debugger.Elf.Dump.{Dumped, in_order, image_of}
use ckb_standalone_debugger.Elf.Dump.Loads.{InFront, load-image_of_Pure}

abbrev Still : Type 0
Still = Unit {0}

-- Three pages of 512 bytes; the third starts with two words and has one more.
abbrev word : ℕ → ℕ
word a = if a == 1024 then 0x6f else if a == 1032 then 258 else if a == 1520 then 9 else 0

abbrev small_memory : Paged Still
small_memory = record {
  pages = 3;
  page_size = 512;
  load64 = λ a m. (ok (word a), m);
  fetch_flag = λ page m. (ok (if page == 2 then 2 else 0), m);
  is_executable = λ flags. flags == 2;
}

abbrev small_memory_Pure : Pure small_memory tt
small_memory_Pure = record {
  word = word;
  flags = λ page. if page == 2 then 2 else 0;
  page_words = 64;
  load64_is = λ a. refl;
  fetch_flag_is = λ page. refl;
  page_size_is = refl;
  fits = omega arith;
}

collect-Holds_example :
    (segments : List Segment) × (collect small_memory 64 tt ≡ (ok segments, tt))
    × (flat segments (8 * (3 * 64)) ≡ in_memory small_memory tt small_memory_Pure (3 * 64))
    × Ordered segments (8 * (3 * 64))
collect-Holds_example = collect-Holds small_memory tt small_memory_Pure 64

jal_offset-jump_instruction_example : jal_offset (jump_instruction 0xfff36) ≡ 0xfff36
jal_offset-jump_instruction_example = jal_offset-jump_instruction 0xfff36 refl (inl (omega arith))

jump_instruction-far_example :
    (in_reach 0x100036 ≡ true) × (jal_offset (jump_instruction 0x100036) ≡ 0xfffffffffff00036)
jump_instruction-far_example = jump_instruction-far 0x100036 refl (omega arith) (omega arith)

abbrev two_segments : List Segment
two_segments =
    record { start = 4096; bytes = 1 ∷ 2 ∷ 3 ∷ []; executable = true }
    ∷ record { start = 8192; bytes = 4 ∷ 5 ∷ []; executable = false }
    ∷ []

load-build_example : load (build 256 two_segments) ≡ two_segments
load-build_example =
    load-build 256 two_segments (omega arith) (omega arith) (omega arith, (omega arith, tt))

abbrev small_dump : Dumped Still Still
small_dump = record {
  memory = small_memory;
  registers = λ m i. i * 3;
  pc = λ m. 1032;
  write_file = λ name bytes f. (ok tt, f);
}

abbrev ok_or : {A : Type 0} → A → VmResult A → A
ok_or d (ok a) = a
ok_or d (err e) = d
ok_or d panic = d

abbrev collected : List Segment
unfolding collect scan_page
collected = ok_or [] ((collect small_memory 64 tt).0)

abbrev small_elf : Bytes
unfolding image_of collect scan_page
small_elf = ok_or [] (image_of small_dump (in_order collected []) tt)

run_collect : collect small_memory 64 tt ≡ (ok collected, tt)
unfolding collect scan_page
run_collect = refl

run_image : image_of small_dump (in_order collected []) tt ≡ ok small_elf
unfolding image_of collect scan_page
run_image = refl

load-image_of_Pure_example :
    (s : Segment) × (load small_elf ≡ in_order collected [] ++ s ∷ [])
    × InFront (in_order collected []) s
    × (flat collected (8 * (3 * 64)) ≡ in_memory small_memory tt small_memory_Pure (3 * 64))
unfolding collect scan_page
load-image_of_Pure_example =
    load-image_of_Pure small_dump tt small_memory_Pure 64 collected small_elf run_collect run_image
      (omega arith) (omega arith)
