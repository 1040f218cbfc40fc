-- ===== src/Elf/Dump.antt =====
-- `ElfDumper::ecall` (ckb-vm-debug-utils/src/elf_dumper.rs). The file system is a parameter.
pub mod Loads
use ckb_standalone_debugger.Prelude.{
  ℕ, ◌+◌, ◌-◌, ◌==◌, not, Bool, true, false, List, [], ◌∷◌, ◌++◌, Bytes, length, if◌then◌else◌, leb,
  ltb, ok, err, panic, to_le_bytes,
}
use ckb_standalone_debugger.Prelude.Format.{codes}
use ckb_standalone_debugger.Vm.{VmResult, unexpected, a7}
use ckb_standalone_debugger.Elf.Segments.{Segment, Paged, first_page_address, collect, then_do}
use ckb_standalone_debugger.Elf.Restore.{
  register_values, register_buffer, jump_offset_from, in_reach, jump_instruction,
}
use ckb_standalone_debugger.Elf.Image.{build}

pub record ElfDumper : Type 0 where
  pub dump_file_name : Bytes
  pub syscall_number : ℕ
  pub maximum_zero_gap : ℕ

-- The vector of segments, with the last one first, in order.
abbrev pub in_order : List Segment → List Segment → List Segment
in_order [] done = done
in_order (s ∷ segments) done = in_order segments (s ∷ done)

-- What the dumper needs besides the memory: the registers, and `File::create` with `write_all`.
pub record Dumped (M F : Type 0) : Type 0 where
  pub memory : Paged M
  pub registers : M → ℕ → ℕ
  pub pc : M → ℕ
  pub write_file : Bytes → Bytes → F → VmResult (Unit {0}) × F

module _ {M F : Type 0} (env : Dumped M F) where
  -- From the registers on: the segment that restores them, and the address where it starts to run.
  unfoldable pub restoring : Segment → M → VmResult (Segment × ℕ)
  unfolding first_page_address register_values register_buffer jump_offset_from in_reach
      jump_instruction
  restoring first m =
      let register_buffer_start = first_page_address env.memory first - env.memory.page_size in
      let entry = register_buffer_start + length (register_values (env.registers m)) in
      let code = register_buffer (env.registers m) in
      let jump_offset = jump_offset_from (env.pc m) (register_buffer_start + length code) in
      let all = code ++ to_le_bytes 4 (jump_instruction jump_offset) in
      if not (in_reach jump_offset)
      then err (unexpected (codes "Unexpected masked"))
      else if not (ltb (length all) env.memory.page_size)
      then panic
      else ok (record { start = register_buffer_start; bytes = all; executable = true }, entry)

  -- The segments that were collected, in order.
  unfoldable pub image_of : List Segment → M → VmResult Bytes
  unfolding restoring build
  image_of [] m = err (unexpected (codes "Unexpected segments"))
  image_of (first ∷ more) m =
      if leb first.start env.memory.page_size
      then err (unexpected (codes "Unexpected segments"))
      else elim (restoring first m) [
        | ok (segment, entry) ↦ ok (build entry ((first ∷ more) ++ segment ∷ []))
        | err e ↦ err e
        | panic ↦ panic
      ]

  -- `file.write_all(&elf)`
  unfoldable pub write_image : ElfDumper → VmResult Bytes → F → VmResult Bool × F
  write_image d (err e) f = (err e, f)
  write_image d panic f = (panic, f)
  write_image d (ok elf) f =
      let (written, f') = env.write_file d.dump_file_name elf f in
      elim written [ ok _ ↦ (ok true, f') | err e ↦ (err e, f') | panic ↦ (panic, f') ]

  -- What follows the collecting of the segments.
  unfoldable pub after_collect : ElfDumper → VmResult (List Segment) → M → F → VmResult Bool × F
  unfolding image_of write_image
  after_collect d (err e) m f = (err e, f)
  after_collect d panic m f = (panic, f)
  after_collect d (ok segments) m f = write_image d (image_of (in_order segments []) m) f

  unfoldable pub ecall : ElfDumper → M → F → VmResult Bool × M × F
  unfolding collect after_collect
  ecall d m f =
      let (segments, m') = collect env.memory d.maximum_zero_gap m in
      let (result, f') = after_collect d segments m' f in
      if env.registers m a7 == d.syscall_number then (result, m', f') else (ok false, m, f)
