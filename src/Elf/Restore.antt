-- ===== src/Elf/Restore.antt =====
-- The code that sets the registers and jumps to where the program was
-- (ckb-vm-debug-utils/src/elf_dumper.rs). A 64-bit number wraps around. The fields that the code
-- joins by `|` have no bit in common: they are added.
pub mod Jump
use ckb_standalone_debugger.Prelude.{
  ℕ, zero, suc, ◌+◌, ◌-◌, ◌*◌, ◌/◌, ◌%◌, ◌^◌, ◌==◌, ◌||◌, Bool, List, [], ◌∷◌, ◌++◌, Bytes,
  to_le_bytes,
}
use ckb_standalone_debugger.Vm.{u64_mod}

-- 64-bit and 32-bit numbers, one after the other.
unfoldable pub put_all : ℕ → List ℕ → Bytes
put_all size [] = []
put_all size (v ∷ vs) = to_le_bytes size v ++ put_all size vs

-- `&machine.registers()[1..]`, from register `i` on
unfoldable pub registers_from : ℕ → ℕ → (ℕ → ℕ) → List ℕ
registers_from zero i registers = []
registers_from (suc left) i registers = registers i ∷ registers_from left (i + 1) registers

-- auipc a0, 0x0; addi a0, a0, -256; then a load for each register, the one of a0 last
abbrev pub restore_code : List ℕ
restore_code =
    0x00000517 ∷ 0xf0050513 ∷ 0x00853083 ∷ 0x01053103 ∷ 0x01853183 ∷ 0x02053203 ∷ 0x02853283
    ∷ 0x03053303 ∷ 0x03853383 ∷ 0x04053403 ∷ 0x04853483 ∷ 0x05853583 ∷ 0x06053603 ∷ 0x06853683
    ∷ 0x07053703 ∷ 0x07853783 ∷ 0x08053803 ∷ 0x08853883 ∷ 0x09053903 ∷ 0x09853983 ∷ 0x0a053a03
    ∷ 0x0a853a83 ∷ 0x0b053b03 ∷ 0x0b853b83 ∷ 0x0c053c03 ∷ 0x0c853c83 ∷ 0x0d053d03 ∷ 0x0d853d83
    ∷ 0x0e053e03 ∷ 0x0e853e83 ∷ 0x0f053f03 ∷ 0x0f853f83 ∷ 0x05053503 ∷ []

-- The values of the registers, and where the code behind them starts.
unfoldable pub register_values : (ℕ → ℕ) → Bytes
unfolding put_all registers_from
register_values registers = put_all 8 (registers_from 31 1 registers)

unfoldable pub register_buffer : (ℕ → ℕ) → Bytes
unfolding register_values put_all
register_buffer registers = register_values registers ++ put_all 4 restore_code

-- `machine.pc().to_u64() - jump_instruction_pc`
unfoldable pub jump_offset_from : ℕ → ℕ → ℕ
jump_offset_from pc jump_instruction_pc = (pc + u64_mod - jump_instruction_pc) % u64_mod

-- `jump_offset & 0xFFFFFFFFFFE00001`: the bits from 21 on, and bit 0
unfoldable pub masked : ℕ → ℕ
masked jump_offset = jump_offset / 2 ^ 21 * 2 ^ 21 + jump_offset % 2

unfoldable pub in_reach : ℕ → Bool
unfolding masked
in_reach jump_offset = masked jump_offset == 0 || masked jump_offset == 0xFFFFFFFFFFE00000

-- `jal x0, jump_offset`
unfoldable pub jump_instruction : ℕ → ℕ
jump_instruction jump_offset =
    0b1101111
    + jump_offset / 2 ^ 12 % 2 ^ 8 * 2 ^ 12
    + jump_offset / 2 ^ 11 % 2 * 2 ^ 20
    + jump_offset / 2 % 2 ^ 10 * 2 ^ 21
    + jump_offset / 2 ^ 20 % 2 * 2 ^ 31
