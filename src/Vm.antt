-- ===== src/Vm.antt =====
-- ckb-vm, the RISC-V virtual machine that the debuggers drive. It is another package: a record of
-- the operations that this repository calls, an argument of every definition that uses one.
use ckb_standalone_debugger.Prelude.{ℕ, ◌<◌, ◌^◌, ◌≡◌, ◌≢◌, Bool, Bytes, Outcome}

-- `ckb_vm::Error`: the variants that this repository builds, and the machine's own.
pub data VmError : Type 0 where
  external : Bytes → VmError
  invalid_version : VmError
  unexpected : Bytes → VmError
  fault : ℕ → VmError

abbrev pub VmResult : Type 0 → Type 0
VmResult A = Outcome VmError A

-- `u64` arithmetic wraps around.
abbrev pub u64_mod : ℕ
u64_mod = 2 ^ 64

-- -1, as a register holds it
abbrev pub minus_one : ℕ
minus_one = 18446744073709551615

-- The ABI's register numbers.
abbrev pub sp : ℕ
sp = 2

abbrev pub a0 : ℕ
a0 = 10

abbrev pub a1 : ℕ
a1 = 11

abbrev pub a2 : ℕ
a2 = 12

abbrev pub a3 : ℕ
a3 = 13

abbrev pub a7 : ℕ
a7 = 17

abbrev pub riscv_general_register_number : ℕ
riscv_general_register_number = 32

-- `M` is a machine with its memory, `D` a decoder with its instruction cache and `I` a decoded
-- instruction. An operation that takes `&mut` returns the new machine.
pub record Vm (M D I : Type 0) : Type 0 where
  pub pc : M → ℕ
  pub registers : M → ℕ → ℕ
  pub set_register : ℕ → ℕ → M → M
  pub update_pc : ℕ → M → M
  pub commit_pc : M → M
  pub running : M → Bool
  pub set_running : Bool → M → M
  -- `reset_signal` reads the flag and clears it.
  pub reset_signal : M → Bool × M
  -- the bit pattern of the `i8`
  pub exit_code : M → ℕ
  pub isa : M → ℕ
  pub version : M → ℕ
  pub code : M → Bytes
  pub cycles : M → ℕ
  pub add_cycles : ℕ → M → VmResult (Unit {0}) × M
  pub build_decoder : ℕ → ℕ → D
  pub reset_instructions_cache : D → D
  pub decode : D → M → ℕ → VmResult I × D × M
  pub instruction_cycle : I → ℕ
  pub step : D → M → VmResult (Unit {0}) × D × M
  pub extract_opcode : I → ℕ
  pub instruction_length : I → ℕ
  -- `immediate_s() as u64`, sign extended, by the format of the instruction
  pub utype_immediate : I → ℕ
  pub itype_immediate : I → ℕ
  pub itype_rs1 : I → ℕ
  pub op_jal : ℕ
  pub op_jalr_version0 : ℕ
  pub op_jalr_version1 : ℕ
  pub op_far_jump_abs : ℕ
  pub op_far_jump_rel : ℕ
  pub op_ecall : ℕ
  pub isa_mop : ℕ → Bool
  pub load8 : ℕ → M → VmResult ℕ × M
  pub load64 : ℕ → M → VmResult ℕ × M
  pub store_bytes : ℕ → Bytes → M → VmResult (Unit {0}) × M

-- A register file: what `set_register` wrote is read back, and nothing else moves.
pub record RegisterLaws {M D I : Type 0} (vm : Vm M D I) : Type 0 where
  pub registers-set_register_self :
      (i v : ℕ) (m : M)
      → i < riscv_general_register_number
      → vm.registers (vm.set_register i v m) i ≡ v
  pub registers-set_register_ne :
      (i j v : ℕ) (m : M) → i ≢ j → vm.registers (vm.set_register i v m) j ≡ vm.registers m j
  pub pc-set_register : (i v : ℕ) (m : M) → vm.pc (vm.set_register i v m) ≡ vm.pc m
  pub pc-commit_pc : (v : ℕ) (m : M) → vm.pc (vm.commit_pc (vm.update_pc v m)) ≡ v
  pub registers-commit_pc :
      (i v : ℕ) (m : M) → vm.registers (vm.commit_pc (vm.update_pc v m)) i ≡ vm.registers m i
