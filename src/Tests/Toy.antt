-- ===== src/Tests/Toy.antt =====
-- A small machine that meets what the theorems assume of ckb-vm.
use ckb_standalone_debugger.Prelude.{
  ℕ, ◌+◌, ◌%◌, refl, Bool, true, false, List, [], ◌∷◌, ◌==◌, ltb, if◌then◌else◌, arith, ok, err,
  panic, Bytes, ◌^◌,
}
use ckb_standalone_debugger.Vm.{Vm, VmResult, fault, RegisterLaws}

pub record Instruction : Type 0 where
  pub opcode : ℕ
  pub rs1 : ℕ
  pub immediate : ℕ
  pub cost : ℕ

pub record Toy : Type 0 where
  pub counter : ℕ
  pub next_counter : ℕ
  pub file : ℕ → ℕ
  pub memory : ℕ → ℕ
  pub alive : Bool
  pub spent : ℕ
  pub program : List (ℕ × Instruction)

abbrev fetch : List (ℕ × Instruction) → ℕ → VmResult Instruction
fetch [] a = err (fault 1)
fetch ((k, i) ∷ p) a = if k == a then ok i else fetch p a

-- Opcode 1 jumps to the immediate, 2 to a register, 5 stops and any other goes on.
abbrev perform : Instruction → Toy → Toy
perform i m = record m {
  spent = m.spent + i.cost;
  alive = if i.opcode == 5 then false else true;
  counter =
      if i.opcode == 1
      then (m.counter + i.immediate) % 2 ^ 64
      else if i.opcode == 2
      then m.file i.rs1
      else m.counter + 4;
}

abbrev execute : VmResult Instruction → Toy → VmResult (Unit {0}) × Unit {0} × Toy
execute (ok i) m = (ok tt, tt, perform i m)
execute (err e) m = (err e, tt, m)
execute panic m = (panic, tt, m)

abbrev pub store : ℕ → Bytes → (ℕ → ℕ) → ℕ → ℕ
store a [] mem k = mem k
store a (b ∷ bs) mem k = if k == a then b else store (a + 1) bs mem k

-- Addresses from 4096 on fault.
abbrev pub toy_vm : Vm Toy (Unit {0}) Instruction
toy_vm = record {
  pc = λ m. m.counter;
  registers = λ m. m.file;
  set_register = λ i v m. record m { file = λ k. if k == i then v else m.file k };
  update_pc = λ v m. record m { next_counter = v };
  commit_pc = λ m. record m { counter = m.next_counter };
  running = λ m. m.alive;
  set_running = λ b m. record m { alive = b };
  reset_signal = λ m. (false, m);
  exit_code = λ m. 0;
  isa = λ m. 0;
  version = λ m. 1;
  code = λ m. [];
  cycles = λ m. m.spent;
  add_cycles = λ n m. (ok tt, record m { spent = m.spent + n });
  build_decoder = λ isa version. tt;
  reset_instructions_cache = λ d. d;
  decode = λ d m a. (fetch m.program a, d, m);
  instruction_cycle = λ i. i.cost;
  step = λ d m. execute (fetch m.program m.counter) m;
  extract_opcode = λ i. i.opcode;
  instruction_length = λ i. 4;
  utype_immediate = λ i. i.immediate;
  itype_immediate = λ i. 0;
  itype_rs1 = λ i. i.rs1;
  op_jal = 1;
  op_jalr_version0 = 2;
  op_jalr_version1 = 6;
  op_far_jump_abs = 3;
  op_far_jump_rel = 4;
  op_ecall = 5;
  isa_mop = λ isa. false;
  load8 = λ a m. (if ltb a 4096 then ok (m.memory a % 256) else err (fault 2), m);
  load64 = λ a m. (if ltb a 4096 then ok (m.memory a) else err (fault 2), m);
  store_bytes = λ a bs m.
      if ltb a 4096 then (ok tt, record m { memory = store a bs m.memory }) else (err (fault 3), m);
}

pub toy_registers : RegisterLaws toy_vm
toy_registers = record {
  registers-set_register_self = λ i v m h. ground arith;
  registers-set_register_ne = λ i j v m h. ground arith;
  pc-set_register = λ i v m. refl;
  pc-commit_pc = λ v m. refl;
  registers-commit_pc = λ i v m. refl;
}
