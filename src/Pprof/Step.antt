-- ===== src/Pprof/Step.antt =====
-- `Profile::step` (ckb-vm-pprof/src/lib.rs): what the profiler does with one instruction, before
-- the machine executes it.
pub mod Moves
pub mod Totals
use ckb_standalone_debugger.Prelude.{
  ℕ, ◌+◌, ◌-◌, ◌%◌, Bool, Option, none, some, List, [], ◌∷◌, ◌++◌, map, ok, err, panic, ltb, ◌==◌,
  ◌||◌, if◌then◌else◌, range,
}
use ckb_standalone_debugger.Prelude.Format.{codes, decimal}
use ckb_standalone_debugger.Vm.{
  Vm, VmError, VmResult, external, u64_mod, sp, riscv_general_register_number,
}
use ckb_standalone_debugger.Pprof.Trie.{Registers, Trie, charge, call, quit_or_skip}
use ckb_standalone_debugger.Pprof.Symbols.{Profile, contains_key}

-- `& 0xfffffffffffffffe`
abbrev pub clear_low_bit : ℕ → ℕ
clear_low_bit x = x - x % 2

module _ {M D I : Type 0} (vm : Vm M D I) where
  -- The registers that `call` and `quit_or_skip` copy.
  unfoldable pub copy_registers : M → Registers
  copy_registers m = map (vm.registers m) (range riscv_general_register_number)

  -- Where a jump goes, by its opcode; `none` for an instruction that is no jump.
  unfoldable pub jump_target : I → ℕ → M → Option ℕ
  jump_target inst pc m =
      let opcode = vm.extract_opcode inst in
      if opcode == vm.op_jal
      then some (clear_low_bit ((pc + vm.utype_immediate inst) % u64_mod))
      else if (opcode == vm.op_jalr_version0) || (opcode == vm.op_jalr_version1)
      then some
          (clear_low_bit ((vm.registers m (vm.itype_rs1 inst) + vm.itype_immediate inst) % u64_mod))
      else if opcode == vm.op_far_jump_abs
      then some (clear_low_bit (vm.utype_immediate inst))
      else if opcode == vm.op_far_jump_rel
      then some (clear_low_bit ((pc + vm.utype_immediate inst) % u64_mod))
      else none

  -- A jump to the entry of a function is a call, any other may be a return.
  unfoldable pub jump : Profile → I → ℕ → M → Option ℕ → VmResult Profile
  unfolding copy_registers
  jump p inst pc m none = ok p
  jump p inst pc m (some addr) =
      let link = (pc + vm.instruction_length inst) % u64_mod in
      if contains_key p.cache_fun addr
      then ok (record p { trie = call addr link pc (copy_registers m) p.trie })
      else elim (quit_or_skip addr (copy_registers m) p.trie) [
        | ok t ↦ ok (record p { trie = t })
        | err e ↦ err e
        | panic ↦ panic
      ]

  -- The message of the overlap of heap and stack.
  unfoldable pub overlap : ℕ → ℕ → VmError
  overlap s heap =
      external
        (codes "Heap and stack overlapping sp=" ++ decimal s ++ codes " heap=" ++ decimal heap)

  -- After the decoder: charge the current frame, and follow a jump.
  unfoldable pub account : Profile → I → ℕ → M → VmResult Profile
  unfolding jump jump_target
  account p inst pc m =
      jump (record p { trie = charge (vm.instruction_cycle inst) pc p.trie }) inst pc m
        (jump_target inst pc m)

  unfoldable pub step : Profile → D → M → VmResult Profile × D × M
  unfolding account overlap
  step p d m =
      let pc = vm.pc m in
      if ltb (vm.registers m sp) p.trie.sbrk_heap
      then (err (overlap (vm.registers m sp) p.trie.sbrk_heap), d, m)
      else let (decoded, d', m') = vm.decode d m pc in
        (elim decoded [ ok inst ↦ account p inst pc m' | err e ↦ err e | panic ↦ panic ], d', m')
