-- ===== src/Gdbstub/Access.antt =====
-- The copies of registers and memory in `GdbStubHandler`: `SingleThreadBase` and
-- `SingleRegisterAccess` (ckb-vm-debug-utils/src/gdbstub.rs), for 64-bit registers.
pub mod Copies
use ckb_standalone_debugger.Prelude.{
  ℕ, zero, suc, ◌+◌, ◌-◌, ◌%◌, Bool, List, [], ◌∷◌, ◌++◌, map, range, replicate, length, Bytes,
  Outcome, ok, err, panic, ltb, ◌==◌, if◌then◌else◌, to_le_bytes, from_le_bytes,
}
use ckb_standalone_debugger.Prelude.Format.{codes}
use ckb_standalone_debugger.Vm.{
  Vm, VmError, VmResult, external, u64_mod, riscv_general_register_number,
}
use ckb_standalone_debugger.Gdbstub.State.{GdbStubHandler}

-- `gdbstub_arch`'s `RiscvCoreRegs`
pub record RiscvCoreRegs : Type 0 where
  pub x : List ℕ
  pub pc : ℕ

-- `gdbstub_arch`'s `RiscvRegId`: `other_register` has what `{:?}` writes for the rest.
pub data RiscvRegId : Type 0 where
  pc_register : RiscvRegId
  gpr : ℕ → RiscvRegId
  other_register : Bytes → RiscvRegId

module _ {M D I : Type 0} (vm : Vm M D I) where
  -- Every register is copied over what `regs` held.
  unfoldable pub read_registers : GdbStubHandler M D → VmResult RiscvCoreRegs
  read_registers h = ok (record {
    x = map (vm.registers h.machine) (range riscv_general_register_number);
    pc = vm.pc h.machine;
  })

  -- The loop of `write_registers`, from the register `i` on.
  unfoldable pub set_registers : ℕ → List ℕ → M → M
  set_registers i [] m = m
  set_registers i (val ∷ vals) m = set_registers (i + 1) vals (vm.set_register i val m)

  unfoldable pub write_registers :
      RiscvCoreRegs → GdbStubHandler M D → VmResult (Unit {0}) × GdbStubHandler M D
  unfolding set_registers
  write_registers regs h = (
    ok tt,
    record h { machine = vm.commit_pc (vm.update_pc regs.pc (set_registers 0 regs.x h.machine)) },
  )

  -- The loop of `read_addrs`: `n` bytes, from the `i`-th on.
  unfoldable pub read_bytes_from : ℕ → ℕ → ℕ → M → VmResult Bytes × M
  read_bytes_from zero i start m = (ok [], m)
  read_bytes_from (suc n) i start m =
      let (loaded, m') = vm.load8 ((start + i) % u64_mod) m in
      elim loaded [
        | ok value ↦
            let (rest, m'') = read_bytes_from n (i + 1) start m' in
            (
              elim rest [ ok values ↦ ok ((value % 256) ∷ values) | err e ↦ err e | panic ↦ panic ],
              m'',
            )
        | err e ↦ (err e, m')
        | panic ↦ (panic, m')
      ]

  unfoldable pub read_addrs : ℕ → ℕ → GdbStubHandler M D → VmResult Bytes × GdbStubHandler M D
  unfolding read_bytes_from
  read_addrs start n h =
      let (result, m) = read_bytes_from n 0 start h.machine in (result, record h { machine = m })

  unfoldable pub write_addrs :
      ℕ → Bytes → GdbStubHandler M D → VmResult (Unit {0}) × GdbStubHandler M D
  write_addrs start data_ h =
      let (result, m) = vm.store_bytes start data_ h.machine in (result, record h { machine = m })

  abbrev invalid_register : Bytes → VmError
  invalid_register shown = external (codes "Invalid register id: " ++ shown)

  -- `copy_from_slice` into the buffer panics unless the buffer has eight bytes.
  unfoldable pub copy_value : ℕ → ℕ → VmResult Bytes
  copy_value value room = if room == 8 then ok (to_le_bytes 8 value) else panic

  -- The bytes that are copied into a buffer of `room` bytes. A register out of range is a panic.
  unfoldable pub read_register : RiscvRegId → ℕ → GdbStubHandler M D → VmResult Bytes
  unfolding copy_value
  read_register pc_register room h = copy_value (vm.pc h.machine) room
  read_register (gpr idx) room h =
      if ltb idx riscv_general_register_number
      then copy_value (vm.registers h.machine idx) room
      else panic
  read_register (other_register shown) room h = err (invalid_register shown)

  -- `u64_buf[0..val.len()].copy_from_slice(val)` in eight zeroes
  abbrev pub filled : Bytes → Bytes
  filled val = val ++ replicate (8 - length val) 0

  -- What follows for a value that fits.
  unfoldable pub set_value :
      RiscvRegId → ℕ → GdbStubHandler M D → VmResult (Unit {0}) × GdbStubHandler M D
  set_value pc_register v h =
      (ok tt, record h { machine = vm.commit_pc (vm.update_pc v h.machine) })
  set_value (gpr idx) v h =
      if ltb idx riscv_general_register_number
      then (ok tt, record h { machine = vm.set_register idx v h.machine })
      else (panic, h)
  set_value (other_register shown) v h = (err (invalid_register shown), h)

  unfoldable pub write_register :
      RiscvRegId → Bytes → GdbStubHandler M D → VmResult (Unit {0}) × GdbStubHandler M D
  unfolding set_value
  write_register reg_id val h =
      if ltb 8 (length val) then (panic, h) else set_value reg_id (from_le_bytes (filled val)) h
