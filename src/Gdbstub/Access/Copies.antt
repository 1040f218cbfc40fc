-- ===== src/Gdbstub/Access/Copies.antt =====
-- What is written into registers is read back.
use ckb_standalone_debugger.Prelude.{
  map-append, ℕ, zero, suc, ◌+◌, ◌<◌, ◌≤◌, ◌≡◌, refl, ◌∙◌, ap, subst, List, [], ◌∷◌, ◌++◌, map,
  range, length, take, get_or, Bytes, ok, ltb, arith, Bool-cases, inl, inr, Octets, to_le_bytes,
  from_le_bytes, to_le_bytes-from_le_bytes, ltb→lt, append-nil,
}
use ckb_standalone_debugger.Vm.{Vm, riscv_general_register_number, RegisterLaws}
use ckb_standalone_debugger.Gdbstub.State.{GdbStubHandler}
use ckb_standalone_debugger.Gdbstub.Access.{
  RiscvCoreRegs, RiscvRegId, pc_register, gpr, other_register, read_registers, set_registers,
  write_registers, copy_value, read_register, set_value, write_register,
}

take-suc : (xs : List ℕ) (n : ℕ) → n < length xs → take n xs ++ get_or xs n 0 ∷ [] ≡ take (suc n) xs
take-suc [] n h = absurd (omega arith)
take-suc (x ∷ xs) zero h = refl
take-suc (x ∷ xs) (suc n) h = ap (λ l. x ∷ l) (take-suc xs n (omega arith))

map-range :
    (f : ℕ → ℕ) (xs : List ℕ) (n : ℕ)
    → n ≤ length xs
    → ((k : ℕ) → k < n → f k ≡ get_or xs k 0)
    → map f (range n) ≡ take n xs
map-range f xs zero h same = refl
map-range f xs (suc n) h same =
    map-append f (range n) (n ∷ [])
    ∙ rw (map-range f xs n (omega arith) (λ k l. same k (omega arith)), same n (omega arith))
        (take-suc xs n (omega arith))

take-length : (xs : List ℕ) → take (length xs) xs ≡ xs
take-length [] = refl
take-length (x ∷ xs) = ap (λ l. x ∷ l) (take-length xs)

module _ {M D I : Type 0} (vm : Vm M D I) (laws : RegisterLaws vm) where
  set_registers-below :
      (vals : List ℕ) (i j : ℕ) (m : M)
      → j < i
      → vm.registers (set_registers vm i vals m) j ≡ vm.registers m j
  unfolding set_registers
  set_registers-below [] i j m h = refl
  set_registers-below (v ∷ vals) i j m h =
      set_registers-below vals (i + 1) j (vm.set_register i v m) (omega arith)
      ∙ laws.registers-set_register_ne i j v m (λ e. absurd (omega arith))

  set_registers-at :
      (vals : List ℕ) (i k : ℕ) (m : M)
      → k < length vals
      → i + length vals ≤ riscv_general_register_number
      → vm.registers (set_registers vm i vals m) (i + k) ≡ get_or vals k 0
  unfolding set_registers
  set_registers-at [] i k m h fits = absurd (omega arith)
  set_registers-at (v ∷ vals) i zero m h fits =
      subst (λ j. vm.registers (set_registers vm (i + 1) vals (vm.set_register i v m)) j ≡ v)
        (omega arith)
        (set_registers-below vals (i + 1) i (vm.set_register i v m) (omega arith)
          ∙ laws.registers-set_register_self i v m (omega arith))
  set_registers-at (v ∷ vals) i (suc k) m h fits =
      subst
        (λ j.
          vm.registers (set_registers vm (i + 1) vals (vm.set_register i v m)) j ≡ get_or vals k 0)
        (omega arith)
        (set_registers-at vals (i + 1) k (vm.set_register i v m) (omega arith) (omega arith))

  -- With the laws of the register file, 32 registers and a program counter that are written to the
  -- target are read back.
  pub read-write_registers :
      (regs : RiscvCoreRegs) (h : GdbStubHandler M D)
      → length regs.x ≡ riscv_general_register_number
      → read_registers vm (write_registers vm regs h).1 ≡ ok regs
  unfolding read_registers write_registers
  read-write_registers regs h all =
      let m = set_registers vm 0 regs.x h.machine in
      let at_k : (k : ℕ)
          → k < 32
          → vm.registers (vm.commit_pc (vm.update_pc regs.pc m)) k ≡ get_or regs.x k 0 =
        λ k l.
          laws.registers-commit_pc k regs.pc m
          ∙ subst (λ j. vm.registers m j ≡ get_or regs.x k 0) (omega arith)
              (set_registers-at regs.x 0 k h.machine (omega arith) (omega arith)) in
      let copied =
        map-range _ regs.x 32 (omega arith) at_k
        ∙ subst (λ n. take n regs.x ≡ regs.x) all (take-length regs.x) in
      rw (laws.pc-commit_pc regs.pc m) (ap (λ l. ok (record regs { x = l })) copied)

  set_value_lem :
      (reg_id : RiscvRegId) (v : ℕ) (h : GdbStubHandler M D)
      → (set_value vm reg_id v h).0 ≡ ok tt
      → read_register vm reg_id 8 (set_value vm reg_id v h).1 ≡ ok (to_le_bytes 8 v)
  unfolding read_register copy_value set_value
  set_value_lem pc_register v h e = rw (laws.pc-commit_pc v h.machine) refl
  set_value_lem (gpr idx) v h e = elim (Bool-cases (ltb idx riscv_general_register_number)) [
    | inl there ↦
        rw (there, set_value, laws.registers-set_register_self idx v h.machine (ltb→lt _ _ there))
          refl
    | inr out ↦ absurd (cc (rw (out, set_value) at e))
  ]
  set_value_lem (other_register shown) v h e = cc

  write_register-set_value :
      (reg_id : RiscvRegId) (val : Bytes) (h : GdbStubHandler M D)
      → length val ≡ 8
      → write_register vm reg_id val h ≡ set_value vm reg_id (from_le_bytes val) h
  unfolding write_register
  write_register-set_value reg_id val h eight = rw (eight, append-nil) refl

  -- A register that was written with eight bytes reads back as these, in a buffer of eight bytes.
  pub read-write_value :
      (reg_id : RiscvRegId) (val : Bytes) (h : GdbStubHandler M D)
      → length val ≡ 8
      → Octets val
      → (write_register vm reg_id val h).0 ≡ ok tt
      → read_register vm reg_id 8 (write_register vm reg_id val h).1 ≡ ok val
  read-write_value reg_id val h eight octets e =
      let coded =
        subst (λ n. to_le_bytes n (from_le_bytes val) ≡ val) eight
          (to_le_bytes-from_le_bytes val octets) in
      let set = write_register-set_value reg_id val h eight in
      rw set (set_value_lem reg_id (from_le_bytes val) h (rw set at e)) ∙ ap ok coded
