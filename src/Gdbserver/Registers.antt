-- ===== src/Gdbserver/Registers.antt =====
-- The register methods of `GdbHandler` (ckb-vm-debug-utils/src/gdbserver.rs). `byteorder`, the
-- little-endian coding of 64-bit numbers, is another package and an argument.
use ckb_standalone_debugger.Prelude.{
  map-append, Octets, ℕ, zero, suc, ◌*◌, ◌-◌, ◌≤◌, ◌≡◌, refl, ◌∙◌, ap, sym, List, [], ◌∷◌, ◌++◌,
  map, length, replicate, range, Bytes, ltb, ◌==◌, if◌then◌else◌, arith, ok, err, Bool-cases, inl,
  inr, length-append, append_assoc, ok-injective, ltb→lt, ltb-false→le,
}
use ckb_standalone_debugger.Vm.{Vm, riscv_general_register_number, RegisterLaws}
use ckb_standalone_debugger.Protocol.Types.{error, Handled}

-- `byteorder::LittleEndian`
pub record LittleEndian : Type 0 where
  pub write_u64 : ℕ → Bytes
  pub read_u64 : Bytes → ℕ

-- Eight bytes and a 64-bit number stand for each other.
pub record LittleEndianLaws (le : LittleEndian) : Type 0 where
  pub length-write_u64 : (v : ℕ) → length (le.write_u64 v) ≡ 8
  pub write_u64-read_u64 : (b : Bytes) → length b ≡ 8 → Octets b → le.write_u64 (le.read_u64 b) ≡ b

-- `concat`
unfoldable pub concat : List Bytes → Bytes
concat [] = []
concat (x ∷ xs) = x ++ concat xs

module _ {M D I : Type 0} (vm : Vm M D I) (le : LittleEndian) where
  abbrev format_register_value : ℕ → Bytes
  format_register_value v = le.write_u64 v

  unfoldable pub read_general_registers : M → Handled Bytes
  unfolding concat
  read_general_registers m = ok (
      concat
        (map (λ i. format_register_value (vm.registers m i)) (range riscv_general_register_number)))

  unfoldable pub read_register : ℕ → M → Handled Bytes
  read_register register m =
      if ltb register riscv_general_register_number
      then ok (format_register_value (vm.registers m register))
      else if register == riscv_general_register_number
      then ok (format_register_value (vm.pc m))
      else err (error 1)

  -- `buffer[0..contents.len()].copy_from_slice(contents)` in eight zeroes
  abbrev pub padded : Bytes → Bytes
  padded contents = contents ++ replicate (8 - length contents) 0

  unfoldable pub write_register : ℕ → Bytes → M → Handled (Unit {0}) × M
  write_register register contents m =
      let v = le.read_u64 (padded contents) in
      if ltb 8 (length contents)
      then (err (error 2), m)
      else if ltb register riscv_general_register_number
      then (ok tt, vm.set_register register v m)
      else if register == riscv_general_register_number
      then (ok tt, vm.commit_pc (vm.update_pc v m))
      else (err (error 2), m)

length-replicate : (n b : ℕ) → length (replicate n b) ≡ n
length-replicate zero b = refl
length-replicate (suc n) b = ap suc (length-replicate n b)

concat-append : (xs ys : List Bytes) → concat (xs ++ ys) ≡ concat xs ++ concat ys
unfolding concat
concat-append [] ys = refl
concat-append (x ∷ xs) ys = rw (concat-append xs ys, append_assoc)

-- `n` pieces of eight bytes.
length-concat-range :
    (f : ℕ → Bytes) (n : ℕ)
    → ((i : ℕ) → length (f i) ≡ 8)
    → length (concat (map f (range n))) ≡ 8 * n
unfolding concat
length-concat-range f zero h = refl
length-concat-range f (suc n) h =
    rw (map-append f (range n) (n ∷ []), concat-append)
      (omega (
        arith,
        length-append {0} (concat (map f (range n))) (f n ++ []),
        length-append {0} (f n) [],
        length-concat-range f n h,
        h n,
      ))

module _ {M D I : Type 0} (vm : Vm M D I) (le : LittleEndian) (coding : LittleEndianLaws le) where
  -- The general registers take 256 bytes.
  pub length-read_general_registers :
      (m : M) {bs : Bytes} → read_general_registers vm le m ≡ ok bs → length bs ≡ 256
  unfolding read_general_registers
  length-read_general_registers m e =
      ap length (sym (ok-injective e))
      ∙ length-concat-range _ 32 (λ i. coding.length-write_u64 (vm.registers m i))

  length-padded : (c : Bytes) → length c ≤ 8 → length (padded vm le c) ≡ 8
  length-padded c h =
      omega
        (arith, length-append {0} c (replicate (8 - length c) 0), length-replicate (8 - length c) 0)

  Octets-zeroes : (n : ℕ) → Octets (replicate n 0)
  Octets-zeroes zero = tt
  Octets-zeroes (suc n) = (omega arith, Octets-zeroes n)

  Octets-append : (xs ys : Bytes) → Octets xs → Octets ys → Octets (xs ++ ys)
  Octets-append [] ys hx hy = hy
  Octets-append (x ∷ xs) ys (h, hx) hy = (h, Octets-append xs ys hx hy)

  -- A register that `write_register` accepted reads back as the bytes written, filled up with
  -- zeroes to eight; the number of the last register stands for the program counter.
  pub read-write_register :
      (laws : RegisterLaws vm) (register : ℕ) (contents : Bytes) (m : M)
      → Octets contents
      → (write_register vm le register contents m).0 ≡ ok tt
      → read_register vm le register (write_register vm le register contents m).1
        ≡ ok (padded vm le contents)
  unfolding read_register write_register
  read-write_register laws register contents m octets e =
      elim (Bool-cases (ltb 8 (length contents))) [
        | inl long ↦ absurd (cc (rw (long, write_register) at e))
        | inr fits ↦
            let coded =
              coding.write_u64-read_u64 _ (length-padded contents (ltb-false→le _ _ fits))
                (Octets-append contents _ octets (Octets-zeroes (8 - length contents))) in
            elim (Bool-cases (ltb register riscv_general_register_number)) [
              | inl general ↦
                  rw
                    (
                      fits,
                      write_register,
                      general,
                      read_register,
                      laws.registers-set_register_self register
                          (le.read_u64 (padded vm le contents)) m (ltb→lt _ _ general),
                    )
                    (ap ok coded)
              | inr other ↦ elim (Bool-cases (register == riscv_general_register_number)) [
                | inl counter ↦
                    rw
                      (
                        fits,
                        write_register,
                        other,
                        counter,
                        read_register,
                        laws.pc-commit_pc (le.read_u64 (padded vm le contents)) m,
                      )
                      (ap ok coded)
                | inr neither ↦ absurd (cc (rw (fits, write_register, other, neither) at e))
              ]
            ]
      ]
