-- ===== src/Gdbserver/Memory.antt =====
-- `read_memory` and `write_memory` of `GdbHandler` (ckb-vm-debug-utils/src/gdbserver.rs).
use ckb_standalone_debugger.Prelude.{
  ℕ, zero, suc, ◌+◌, ◌-◌, ◌%◌, ◌<◌, ◌≤◌, ◌≡◌, refl, ap, [], ◌∷◌, Bytes, length, ok, err, panic,
  arith, Outcome-cases, inl, inr, ok-injective, sym,
}
use ckb_standalone_debugger.Vm.{Vm, u64_mod}
use ckb_standalone_debugger.Protocol.Types.{MemoryRegion, error, Handled}

module _ {M D I : Type 0} (vm : Vm M D I) where
  -- The loop of `read_memory`: `n` bytes from `address` on. `value as u8` keeps the low byte.
  unfoldable pub read_from : ℕ → ℕ → M → Handled Bytes × M
  read_from zero address m = (ok [], m)
  read_from (suc n) address m =
      let (loaded, m') = vm.load8 address m in
      elim loaded [
        | ok value ↦
            let (rest, m'') = read_from n (address + 1) m' in
            (
              elim rest [ ok values ↦ ok ((value % 256) ∷ values) | err e ↦ err e | panic ↦ panic ],
              m'',
            )
        | err e ↦ (err (error 3), m')
        | panic ↦ (panic, m')
      ]

  -- `region.address..(region.address + region.length)`: the end wraps around, and a range that
  -- ends before it begins is empty.
  unfoldable pub read_memory : MemoryRegion → M → Handled Bytes × M
  unfolding read_from
  read_memory region m =
      read_from ((region.address + region.length) % u64_mod - region.address) region.address m

  unfoldable pub write_memory : ℕ → Bytes → M → Handled (Unit {0}) × M
  write_memory address bytes m =
      let (stored, m') = vm.store_bytes address bytes m in
      (elim stored [ ok done ↦ ok tt | err e ↦ err (error 4) | panic ↦ panic ], m')

-- Reading memory leaves the machine as it is.
abbrev pub PureLoads : {M D I : Type 0} → Vm M D I → Type 0
PureLoads {M} vm = (a : ℕ) (m : M) → (vm.load8 a m).1 ≡ m

module _ {M D I : Type 0} (vm : Vm M D I) (pure : PureLoads vm) where
  -- A first byte that loads, and the rest.
  read_from-suc :
      (n a : ℕ) (m : M) {bs : Bytes}
      → (read_from vm (suc n) a m).0 ≡ ok bs
      → (v : ℕ) × (rest : Bytes) × ((vm.load8 a m).0 ≡ ok v)
        × ((read_from vm n (a + 1) m).0 ≡ ok rest)
        × (bs ≡ (v % 256) ∷ rest)
  unfolding read_from
  read_from-suc n a m {bs} e = elim (Outcome-cases (vm.load8 a m).0) [
    | inl (v, good) ↦
        let h = rw (good, read_from, pure a m) at e in
        elim (Outcome-cases (read_from vm n (a + 1) m).0) [
          | inl (rest, more) ↦ (v, rest, good, more, sym (ok-injective (rw more at h)))
          | inr (inl (x, bad)) ↦ absurd (cc (rw bad at h))
          | inr (inr gone) ↦ absurd (cc (rw gone at h))
        ]
    | inr (inl (x, bad)) ↦ absurd (cc (rw (bad, read_from) at e))
    | inr (inr gone) ↦ absurd (cc (rw (gone, read_from) at e))
  ]

  -- The bytes that the machine holds from `a` on.
  abbrev pub Holds : ℕ → M → Bytes → Type 0
  Holds a m [] = Unit
  Holds a m (b ∷ bs) = ((v : ℕ) × ((vm.load8 a m).0 ≡ ok v) × (b ≡ v % 256)) × Holds (a + 1) m bs

  read_from-Holds :
      (n a : ℕ) (m : M) {bs : Bytes}
      → (read_from vm n a m).0 ≡ ok bs
      → (length bs ≡ n) × Holds a m bs
  unfolding read_from
  read_from-Holds zero a m e = rw (sym (ok-injective e)) (refl, tt)
  read_from-Holds (suc n) a m {bs} e =
      let (v, rest, loaded, more, same) = read_from-suc n a m e in
      let (count, held) = read_from-Holds n (a + 1) m more in
      rw same (ap suc count, ((v, loaded, refl), held))

  -- A region that ends below 2^64, when the read succeeds, gives exactly as many bytes as it is
  -- long, each the low byte of what the machine loads at its address.
  pub read_memory-Holds :
      (region : MemoryRegion) (m : M) {bs : Bytes}
      → region.address + region.length < u64_mod
      → (read_memory vm region m).0 ≡ ok bs
      → (length bs ≡ region.length) × Holds region.address m bs
  unfolding read_memory
  read_memory-Holds region m {bs} fits e =
      let count : (region.address + region.length) % u64_mod - region.address ≡ region.length =
        omega arith in
      read_from-Holds region.length region.address m (rw count at e)

  -- A region of 64-bit numbers that passes the end of the address space reads as no byte at all.
  pub read_memory_wraps :
      (region : MemoryRegion) (m : M)
      → u64_mod ≤ region.address + region.length
      → region.address < u64_mod
      → region.length < u64_mod
      → (read_memory vm region m).0 ≡ ok []
  unfolding read_memory read_from
  read_memory_wraps region m over a l =
      let count : (region.address + region.length) % u64_mod - region.address ≡ 0 = omega arith in
      rw (count, read_from)
