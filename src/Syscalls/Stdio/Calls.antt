-- ===== src/Syscalls/Stdio/Calls.antt =====
-- Which system calls `Stdio` takes, and what a program sees of them.
use ckb_standalone_debugger.Prelude.{
  ℕ, ◌==◌, ◌≡◌, ◌≢◌, refl, false, length, ok, err, panic, arith, Bool-cases, inl, inr,
}
use ckb_standalone_debugger.Vm.{Vm, a7}
use ckb_standalone_debugger.Syscalls.Stdio.{AbiStat, stat_bytes, Os, Stdio, served, Called, ecall}

-- The bytes of a status are the 128 that the C layout takes.
pub length-stat_bytes : (s : AbiStat) → length (stat_bytes s) ≡ 128
unfolding stat_bytes
length-stat_bytes s = refl

==-false : {a b : ℕ} → (a == b) ≡ false → a ≢ b
==-false {a} {b} h e = ground arith

module _ {M D I O : Type 0} (vm : Vm M D I) (os : Os O) where
  served-true : (c : Called vm os) → (served vm os c).0 ≢ ok false
  unfolding served
  served-true (ok u, o, m) e = cc
  served-true (err x, o, m) e = cc
  served-true (panic, o, m) e = cc

  -- A call that is passed on to the next handler is none of the five, and neither the system nor
  -- the machine has changed.
  pub ecall_passes :
      (stdio : Stdio) (o : O) (m : M)
      → (ecall vm os stdio o m).0 ≡ ok false
      → (ecall vm os stdio o m ≡ (ok false, o, m))
        × (vm.registers m a7 ≢ 57)
        × (vm.registers m a7 ≢ 62)
        × (vm.registers m a7 ≢ 63)
        × (vm.registers m a7 ≢ 64)
        × (vm.registers m a7 ≢ 80)
  unfolding ecall
  ecall_passes stdio o m e =
      let n = vm.registers m a7 in
      elim (Bool-cases (n == 57)) [
        | inl a ↦ absurd (served-true _ (rw (a, ecall) at e))
        | inr a ↦ elim (Bool-cases (n == 62)) [
          | inl b ↦ absurd (served-true _ (rw (a, ecall, b) at e))
          | inr b ↦ elim (Bool-cases (n == 63)) [
            | inl c ↦ absurd (served-true _ (rw (a, ecall, b, c) at e))
            | inr c ↦ elim (Bool-cases (n == 64)) [
              | inl d ↦ absurd (served-true _ (rw (a, ecall, b, c, d) at e))
              | inr d ↦ elim (Bool-cases (n == 80)) [
                | inl f ↦ absurd (served-true _ (rw (a, ecall, b, c, d, f) at e))
                | inr f ↦ (
                  rw (a, ecall, b, c, d, f) refl,
                  ==-false a,
                  ==-false b,
                  ==-false c,
                  ==-false d,
                  ==-false f,
                )
              ]
            ]
          ]
        ]
      ]
