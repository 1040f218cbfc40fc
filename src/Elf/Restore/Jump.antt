-- ===== src/Elf/Restore/Jump.antt =====
-- Where the jump goes.
use ckb_standalone_debugger.Prelude.{
  ℕ, ◌+◌, ◌-◌, ◌*◌, ◌/◌, ◌%◌, ◌^◌, ◌<◌, ◌≤◌, ◌≡◌, ◌⊎◌, inl, inr, refl, ◌∙◌, true, arith, ◌==◌,
  if◌then◌else◌,
}
use ckb_standalone_debugger.Elf.Restore.{masked, in_reach, jump_instruction}

-- The offset of a `jal` by the RISC-V manual, sign extended to 64 bits: the fields
-- imm[20|10:1|11|19:12] are the bits from 12 on.
abbrev pub jal_offset : ℕ → ℕ
jal_offset i =
    let low = i / 2 ^ 12 % 2 ^ 8 * 2 ^ 12 + i / 2 ^ 20 % 2 * 2 ^ 11 + i / 2 ^ 21 % 2 ^ 10 * 2 in
    if i / 2 ^ 31 == 0 then low else low + (2 ^ 64 - 2 ^ 20)

module _ (a b c d : ℕ) (ha : a < 2 ^ 8) (hb : b < 2) (hc : c < 2 ^ 10) (hd : d < 2) where
  abbrev joined : ℕ
  joined = 0b1101111 + a * 2 ^ 12 + b * 2 ^ 20 + c * 2 ^ 21 + d * 2 ^ 31

  fields :
      (joined / 2 ^ 12 % 2 ^ 8 ≡ a)
      × (joined / 2 ^ 20 % 2 ≡ b)
      × (joined / 2 ^ 21 % 2 ^ 10 ≡ c)
      × (joined / 2 ^ 31 ≡ d)
  fields = (omega arith, omega arith, omega arith, omega arith)

-- The low 21 bits of a number.
split21 :
    (x : ℕ)
    → x % 2 ^ 21
      ≡ x / 2 ^ 20 % 2 * 2 ^ 20
        + (x / 2 ^ 12 % 2 ^ 8 * 2 ^ 12 + x / 2 ^ 11 % 2 * 2 ^ 11 + x / 2 % 2 ^ 10 * 2 + x % 2)
split21 x = omega arith

-- What the fields of an even offset stand for, and the sign.
low_bits : ℕ → ℕ
low_bits x = x / 2 ^ 12 % 2 ^ 8 * 2 ^ 12 + x / 2 ^ 11 % 2 * 2 ^ 11 + x / 2 % 2 ^ 10 * 2

jal_offset-fields :
    (x : ℕ)
    → jal_offset (jump_instruction x)
      ≡ (if x / 2 ^ 20 % 2 == 0 then low_bits x else low_bits x + (2 ^ 64 - 2 ^ 20))
unfolding jump_instruction low_bits
jal_offset-fields x =
    let (fa, fb, fc, fd) =
      fields (x / 2 ^ 12 % 2 ^ 8) (x / 2 ^ 11 % 2) (x / 2 % 2 ^ 10) (x / 2 ^ 20 % 2) (omega arith)
        (omega arith) (omega arith) (omega arith) in
    rw (fa, fb, fc, fd)

low_bits-even : (x : ℕ) → x % 2 ≡ 0 → x % 2 ^ 21 ≡ x / 2 ^ 20 % 2 * 2 ^ 20 + low_bits x
unfolding low_bits
low_bits-even x even = split21 x ∙ omega arith

forward : (x : ℕ) → x % 2 ≡ 0 → x / 2 ^ 20 % 2 ≡ 0 → jal_offset (jump_instruction x) ≡ x % 2 ^ 21
forward x even sign = rw (jal_offset-fields x, sign) (omega (arith, low_bits-even x even))

backward :
    (x : ℕ)
    → x % 2 ≡ 0
    → x / 2 ^ 20 % 2 ≡ 1
    → jal_offset (jump_instruction x) ≡ x % 2 ^ 21 + (2 ^ 64 - 2 ^ 21)
backward x even sign = rw (jal_offset-fields x, sign) (omega (arith, low_bits-even x even))

-- An even offset of less than 1 MiB either way is where the jump goes.
pub jal_offset-jump_instruction :
    (x : ℕ)
    → x % 2 ≡ 0
    → x < 2 ^ 20 ⊎ (2 ^ 64 - 2 ^ 20 ≤ x × x < 2 ^ 64)
    → jal_offset (jump_instruction x) ≡ x
jal_offset-jump_instruction x even (inl small) = forward x even (omega arith) ∙ omega arith
jal_offset-jump_instruction x even (inr (from, below)) = backward x even (omega arith) ∙ omega arith

-- From 1 MiB to 2 MiB ahead the guard lets the offset pass, but the jump goes 2 MiB lower than the
-- program's counter.
pub jump_instruction-far :
    (x : ℕ)
    → x % 2 ≡ 0
    → 2 ^ 20 ≤ x
    → x < 2 ^ 21
    → (in_reach x ≡ true) × (jal_offset (jump_instruction x) ≡ x + (2 ^ 64 - 2 ^ 21))
unfolding in_reach masked
jump_instruction-far x even from below = (
  (let h : x / 2 ^ 21 * 2 ^ 21 + x % 2 ≡ 0 = omega arith in rw h refl),
  backward x even (omega arith) ∙ omega arith,
)
