-- ===== src/Prelude/Endian.antt =====
-- `to_le_bytes` and `from_le_bytes`.
use Prim.Native.Nat.{ℕ, zero, suc, ◌+◌, ◌*◌, ◌/◌, ◌%◌, ◌<◌}
use mathlib.Core.List.{[], ◌∷◌}
use mathlib.Core.Path.{◌≡◌, refl, ap}
use native.Mathlib.Omega.{arith}
use ckb_standalone_debugger.Prelude.Lists.{Bytes, length}

-- `n` bytes of a number, the lowest first.
abbrev pub to_le_bytes : ℕ → ℕ → Bytes
to_le_bytes zero v = []
to_le_bytes (suc n) v = (v % 256) ∷ to_le_bytes n (v / 256)

abbrev pub from_le_bytes : Bytes → ℕ
from_le_bytes [] = 0
from_le_bytes (b ∷ bs) = b + 256 * from_le_bytes bs

abbrev pub Octets : Bytes → Type 0
Octets [] = Unit
Octets (b ∷ bs) = (b < 256) × Octets bs

pub length-to_le_bytes : (n v : ℕ) → length (to_le_bytes n v) ≡ n
length-to_le_bytes zero v = refl
length-to_le_bytes (suc n) v = ap suc (length-to_le_bytes n (v / 256))

low_byte : (b r : ℕ) → b < 256 → (b + 256 * r) % 256 ≡ b
low_byte b r h = omega arith

high_bytes : (b r : ℕ) → b < 256 → (b + 256 * r) / 256 ≡ r
high_bytes b r h = omega arith

pub to_le_bytes-from_le_bytes :
    (bs : Bytes) → Octets bs → to_le_bytes (length bs) (from_le_bytes bs) ≡ bs
to_le_bytes-from_le_bytes [] h = refl
to_le_bytes-from_le_bytes (b ∷ bs) (h, hs) =
    rw (low_byte b (from_le_bytes bs) h, high_bytes b (from_le_bytes bs) h)
      (ap (λ l. b ∷ l) (to_le_bytes-from_le_bytes bs hs))
