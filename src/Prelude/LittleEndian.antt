-- ===== src/Prelude/LittleEndian.antt =====
-- Numbers as their bytes, the low one first.
use Prim.Native.Nat.{ℕ, zero, suc, ◌+◌, ◌*◌, ◌/◌, ◌%◌, ◌^◌, ◌<◌}
use mathlib.Core.Path.{◌≡◌, refl, ap}
use mathlib.Core.List.{List, [], ◌∷◌}
use native.Mathlib.Nat.{pow-suc}
use native.Mathlib.Omega.{arith}
use vyper.Prelude.Lists.{length}

-- `from_le_bytes`
abbrev pub from_le : List ℕ → ℕ
from_le [] = 0
from_le (b ∷ bs) = b + 256 * from_le bs

-- `to_le_bytes` of a number of `n` bytes
abbrev pub to_le : ℕ → ℕ → List ℕ
to_le zero a = []
to_le (suc n) a = a % 256 ∷ to_le n (a / 256)

pub length-to_le : (n a : ℕ) → length (to_le n a) ≡ n
length-to_le zero a = refl
length-to_le (suc n) a = ap suc (length-to_le n (a / 256))

abbrev pub AllBytes : List ℕ → Type 0
AllBytes [] = Unit
AllBytes (b ∷ bs) = (b < 256) × AllBytes bs

pub to_le-AllBytes : (n a : ℕ) → AllBytes (to_le n a)
to_le-AllBytes zero a = tt
to_le-AllBytes (suc n) a = (omega arith, to_le-AllBytes n (a / 256))

pub to_le-from_le : (bs : List ℕ) → AllBytes bs → to_le (length bs) (from_le bs) ≡ bs
to_le-from_le [] h = refl
to_le-from_le (b ∷ bs) h =
    ground (arith, to_le-from_le bs h.1, low b (from_le bs) h.0, high b (from_le bs) h.0)
  where
    low : (b r : ℕ) → b < 256 → (b + 256 * r) % 256 ≡ b
    low b r h = omega arith

    high : (b r : ℕ) → b < 256 → (b + 256 * r) / 256 ≡ r
    high b r h = omega arith

pub from_le-to_le : (n a : ℕ) → a < 256 ^ n → from_le (to_le n a) ≡ a
from_le-to_le zero a h = omega arith
from_le-to_le (suc n) a h = omega (arith, from_le-to_le n (a / 256) (omega (arith, pow-suc 256 n)))
