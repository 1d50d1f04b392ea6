-- ===== src/Prelude/Digits.antt =====
-- The binary digits of a number, and what the bit operations do to them.
use vyper.Prelude.Bits.{bit_or-halves, bit_and-halves, bit_and-zero}
use vyper.Prelude.Tests.{◌==◌, if◌then◌else◌}
use Prim.Native.Nat.{ℕ, zero, suc, ◌+◌, ◌-◌, ◌*◌, ◌/◌, ◌%◌, ◌^◌, ◌<◌, min, max, bit_and, bit_or}
use mathlib.Core.Path.{◌≡◌, refl, ap, ◌∙◌}
use native.Mathlib.Omega.{arith}
use native.Mathlib.Nat.{one-le-pow, pow-suc, pow-le-pow_right}

abbrev pub digit : ℕ → ℕ → ℕ
digit zero a = a % 2
digit (suc k) a = digit k (a / 2)

pub digit-or : (k a b : ℕ) → digit k (bit_or a b) ≡ max (digit k a) (digit k b)
digit-or zero a b = omega (arith, bit_or-halves a b)
digit-or (suc k) a b =
    ap (digit k) (let h = bit_or-halves a b in halved h) ∙ digit-or k (a / 2) (b / 2)
  where
    halved :
        bit_or a b ≡ bit_or (a / 2) (b / 2) * 2 + max (a % 2) (b % 2)
        → bit_or a b / 2 ≡ bit_or (a / 2) (b / 2)
    halved h = omega arith

pub digit-and : (k a b : ℕ) → digit k (bit_and a b) ≡ min (digit k a) (digit k b)
digit-and zero a b = omega (arith, bit_and-halves a b)
digit-and (suc k) a b =
    ap (digit k) (let h = bit_and-halves a b in halved h) ∙ digit-and k (a / 2) (b / 2)
  where
    halved :
        bit_and a b ≡ bit_and (a / 2) (b / 2) * 2 + min (a % 2) (b % 2)
        → bit_and a b / 2 ≡ bit_and (a / 2) (b / 2)
    halved h = omega arith

digit-zero : (k : ℕ) → digit k 0 ≡ 0
digit-zero zero = refl
digit-zero (suc k) = digit-zero k

halve : (k : ℕ) → 2 ^ suc k / 2 ≡ 2 ^ k
halve k = omega arith

pub digit-pow : (j k : ℕ) → digit j (2 ^ k) ≡ (if j == k then 1 else 0)
digit-pow zero zero = refl
digit-pow zero (suc k) = ground arith
digit-pow (suc j) zero = ground (arith, digit-zero j)
digit-pow (suc j) (suc k) = ap (digit j) (halve k) ∙ (digit-pow j k ∙ ground arith)

digit-ones : (j w : ℕ) → j < w → digit j (2 ^ w - 1) ≡ 1
digit-ones j zero h = absurd (omega arith)
digit-ones zero (suc w) h = omega (arith, pow-suc 2 w, one-le-pow w 2)
digit-ones (suc j) (suc w) h = ap (digit j) (halved w) ∙ digit-ones j w (omega arith)
  where
    halved : (w : ℕ) → (2 ^ suc w - 1) / 2 ≡ 2 ^ w - 1
    halved w = omega (arith, pow-suc 2 w, one-le-pow w 2)

pub digit-hole :
    (j k w : ℕ) → j < w → k < w → digit j (2 ^ w - 1 - 2 ^ k) ≡ (if j == k then 0 else 1)
digit-hole j k zero hj hk = absurd (omega arith)
digit-hole zero zero (suc w) hj hk = omega (arith, pow-suc 2 w)
digit-hole zero (suc k) (suc w) hj hk = grind (
  arith,
  pow-suc 2 w,
  pow-suc 2 k,
  one-le-pow k 2,
  pow-le-pow_right {n = 2} (omega arith) {i = suc k} {j = w} (omega arith),
)
digit-hole (suc j) zero (suc w) hj hk =
    ground (arith, ap (digit j) (halved w), digit-ones j w (omega arith))
  where
    halved : (w : ℕ) → (2 ^ suc w - 1 - 1) / 2 ≡ 2 ^ w - 1
    halved w = omega (arith, pow-suc 2 w, one-le-pow w 2)
digit-hole (suc j) (suc k) (suc w) hj hk =
    ap (digit j) (halved w k) ∙ (digit-hole j k w (omega arith) (omega arith) ∙ ground arith)
  where
    halved : (w k : ℕ) → (2 ^ suc w - 1 - 2 ^ suc k) / 2 ≡ 2 ^ w - 1 - 2 ^ k
    halved w k = omega (arith, pow-suc 2 w, pow-suc 2 k)

-- Masking with one bit.
pub bit_and-pow-zero : (a k : ℕ) → (bit_and a (2 ^ k) == 0) ≡ (digit k a == 0)
bit_and-pow-zero a zero = ground (arith, bit_and-halves a 1, bit_and-zero (a / 2))
bit_and-pow-zero a (suc k) =
    ground (arith, bit_and-halves a (2 ^ suc k), pow-suc 2 k, bit_and-pow-zero (a / 2) k)
