-- ===== src/Prelude/Bits.antt =====
-- The bit operations of the source as arithmetic: disjoint fields under `|`, low masks under `&`.
use Prim.Native.Nat.{
  ℕ, zero, suc, ◌+◌, ◌-◌, ◌*◌, ◌/◌, ◌%◌, ◌^◌, ◌≤◌, ◌<◌, min, max, digits, bit_and, bit_or,
  bit_and-bitwise, bit_or-bitwise,
}
use mathlib.Core.Path.{◌≡◌, refl, ap}
use native.Mathlib.Nat.{pow-suc, one-le-pow}
use native.Mathlib.Omega.{arith}

-- More fuel than the first operand changes nothing.
module _ (rest : ℕ → ℕ) (digit : ℕ → ℕ → ℕ) where
  same_digits :
      (b a : ℕ) (f g : ℕ) → a ≤ f → a ≤ g → digits rest digit f a b ≡ digits rest digit g a b
  same_digits b zero zero zero hf hg = refl
  same_digits b zero zero (suc g) hf hg = refl
  same_digits b zero (suc f) zero hf hg = refl
  same_digits b zero (suc f) (suc g) hf hg = refl
  same_digits b (suc a) zero g hf hg = absurd (omega arith)
  same_digits b (suc a) (suc f) zero hf hg = absurd (omega arith)
  same_digits b (suc a) (suc f) (suc g) hf hg =
      ap (λ t. t * 2 + digit (suc a % 2) (b % 2))
        (same_digits (b / 2) (suc a / 2) f g (omega arith) (omega arith))

-- The lowest binary digit of `a | b` and of `a & b`.
pub bit_or-halves : (a b : ℕ) → bit_or a b ≡ bit_or (a / 2) (b / 2) * 2 + max (a % 2) (b % 2)
bit_or-halves zero b = omega (arith, bit_or-bitwise 0 b, bit_or-bitwise 0 (b / 2))
bit_or-halves (suc a) b = omega (
  arith,
  bit_or-bitwise (suc a) b,
  bit_or-bitwise (suc a / 2) (b / 2),
  same_digits (λ y. y) max (b / 2) (suc a / 2) a (suc a / 2) (omega arith) (omega arith),
)

pub bit_and-halves : (a b : ℕ) → bit_and a b ≡ bit_and (a / 2) (b / 2) * 2 + min (a % 2) (b % 2)
bit_and-halves zero b = omega (arith, bit_and-bitwise 0 b, bit_and-bitwise 0 (b / 2))
bit_and-halves (suc a) b = omega (
  arith,
  bit_and-bitwise (suc a) b,
  bit_and-bitwise (suc a / 2) (b / 2),
  same_digits (λ y. 0) min (b / 2) (suc a / 2) a (suc a / 2) (omega arith) (omega arith),
)

or_none : (f a : ℕ) → a ≤ f → bit_or a 0 ≡ a
or_none f zero h = refl
or_none zero (suc a) h = absurd (omega arith)
or_none (suc f) (suc a) h =
    omega (arith, bit_or-halves (suc a) 0, or_none f (suc a / 2) (omega arith))

pub bit_or-zero : (a : ℕ) → bit_or a 0 ≡ a
bit_or-zero a = or_none a a (omega arith)

and_none : (f a : ℕ) → a ≤ f → bit_and a 0 ≡ 0
and_none f zero h = refl
and_none zero (suc a) h = absurd (omega arith)
and_none (suc f) (suc a) h =
    omega (arith, bit_and-halves (suc a) 0, and_none f (suc a / 2) (omega arith))

pub bit_and-zero : (a : ℕ) → bit_and a 0 ≡ 0
bit_and-zero a = and_none a a (omega arith)

double_field : (hi k : ℕ) → hi * 2 ^ suc k ≡ 2 * (hi * 2 ^ k)
double_field hi k = omega (arith, ap (λ (t : ℕ). hi * t) (pow-suc 2 k))

-- `(hi << k) | lo` is a sum where `lo` has at most `k` bits.
pub bit_or-field : (k hi lo : ℕ) → lo < 2 ^ k → bit_or (hi * 2 ^ k) lo ≡ hi * 2 ^ k + lo
bit_or-field zero hi lo h = ground (arith, bit_or-zero hi)
bit_or-field (suc k) hi lo h = ground (
  arith,
  double_field hi k,
  bit_or-halves (hi * 2 ^ suc k) lo,
  bit_or-field k hi (lo / 2) (omega (arith, pow-suc 2 k)),
)

or_comm_fuel : (f a b : ℕ) → a ≤ f → b ≤ f → bit_or a b ≡ bit_or b a
or_comm_fuel f zero b ha hb = omega (arith, bit_or-zero b, bit_or-bitwise 0 b)
or_comm_fuel zero (suc a) b ha hb = absurd (omega arith)
or_comm_fuel (suc f) (suc a) b ha hb = omega (
  arith,
  bit_or-halves (suc a) b,
  bit_or-halves b (suc a),
  or_comm_fuel f (suc a / 2) (b / 2) (omega arith) (omega arith),
)

pub bit_or_comm : (a b : ℕ) → bit_or a b ≡ bit_or b a
bit_or_comm a b = or_comm_fuel (a + b) a b (omega arith) (omega arith)

-- A sum of fields under the mask of the low one.
and_low : (k hi lo : ℕ) → lo < 2 ^ k → bit_and (hi * 2 ^ k + lo) (2 ^ k - 1) ≡ lo
and_low zero hi lo h = ground (arith, bit_and-zero (hi * 2 ^ 0 + lo))
and_low (suc k) hi lo h = ground (
  arith,
  double_field hi k,
  pow-suc 2 k,
  bit_and-halves (hi * 2 ^ suc k + lo) (2 ^ suc k - 1),
  and_low k hi (lo / 2) (omega (arith, pow-suc 2 k)),
)

-- A mask of the `k` low bits is a remainder.
pub bit_and-mask : (k a : ℕ) → bit_and a (2 ^ k - 1) ≡ a % 2 ^ k
bit_and-mask k a = ground (arith, one-le-pow k 2, and_low k (a / 2 ^ k) (a % 2 ^ k))
