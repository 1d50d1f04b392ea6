-- ===== src/Fat/Table/Word.antt =====
-- An entry of the allocation table has 28 bits; the other four are kept.
use Prim.Native.Nat.{bit_and, bit_or}
use vyper.Prelude.{
  ℕ, zero, suc, ◌+◌, ◌*◌, ◌/◌, ◌%◌, ◌^◌, ◌≡◌, ◌<◌, ap, sym, ◌∙◌, arith, bit_and-halves,
  bit_and-mask, bit_or-field,
}
use native.Mathlib.Nat.{pow-suc, div-div-eq-div-mul}
use vyper.Fat.Table.{merged, low_bits, high_bits}

-- A mask of high bits.
bit_and-high : (k m a : ℕ) → bit_and a (m * 2 ^ k) ≡ bit_and (a / 2 ^ k) m * 2 ^ k
bit_and-high zero m a = ground arith
bit_and-high (suc k) m a =
    let quarter : a / 2 / 2 ^ k ≡ a / 2 ^ suc k =
      div-div-eq-div-mul a 2 (2 ^ k) ∙ ap (λ n. a / n) (twice k) in
    let next : bit_and (a / 2) (m * 2 ^ k) ≡ bit_and (a / 2 ^ suc k) m * 2 ^ k =
      bit_and-high k m (a / 2) ∙ ap (λ n. bit_and n m * 2 ^ k) quarter in
    let whole : bit_and a (m * 2 ^ suc k) ≡ bit_and (a / 2) (m * 2 ^ k) * 2 =
      ap (bit_and a) (double m k) ∙ halved (m * 2 ^ k) in
    whole ∙ (ap (λ n. n * 2) next ∙ sym (double (bit_and (a / 2 ^ suc k) m) k ∙ omega arith))
  where
    twice : (k : ℕ) → 2 * 2 ^ k ≡ 2 ^ suc k
    twice k = omega (arith, pow-suc 2 k)

    double : (m k : ℕ) → m * 2 ^ suc k ≡ 2 * (m * 2 ^ k)
    double m k = omega (arith, ap (λ (t : ℕ). m * t) (pow-suc 2 k))

    halved : (x : ℕ) → bit_and a (2 * x) ≡ bit_and (a / 2) x * 2
    halved x =
        let half : 2 * x / 2 ≡ x = omega arith in
        omega (arith, bit_and-halves a (2 * x), ap (bit_and (a / 2)) half)

-- Of a merged entry, the low bits are the new ones.
merged-fields :
    (existing value : ℕ)
    → merged existing value ≡ bit_and (existing / 2 ^ 28) 15 * 2 ^ 28 + value % 2 ^ 28
unfolding merged
merged-fields existing value =
    let low : bit_and value low_bits ≡ value % 2 ^ 28 = bit_and-mask 28 value in
    let high : bit_and existing high_bits ≡ bit_and (existing / 2 ^ 28) 15 * 2 ^ 28 =
      bit_and-high 28 15 existing in
    ap (bit_or (bit_and existing high_bits)) low
    ∙ (ap (λ h. bit_or h (value % 2 ^ 28)) high
        ∙ bit_or-field 28 (bit_and (existing / 2 ^ 28) 15) (value % 2 ^ 28) (omega arith))

pub merged-bound : (existing value : ℕ) → merged existing value < 2 ^ 32
merged-bound existing value =
    omega (arith, merged-fields existing value, bit_and-mask 4 (existing / 2 ^ 28))

pub merged-low : (existing value : ℕ) → bit_and (merged existing value) low_bits ≡ value % 2 ^ 28
merged-low existing value =
    bit_and-mask 28 (merged existing value) ∙ omega (arith, merged-fields existing value)
