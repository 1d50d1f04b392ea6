-- ===== src/Pmm/Bits.antt =====
-- `set_bit`, `clear_bit` and `test_bit` of pmm.rs.
use Prim.Native.Nat.{bit_and, bit_or}
use vyper.Prelude.{
  ℕ, ◌-◌, ◌*◌, ◌/◌, ◌%◌, ◌^◌, Bool, true, false, not, List, if◌then◌else◌, ◌==◌, set, get_or,
  length, arith, ◌≡◌, ◌<◌, ap, Bool-cases, inl, inr, digit, digit-or, digit-and, digit-pow,
  digit-hole, bit_and-pow-zero, get_or-set_self, get_or-set_ne, length-set,
}

abbrev pub Bitmap : Type 0
Bitmap = List ℕ

-- `*byte |= 1 << bit_idx`
unfoldable pub set_bit : Bitmap → ℕ → Bitmap
set_bit bitmap bit =
    let byte_idx = bit / 8 in
    set bitmap byte_idx (bit_or (get_or bitmap byte_idx 0) (2 ^ (bit % 8)))

-- `*byte &= !(1 << bit_idx)`
unfoldable pub clear_bit : Bitmap → ℕ → Bitmap
clear_bit bitmap bit =
    let byte_idx = bit / 8 in
    set bitmap byte_idx (bit_and (get_or bitmap byte_idx 0) (255 - 2 ^ (bit % 8)))

unfoldable pub test_bit : Bitmap → ℕ → Bool
test_bit bitmap bit = not (bit_and (get_or bitmap (bit / 8) 0) (2 ^ (bit % 8)) == 0)

test_bit-digit :
    (bitmap : Bitmap) (j : ℕ)
    → test_bit bitmap j ≡ not (digit (j % 8) (get_or bitmap (j / 8) 0) == 0)
unfolding test_bit
test_bit-digit bitmap j = ap not (bit_and-pow-zero (get_or bitmap (j / 8) 0) (j % 8))

pub length-set_bit : (bitmap : Bitmap) (i : ℕ) → length (set_bit bitmap i) ≡ length bitmap
unfolding set_bit
length-set_bit bitmap i = length-set bitmap (i / 8) _

pub length-clear_bit : (bitmap : Bitmap) (i : ℕ) → length (clear_bit bitmap i) ≡ length bitmap
unfolding clear_bit
length-clear_bit bitmap i = length-set bitmap (i / 8) _

get_or-set :
    (bitmap : Bitmap) (a b v : ℕ)
    → a < length bitmap
    → get_or (set bitmap a v) b 0 ≡ (if b == a then v else get_or bitmap b 0)
get_or-set bitmap a b v h = elim (Bool-cases (b == a)) [
  | inl e ↦ ground (arith, get_or-set_self bitmap a v 0 h)
  | inr e ↦ ground (arith, get_or-set_ne bitmap a b v 0)
]

pub test_bit-set_bit :
    (bitmap : Bitmap) (i j : ℕ)
    → i < 8 * length bitmap
    → test_bit (set_bit bitmap i) j ≡ (if j == i then true else test_bit bitmap j)
unfolding set_bit
test_bit-set_bit bitmap i j h =
    let byte = get_or bitmap (i / 8) 0 in
    ground (
      arith,
      test_bit-digit bitmap j,
      test_bit-digit (set_bit bitmap i) j,
      get_or-set bitmap (i / 8) (j / 8) (bit_or byte (2 ^ (i % 8))) (omega arith),
      digit-or (j % 8) byte (2 ^ (i % 8)),
      digit-pow (j % 8) (i % 8),
    )

pub test_bit-clear_bit :
    (bitmap : Bitmap) (i j : ℕ)
    → i < 8 * length bitmap
    → test_bit (clear_bit bitmap i) j ≡ (if j == i then false else test_bit bitmap j)
unfolding clear_bit
test_bit-clear_bit bitmap i j h =
    let byte = get_or bitmap (i / 8) 0 in
    ground (
      arith,
      test_bit-digit bitmap j,
      test_bit-digit (clear_bit bitmap i) j,
      get_or-set bitmap (i / 8) (j / 8) (bit_and byte (255 - 2 ^ (i % 8))) (omega arith),
      digit-and (j % 8) byte (255 - 2 ^ (i % 8)),
      digit-hole (j % 8) (i % 8) 8 (omega arith) (omega arith),
    )
