-- ===== src/Pmm/Inv.antt =====
-- The invariant of the allocator of pmm.rs: its counter of free pages counts them.
use vyper.Prelude.{
  ℕ, zero, suc, ◌+◌, ◌*◌, ◌^◌, ◌≤◌, ◌<◌, ◌≡◌, refl, ap, sym, ◌∙◌, true, false, none, some,
  if◌then◌else◌, ◌==◌, ltb, length, arith, inl, inr, Bool-cases,
}
use vyper.Pmm.{BitmapAllocator, first_free, page_size}
use vyper.Pmm.Bits.{Bitmap, set_bit, clear_bit, test_bit, test_bit-set_bit, test_bit-clear_bit}

same_index : (n i : ℕ) → (n == i) ≡ true → n ≡ i
same_index n i h = ground arith

-- The clear bits below `n`.
abbrev pub clear_count : Bitmap → ℕ → ℕ
clear_count bitmap zero = 0
clear_count bitmap (suc n) = clear_count bitmap n + (if test_bit bitmap n then 0 else 1)

pub record IsValid (self : BitmapAllocator) : Type 0 where
  pub counted : self.free_pages ≡ clear_count self.bitmap self.total_pages
  pub covered : self.total_pages ≤ 8 * length self.bitmap
  -- the end of the memory is an address
  pub addressed : self.total_pages * page_size ≤ 2 ^ 64

pub clear_count-bound : (bitmap : Bitmap) (n : ℕ) → clear_count bitmap n ≤ n
clear_count-bound bitmap zero = omega arith
clear_count-bound bitmap (suc n) = ground (arith, clear_count-bound bitmap n)

-- A bit at or above `n` does not count.
pub clear_count-set_bit :
    (bitmap : Bitmap) (i n : ℕ)
    → i < 8 * length bitmap
    → test_bit bitmap i ≡ false
    → clear_count (set_bit bitmap i) n + (if ltb i n then 1 else 0) ≡ clear_count bitmap n
clear_count-set_bit bitmap i zero h e = ground arith
clear_count-set_bit bitmap i (suc n) h e = elim (Bool-cases (n == i)) [
  | inl same ↦ ground (
    arith,
    clear_count-set_bit bitmap i n h e,
    test_bit-set_bit bitmap i n h,
    ap (test_bit bitmap) (same_index n i same),
  )
  | inr other ↦ ground (arith, clear_count-set_bit bitmap i n h e, test_bit-set_bit bitmap i n h)
]

pub clear_count-clear_bit :
    (bitmap : Bitmap) (i n : ℕ)
    → i < 8 * length bitmap
    → test_bit bitmap i ≡ true
    → clear_count (clear_bit bitmap i) n ≡ clear_count bitmap n + (if ltb i n then 1 else 0)
clear_count-clear_bit bitmap i zero h e = ground arith
clear_count-clear_bit bitmap i (suc n) h e = elim (Bool-cases (n == i)) [
  | inl same ↦ ground (
    arith,
    clear_count-clear_bit bitmap i n h e,
    test_bit-clear_bit bitmap i n h,
    ap (test_bit bitmap) (same_index n i same),
  )
  | inr other ↦
      ground (arith, clear_count-clear_bit bitmap i n h e, test_bit-clear_bit bitmap i n h)
]

-- A page that is found is the lowest that is free.
pub record IsLowest (bitmap : Bitmap) (from below page : ℕ) : Type 0 where
  pub in_range : page < below
  pub above : from ≤ page
  pub free : test_bit bitmap page ≡ false
  pub lowest : (k : ℕ) → from ≤ k → k < page → test_bit bitmap k ≡ true

first_free-some :
    (bitmap : Bitmap) (i n page : ℕ)
    → first_free bitmap i n ≡ some page
    → IsLowest bitmap i (i + n) page
unfolding first_free
first_free-some bitmap i zero page e = absurd (cc)
first_free-some bitmap i (suc n) page e = elim (Bool-cases (test_bit bitmap i)) [
  | inl set ↦
      let r = first_free-some bitmap (suc i) n page (ground arith) in
      record {
        in_range = omega (arith, r.in_range);
        above = omega (arith, r.above);
        free = r.free;
        lowest = λ k a b. elim (Bool-cases (k == i)) [
          | inl same ↦ ground (arith, ap (test_bit bitmap) (same_index k i same))
          | inr other ↦ r.lowest k (ground arith) b
        ];
      }
  | inr clear ↦
      let here : i ≡ page = ground arith in
      record {
        in_range = omega arith;
        above = omega arith;
        free = ap (test_bit bitmap) (sym here) ∙ clear;
        lowest = λ k a b. absurd (omega arith);
      }
]

pub first_free-IsLowest :
    (bitmap : Bitmap) (n page : ℕ) → first_free bitmap 0 n ≡ some page → IsLowest bitmap 0 n page
first_free-IsLowest bitmap n page e =
    let r = first_free-some bitmap 0 n page e in
    record {
      in_range = omega (arith, r.in_range);
      above = r.above;
      free = r.free;
      lowest = r.lowest;
    }

pub first_free-none :
    (bitmap : Bitmap) (i n : ℕ)
    → first_free bitmap i n ≡ none
    → (k : ℕ) → i ≤ k
    → k < i + n
    → test_bit bitmap k ≡ true
unfolding first_free
first_free-none bitmap i zero e k a b = absurd (omega arith)
first_free-none bitmap i (suc n) e k a b = elim (Bool-cases (k == i)) [
  | inl same ↦ ground (arith, ap (test_bit bitmap) (same_index k i same))
  | inr other ↦ first_free-none bitmap (suc i) n (ground arith) k (ground arith) (omega arith)
]

pub clear_count-full :
    (bitmap : Bitmap) (n : ℕ)
    → ((k : ℕ) → k < n → test_bit bitmap k ≡ true)
    → clear_count bitmap n ≡ 0
clear_count-full bitmap zero h = refl
clear_count-full bitmap (suc n) h =
    ground (arith, h n (omega arith), clear_count-full bitmap n (λ k b. h k (omega arith)))

pub clear_count-some :
    (bitmap : Bitmap) (i n : ℕ) → i < n → test_bit bitmap i ≡ false → 1 ≤ clear_count bitmap n
clear_count-some bitmap i zero h e = absurd (omega arith)
clear_count-some bitmap i (suc n) h e = elim (Bool-cases (n == i)) [
  | inl same ↦ ground (arith, ap (test_bit bitmap) (same_index n i same))
  | inr other ↦ ground (arith, clear_count-some bitmap i n (ground arith) e)
]
