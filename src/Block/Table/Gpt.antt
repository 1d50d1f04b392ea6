-- ===== src/Block/Table/Gpt.antt =====
-- `parse_gpt` of partition.rs: for which headers it has a result.
use vyper.Prelude.{
  ℕ, zero, suc, ◌+◌, ◌*◌, ◌/◌, ◌%◌, ◌≡◌, ◌≤◌, refl, false, [], ◌∷◌, ltb, ◌==◌, Bytes, bytes_eq,
  Result, ok, err, panic, stuck, ◌>>=◌, length, take, drop, arith, inl, inr, Bool-cases,
  length-take, length-drop,
}
use native.Mathlib.Nat.{mod-lt, mul-le-mul_right, div-mul-le_self, suc-mul, le-div_iff_mul-le}
use mathlib.Core.Path.{subst}
use vyper.Block.Device.{BlockDevice, Message}
use vyper.Block.Table.{gpt_entry, gpt_entries, parse_gpt, all_zero, le_at, u32}

-- The call returns: no panic, and no loop.
abbrev pub Returns {ℓ} : {E : Type 0} {A : Type ℓ} → Result E A → Type 0
Returns (ok a) = Unit
Returns (err e) = Unit
Returns panic = ⊥
Returns stuck = ⊥

-- A read of a sector returns, 512 bytes where it succeeds.
abbrev pub IsSector : Result Message Bytes → Type 0
IsSector (ok bytes) = length bytes ≡ 512
IsSector (err e) = Unit
IsSector panic = ⊥
IsSector stuck = ⊥

gpt_entry-Returns :
    (sector : Bytes) (i offset size : ℕ)
    → length sector ≡ 512
    → offset + size ≤ 512
    → 48 ≤ size
    → Returns (gpt_entry sector i offset size)
unfolding gpt_entry
gpt_entry-Returns sector i offset size l inside long =
    let entry = take size (drop offset sector) in
    let whole : length entry ≡ size =
      omega (arith, length-take size (drop offset sector), length-drop offset sector) in
    let a : ltb (length sector) (offset + size) ≡ false = ground arith in
    let b : ltb (length entry) 16 ≡ false = ground (arith, whole) in
    let c : ltb (length entry) 48 ≡ false = ground (arith, whole) in
    elim (Bool-cases (all_zero (take 16 entry))) [
      | inl z ↦ rw (a, b, z) tt
      | inr z ↦ rw (a, b, z, c) tt
    ]

some_fit : (size : ℕ) → 1 ≤ size → size ≤ 512 → 1 ≤ 512 / size
some_fit size one fits = (le-div_iff_mul-le {k = size} {x = 1} {y = 512} one).1 (omega arith)

nonzero : (n : ℕ) → 1 ≤ n → (n == 0) ≡ false
nonzero n h = ground arith

in_sector : (i size : ℕ) → 1 ≤ size → size ≤ 512 → u32 ((i % (512 / size)) * size) + size ≤ 512
in_sector i size one fits =
    let c = 512 / size in
    let below : suc (i % c) ≤ c = mod-lt i (some_fit size one fits) in
    omega (arith, mul-le-mul_right size below, div-mul-le_self 512 size, suc-mul (i % c) size)

Returns-bind :
    {A B : Type 0} (m : Result Message A) (f : A → Result Message B)
    → Returns m
    → ((a : A) → m ≡ ok a → Returns (f a))
    → Returns (m >>= f)
Returns-bind (ok a) f h k = k a refl
Returns-bind (err e) f h k = tt
Returns-bind panic f h k = h
Returns-bind stuck f h k = h

IsSector-Returns : (r : Result Message Bytes) → IsSector r → Returns r
IsSector-Returns (ok b) h = tt
IsSector-Returns (err e) h = tt
IsSector-Returns panic h = elim h [ ]
IsSector-Returns stuck h = elim h [ ]

sector_length : (r : Result Message Bytes) (b : Bytes) → IsSector r → r ≡ ok b → length b ≡ 512
sector_length r b h e = subst IsSector e h

module _ {D : Type 0} (dev : BlockDevice D)
    (sectors : (d : D) (lba : ℕ) → IsSector (dev.read_sector d lba)) where
  gpt_entries-Returns :
      (d : D) (lba size i n : ℕ)
      → 48 ≤ size
      → size ≤ 512
      → Returns (gpt_entries dev d lba (512 / size) size i n)
  unfolding gpt_entries
  gpt_entries-Returns d lba size i zero long fits = tt
  gpt_entries-Returns d lba size i (suc n) long fits =
      rw (nonzero (512 / size) (some_fit size (omega arith) fits)) (
        Returns-bind (dev.read_sector d (u32 (lba + i / (512 / size)))) _
          (IsSector-Returns _ (sectors d _))
          (λ sector e.
            Returns-bind (gpt_entry sector i (u32 ((i % (512 / size)) * size)) size) _
              (gpt_entry-Returns sector i _ size (sector_length _ sector (sectors d _) e)
                (in_sector i size (omega arith) fits) long)
              (λ entry f.
                Returns-bind (gpt_entries dev d lba (512 / size) size (suc i) n) _
                  (gpt_entries-Returns d lba size (suc i) n long fits) (λ rest g. tt))))

  -- On a device whose reads of sectors return, `parse_gpt` returns, with no panic, where the entry
  -- size of the header has 48 to 512 bytes.
  pub parse_gpt-Returns :
      (d : D) (header : Bytes)
      → dev.read_sector d 1 ≡ ok header
      → 48 ≤ le_at 4 84 header
      → le_at 4 84 header ≤ 512
      → Returns (parse_gpt dev d)
  unfolding parse_gpt
  parse_gpt-Returns d header e long fits =
      rw e
        (elim (Bool-cases (bytes_eq (take 8 header) (69 ∷ 70 ∷ 73 ∷ 32 ∷ 80 ∷ 65 ∷ 82 ∷ 84 ∷ []))) [
          | inr n ↦ rw n tt
          | inl y ↦
              rw (y, nonzero (le_at 4 84 header) (positive long))
                (gpt_entries-Returns d _ (le_at 4 84 header) 0 _ long fits)
        ])
    where
      positive : {n : ℕ} → 48 ≤ n → 1 ≤ n
      positive {n} h = omega arith
