-- ===== src/Prelude/Indexing.antt =====
-- Reading a list at an index behind `take`, `drop`, `++` and `replicate`.
use Prim.Native.Nat.{ℕ, zero, suc, ◌+◌, ◌-◌, ◌≤◌}
use mathlib.Core.Path.{◌≡◌, refl, ap₂}
use mathlib.Core.List.{List, [], ◌∷◌, ◌++◌}
use native.Mathlib.Omega.{arith}
use vyper.Prelude.Tests.{ltb, if◌then◌else◌}
use vyper.Prelude.Lists.{length, get_or, take, drop, replicate}

module _ {ℓ} {A : Type ℓ} where
  pub get_or_beyond : (xs : List A) (i : ℕ) (d : A) → length xs ≤ i → get_or xs i d ≡ d
  get_or_beyond [] i d h = refl
  get_or_beyond (x ∷ xs) zero d h = absurd (omega arith)
  get_or_beyond (x ∷ xs) (suc i) d h = get_or_beyond xs i d (omega arith)

  pub get_or-take :
      (n i : ℕ) (xs : List A) (d : A)
      → get_or (take n xs) i d ≡ (if ltb i n then get_or xs i d else d)
  get_or-take zero i xs d = ground arith
  get_or-take (suc n) i [] d = ground arith
  get_or-take (suc n) zero (x ∷ xs) d = ground arith
  get_or-take (suc n) (suc i) (x ∷ xs) d = ground (arith, get_or-take n i xs d)

  pub get_or-drop : (n i : ℕ) (xs : List A) (d : A) → get_or (drop n xs) i d ≡ get_or xs (n + i) d
  get_or-drop zero i xs d = let e : 0 + i ≡ i = omega arith in rw e
  get_or-drop (suc n) i [] d = refl
  get_or-drop (suc n) i (x ∷ xs) d =
      let e : suc n + i ≡ suc (n + i) = omega arith in rw e (get_or-drop n i xs d)

  pub get_or-append :
      (xs ys : List A) (i : ℕ) (d : A)
      → get_or (xs ++ ys) i d
        ≡ (if ltb i (length xs) then get_or xs i d else get_or ys (i - length xs) d)
  get_or-append [] ys i d = let e : i - 0 ≡ i = omega arith in ground arith
  get_or-append (x ∷ xs) ys zero d = ground arith
  get_or-append (x ∷ xs) ys (suc i) d =
      let e : suc i - suc (length xs) ≡ i - length xs = omega arith in
      ground (arith, get_or-append xs ys i d)

  pub get_or-replicate : (n i : ℕ) (d : A) → get_or (replicate n d) i d ≡ d
  get_or-replicate zero i d = refl
  get_or-replicate (suc n) zero d = refl
  get_or-replicate (suc n) (suc i) d = get_or-replicate n i d

  -- Lists of one length that read the same at every index are the same.
  pub list_ext :
      (d : A) (xs ys : List A)
      → length xs ≡ length ys
      → ((i : ℕ) → get_or xs i d ≡ get_or ys i d)
      → xs ≡ ys
  list_ext d [] [] h e = refl
  list_ext d [] (y ∷ ys) h e = absurd (omega arith)
  list_ext d (x ∷ xs) [] h e = absurd (omega arith)
  list_ext d (x ∷ xs) (y ∷ ys) h e = ap₂ ◌∷◌ (e 0) (list_ext d xs ys (omega arith) (λ i. e (suc i)))
