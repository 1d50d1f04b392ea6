-- ===== src/Prelude/Results.antt =====
-- What a fallible routine of the kernel returns, and the text equality of byte strings.
use Prim.Native.Nat.{ℕ}
use mathlib.Core.Path.{◌≡◌, refl}
use mathlib.Core.Logic.{◌↔◌}
use mathlib.Core.Bool.{Bool, true, false, ◌&&◌}
use mathlib.Core.Option.{Option, none, some}
use mathlib.Core.List.{List, [], ◌∷◌}
use native.Mathlib.Omega.{arith}
use vyper.Prelude.Tests.{◌==◌}

-- `err` is Rust's `Err`; `panic` is a Rust panic (an index out of range, a failed `unwrap`);
-- `stuck` is a loop of the model that ran out of fuel, or a wait that never ends.
pub data Result {ℓ} (E : Type 0) (A : Type ℓ) : Type ℓ where
  ok : A → Result E A
  err : E → Result E A
  panic : Result E A
  stuck : Result E A

-- The operator `?`: an error, and a panic, ends the routine.
infixl 5 ◌>>=◌
abbrev pub ◌>>=◌ {ℓ κ} :
    {E : Type 0} {A : Type ℓ} {B : Type κ} → Result E A → (A → Result E B) → Result E B
panic >>= next = panic
stuck >>= next = stuck
err e >>= next = err e
ok a >>= next = next a

-- `Option::ok_or`
abbrev pub ok_or {ℓ} : {E : Type 0} {A : Type ℓ} → E → Option A → Result E A
ok_or e (some a) = ok a
ok_or e none = err e

-- `Option::unwrap`, an index, a slice
abbrev pub or_panic {ℓ} : {E : Type 0} {A : Type ℓ} → Option A → Result E A
or_panic (some a) = ok a
or_panic none = panic

-- `Result::map_err`
abbrev pub map_err {ℓ} : {E F : Type 0} {A : Type ℓ} → (E → F) → Result E A → Result F A
map_err f (ok a) = ok a
map_err f (err e) = err (f e)
map_err f panic = panic
map_err f stuck = stuck

-- `Result::is_ok`
abbrev pub is_ok {ℓ} : {E : Type 0} {A : Type ℓ} → Result E A → Bool
is_ok (ok a) = true
is_ok _ = false

-- A chain that succeeds: its first call has.
module _ {ℓ κ} {E : Type 0} {A : Type ℓ} {B : Type κ} where
  pub ok_of_bind :
      (call : Result E A) (next : A → Result E B) {result : B}
      → (call >>= next) ≡ ok result
      → (value : A) × (call ≡ ok value) × (next value ≡ ok result)
  ok_of_bind panic next e = cc
  ok_of_bind stuck next e = cc
  ok_of_bind (err x) next e = cc
  ok_of_bind (ok value) next e = (value, refl, e)

-- A text is the list of its bytes.
abbrev pub Bytes : Type 0
Bytes = List ℕ

abbrev pub bytes_eq : Bytes → Bytes → Bool
bytes_eq [] [] = true
bytes_eq [] (y ∷ ys) = false
bytes_eq (x ∷ xs) [] = false
bytes_eq (x ∷ xs) (y ∷ ys) = (x == y) && bytes_eq xs ys

pub bytes_eq→eq : (xs ys : Bytes) → bytes_eq xs ys ≡ true → xs ≡ ys
bytes_eq→eq [] [] h = refl
bytes_eq→eq [] (y ∷ ys) h = cc
bytes_eq→eq (x ∷ xs) [] h = cc
bytes_eq→eq (x ∷ xs) (y ∷ ys) h = ground (arith, bytes_eq→eq xs ys)

pub bytes_eq_refl : (xs : Bytes) → bytes_eq xs xs ≡ true
bytes_eq_refl [] = refl
bytes_eq_refl (x ∷ xs) = ground (arith, bytes_eq_refl xs)

pub eq→bytes_eq : (xs ys : Bytes) → xs ≡ ys → bytes_eq xs ys ≡ true
eq→bytes_eq xs ys h = rw (← h) (bytes_eq_refl xs)

pub bytes_eq_iff : (xs ys : Bytes) → (bytes_eq xs ys ≡ true) ↔ (xs ≡ ys)
bytes_eq_iff xs ys = (bytes_eq→eq xs ys, eq→bytes_eq xs ys)
