-- ===== src/Fat/Long/Fill.antt =====
-- The three arrays of an `LfnEntry`: what `chars` reads of what `new` writes.
use vyper.Prelude.{
  ℕ, zero, suc, ◌+◌, ◌-◌, ◌%◌, ◌^◌, ◌≡◌, ◌≢◌, ◌<◌, ◌≤◌, refl, ap, sym, ◌∙◌, true, false, ◌&&◌, List,
  [], ◌∷◌, ◌++◌, if◌then◌else◌, ◌==◌, ltb, leb, length, set, take, drop, replicate, arith, inl, inr,
  Bool-cases, length-drop, take_all,
}
use mathlib.Core.List.{append-nil}
use vyper.Fat.Long.{pushed, words_of, fill, is_char}

-- Characters of 16 bits that are not the ones that end or pad a name.
abbrev pub IsName : List ℕ → Type 0
IsName [] = Unit
IsName (c ∷ cs) = ((c ≢ 0) × (c < 0xFFFF) × (is_char c ≡ true)) × IsName cs

pub IsName-take : (n : ℕ) (cs : List ℕ) → IsName cs → IsName (take n cs)
IsName-take zero cs h = tt
IsName-take (suc n) [] h = tt
IsName-take (suc n) (c ∷ cs) (g, h) = (g, IsName-take n cs h)

pub IsName-drop : (n : ℕ) (cs : List ℕ) → IsName cs → IsName (drop n cs)
IsName-drop zero cs h = h
IsName-drop (suc n) [] h = tt
IsName-drop (suc n) (c ∷ cs) (g, h) = IsName-drop n cs h

pushed-words : (cs rest : List ℕ) → IsName cs → pushed (words_of cs ++ rest) ≡ cs ++ pushed rest
unfolding pushed
pushed-words [] rest h = refl
pushed-words (c ∷ cs) rest ((nonzero, below, char), h) =
    let a : (c % 2 ^ 16 == 0) ≡ false = ground arith in
    let b : (c % 2 ^ 16 == 0xFFFF) ≡ false = ground arith in
    let same : c % 2 ^ 16 ≡ c = omega arith in
    rw (a, b, same, char) (ap (λ r. c ∷ r) (pushed-words cs rest h))

pushed_padding : (n : ℕ) → pushed (replicate n 0xFFFF) ≡ []
unfolding pushed
pushed_padding zero = refl
pushed_padding (suc n) = refl

pushed_end : (rest : List ℕ) → pushed (0 ∷ rest) ≡ []
unfolding pushed
pushed_end rest = refl

pub pushed-fill : (n : ℕ) (cs : List ℕ) → IsName cs → pushed (fill n cs) ≡ take n cs
unfolding fill
pushed-fill n cs h =
    pushed-words (take n cs) (replicate (n - length cs) 0xFFFF) (IsName-take n cs h)
    ∙ (ap (λ r. take n cs ++ r) (pushed_padding (n - length cs)) ∙ append-nil (take n cs))

length-words_of : (cs : List ℕ) → length (words_of cs) ≡ length cs
length-words_of [] = refl
length-words_of (c ∷ cs) = ap suc (length-words_of cs)

set_skip : (xs ys : List ℕ) (v : ℕ) → set (xs ++ ys) (length xs) v ≡ xs ++ set ys 0 v
set_skip [] ys v = refl
set_skip (x ∷ xs) ys v = ap (λ r. x ∷ r) (set_skip xs ys v)

-- The array that ends with a zero.
pub pushed-set :
    (n : ℕ) (cs : List ℕ) → IsName cs → length cs < n → pushed (set (fill n cs) (length cs) 0) ≡ cs
unfolding fill
pushed-set n cs h short =
    let all = take_all n cs (omega arith) in
    ap (λ t. pushed (set (words_of t ++ replicate (n - length cs) 0xFFFF) (length cs) 0)) all
    ∙ (ap (λ k. pushed (set (words_of cs ++ replicate (n - length cs) 0xFFFF) k 0))
          (sym (length-words_of cs))
        ∙ (ap pushed (set_skip (words_of cs) (replicate (n - length cs) 0xFFFF) 0)
            ∙ (pushed-words cs (set (replicate (n - length cs) 0xFFFF) 0 0) h
                ∙ (ap (λ r. cs ++ r) (ended (n - length cs) (omega arith)) ∙ append-nil cs))))
  where
    ended : (k : ℕ) → 1 ≤ k → pushed (set (replicate k 0xFFFF) 0 0) ≡ []
    ended zero h = absurd (omega arith)
    ended (suc k) h = pushed_end (replicate k 0xFFFF)

-- The array of `n` words for the characters from the `k`-th on.
abbrev pub part : ℕ → ℕ → List ℕ → List ℕ
part k n cs =
    let len = length cs in
    let filled = if leb k len then fill n (drop k cs) else replicate n 0xFFFF in
    if leb k len && ltb len (k + n) then set filled (len - k) 0 else filled

pub drop_all : (k : ℕ) (cs : List ℕ) → length cs ≤ k → drop k cs ≡ []
drop_all zero [] h = refl
drop_all zero (c ∷ cs) h = absurd (omega arith)
drop_all (suc k) [] h = refl
drop_all (suc k) (c ∷ cs) h = drop_all k cs (omega arith)

take-nil : (n : ℕ) → take {A = ℕ} n [] ≡ []
take-nil zero = refl
take-nil (suc n) = refl

pub pushed-part : (k n : ℕ) (cs : List ℕ) → IsName cs → pushed (part k n cs) ≡ take n (drop k cs)
pushed-part k n cs h = elim (Bool-cases (leb k (length cs))) [
  | inr beyond ↦
      rw beyond
        (pushed_padding n ∙ (sym (take-nil n) ∙ ap (take n) (sym (drop_all k cs (ground arith)))))
  | inl within ↦ elim (Bool-cases (ltb (length cs) (k + n))) [
    | inr full ↦ rw (within, full) (pushed-fill n (drop k cs) (IsName-drop k cs h))
    | inl short ↦
        let rest : length cs - k ≡ length (drop k cs) = omega (arith, length-drop k cs) in
        let fits : length (drop k cs) < n = ground (arith, length-drop k cs) in
        rw (within, short)
          (ap (λ i. pushed (set (fill n (drop k cs)) i 0)) rest
            ∙ (pushed-set n (drop k cs) (IsName-drop k cs h) fits
                ∙ sym (take_all n (drop k cs) (omega arith))))
  ]
]
