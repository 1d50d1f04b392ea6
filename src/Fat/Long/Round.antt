-- ===== src/Fat/Long/Round.antt =====
-- A long name that is split into entries and assembled is the same.
use vyper.Prelude.{
  ℕ, zero, suc, ◌+◌, ◌-◌, ◌*◌, ◌/◌, ◌%◌, ◌≡◌, ◌≤◌, refl, ap, sym, ◌∙◌, min, Bool, List, [], ◌∷◌,
  ◌++◌, if◌then◌else◌, ◌==◌, ltb, Bytes, length, set, take, drop, arith, inl, inr, Bool-cases,
  length-take, length-drop, length-append, take_all, take-append-drop, drop-drop,
}
use mathlib.Core.List.{append-nil, append_assoc}
use vyper.Fat.Long.{
  new, chars, pushed, fill, lfn_entries, create_lfn_entries, assemble_lfn, lfn_checksum,
}
use vyper.Fat.Long.Fill.{
  IsName, IsName-take, IsName-drop, part, pushed-part, pushed-fill, pushed-set,
}

-- The three arrays together.
three_parts :
    (cs : List ℕ) → length cs ≤ 13 → (take 5 cs ++ take 6 (drop 5 cs)) ++ take 2 (drop 11 cs) ≡ cs
three_parts cs h =
    append_assoc (take 5 cs) (take 6 (drop 5 cs)) (take 2 (drop 11 cs))
    ∙ (ap (λ r. take 5 cs ++ r)
          (ap (λ r. take 6 (drop 5 cs) ++ take 2 r) (drop-drop 5 6 cs)
            ∙ (ap (λ r. take 6 (drop 5 cs) ++ r) (take_all 2 (drop 6 (drop 5 cs)) short)
                ∙ take-append-drop 6 (drop 5 cs)))
        ∙ take-append-drop 5 cs)
  where
    short : length (drop 6 (drop 5 cs)) ≤ 2
    short = omega (arith, length-drop 6 (drop 5 cs), length-drop 5 cs)

empty : (xs : List ℕ) → length xs ≡ 0 → xs ≡ []
empty [] h = refl
empty (x ∷ xs) h = absurd (omega arith)

-- The early returns of `chars`.
abbrev pick : List ℕ → List ℕ → List ℕ → List ℕ
pick a b c =
    if ltb (length a) 5 then a else if ltb (length (a ++ b)) 11 then a ++ b else (a ++ b) ++ c

pick_all :
    (cs a b c : List ℕ)
    → length a ≡ min 5 (length cs)
    → length b ≡ min 6 (length cs - 5)
    → length c ≡ min 2 (length cs - 11)
    → (a ++ b) ++ c ≡ cs
    → pick a b c ≡ cs
pick_all cs a b c la lb lc whole = elim (Bool-cases (ltb (length a) 5)) [
  | inl short ↦ rw short (
      sym (append-nil a)
      ∙ (ap (λ r. a ++ r) (sym (empty b (ground arith)))
          ∙ (sym (append-nil (a ++ b))
              ∙ (ap (λ r. (a ++ b) ++ r) (sym (empty c (ground arith))) ∙ whole))))
  | inr long ↦ elim (Bool-cases (ltb (length (a ++ b)) 11)) [
    | inl short ↦
        let none_left : length c ≡ 0 = ground (arith, length-append a b) in
        rw (long, short)
          (sym (append-nil (a ++ b)) ∙ (ap (λ r. (a ++ b) ++ r) (sym (empty c none_left)) ∙ whole))
    | inr full ↦ rw (long, full) whole
  ]
]

abbrev first_part : List ℕ → List ℕ
first_part cs = if ltb (length cs) 5 then set (fill 5 cs) (length cs) 0 else fill 5 cs

pushed-first : (cs : List ℕ) → IsName cs → pushed (first_part cs) ≡ take 5 cs
pushed-first cs h = elim (Bool-cases (ltb (length cs) 5)) [
  | inl short ↦ rw short (pushed-set 5 cs h (ground arith) ∙ sym (take_all 5 cs (ground arith)))
  | inr long ↦ rw long (pushed-fill 5 cs h)
]

-- `chars` reads the characters that an entry was made of.
chars-new :
    (seq checksum : ℕ) (cs : List ℕ) (last : Bool)
    → IsName cs
    → length cs ≤ 13
    → chars (new seq checksum cs last) ≡ cs
unfolding chars new
chars-new seq checksum cs last h short =
    ap (λ a. pick a (pushed (part 5 6 cs)) (pushed (part 11 2 cs))) (pushed-first cs h)
    ∙ (ap (λ b. pick (take 5 cs) b (pushed (part 11 2 cs))) (pushed-part 5 6 cs h)
        ∙ (ap (pick (take 5 cs) (take 6 (drop 5 cs))) (pushed-part 11 2 cs h)
            ∙ pick_all cs (take 5 cs) (take 6 (drop 5 cs)) (take 2 (drop 11 cs)) (length-take 5 cs)
                (omega (arith, length-take 6 (drop 5 cs), length-drop 5 cs))
                (omega (arith, length-take 2 (drop 11 cs), length-drop 11 cs))
                (three_parts cs short)))

take-nothing : (m : ℕ) → take {A = ℕ} m [] ≡ []
take-nothing zero = refl
take-nothing (suc m) = refl

take-min : (n : ℕ) (xs : List ℕ) → take (min n (length xs)) xs ≡ take n xs
take-min zero xs =
    let none_left : min 0 (length xs) ≡ 0 = omega arith in ap (λ k. take k xs) none_left
take-min (suc n) [] = take-nothing (min (suc n) 0)
take-min (suc n) (x ∷ xs) =
    ap (λ k. take k (x ∷ xs)) (both n (length xs)) ∙ ap (λ r. x ∷ r) (take-min n xs)
  where
    both : (a b : ℕ) → min (suc a) (suc b) ≡ suc (min a b)
    both a b = omega arith

take-take : (n m : ℕ) (xs : List ℕ) → take (n + m) xs ≡ take n xs ++ take m (drop n xs)
take-take zero m xs = let e : 0 + m ≡ m = omega arith in ap (λ k. take k xs) e
take-take (suc n) m [] = take-nothing (suc n + m) ∙ sym (take-nothing m)
take-take (suc n) m (x ∷ xs) = next ∙ ap (λ r. x ∷ r) (take-take n m xs)
  where
    next : take (suc n + m) (x ∷ xs) ≡ x ∷ take (n + m) xs
    next = let e : suc n + m ≡ suc (n + m) = omega arith in ap (λ k. take k (x ∷ xs)) e

-- The entries from the `n`-th down hold the first 13 * n characters.
assemble-entries :
    (checksum total : ℕ) (name : List ℕ) (n : ℕ)
    → IsName name
    → assemble_lfn (lfn_entries checksum total name n) ≡ take (n * 13) name
unfolding lfn_entries assemble_lfn
assemble-entries checksum total name zero h = refl
assemble-entries checksum total name (suc i) h =
    let stop = min (i * 13 + 13) (length name) in
    let slice = take (stop - i * 13) (drop (i * 13) name) in
    let count : stop - i * 13 ≡ min 13 (length (drop (i * 13) name)) =
      omega (arith, length-drop (i * 13) name) in
    let short : length slice ≤ 13 =
      omega (arith, length-take (stop - i * 13) (drop (i * 13) name)) in
    let all : slice ≡ take 13 (drop (i * 13) name) =
      ap (λ k. take k (drop (i * 13) name)) count ∙ take-min 13 (drop (i * 13) name) in
    let next : i * 13 + 13 ≡ suc i * 13 = omega arith in
    ap (λ r. r ++ chars (new ((i + 1) % 256) checksum slice (i + 1 == total)))
      (assemble-entries checksum total name i h)
    ∙ (ap (λ r. take (i * 13) name ++ r)
          (chars-new ((i + 1) % 256) checksum slice (i + 1 == total)
              (IsName-take (stop - i * 13) (drop (i * 13) name) (IsName-drop (i * 13) name h)) short
            ∙ all)
        ∙ (sym (take-take (i * 13) 13 name) ∙ ap (λ k. take k name) next))

-- Splitting a name into the entries of its directory records and assembling them gives the name
-- back, whatever its length, where its characters have 16 bits and are neither 0, nor 0xFFFF, nor
-- surrogates.
pub assemble_lfn-create_lfn_entries :
    (name : List ℕ) (short_name : Bytes)
    → IsName name
    → assemble_lfn (create_lfn_entries name short_name) ≡ name
unfolding create_lfn_entries
assemble_lfn-create_lfn_entries name short_name h =
    let n = (length name + 12) / 13 in
    assemble-entries (lfn_checksum short_name) n name n h ∙ take_all (n * 13) name (omega arith)
