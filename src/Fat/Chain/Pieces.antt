-- ===== src/Fat/Chain/Pieces.antt =====
-- The pieces in which a chain is written make up the data.
use vyper.Prelude.{
  ℕ, zero, suc, ◌+◌, ◌-◌, ◌*◌, ◌/◌, ◌≡◌, ◌<◌, ◌≤◌, refl, ap, sym, ◌∙◌, Bytes, ◌++◌, [], ◌∷◌, arith,
  length, take, drop, replicate, length-take, length-drop, drop-drop, take_all, take-append-drop,
  leb, inl, inr, Bool-cases,
}
use mathlib.Core.List.{append-nil, append_assoc}
use native.Mathlib.Nat.{suc-mul}
use vyper.Fat.Volume.{Volume}
use vyper.Fat.Chain.{chunk, clusters_needed}
use vyper.Fat.Chain.Write.{chunks}

nil_of_length : (xs : Bytes) → length xs ≡ 0 → xs ≡ []
nil_of_length [] h = refl
nil_of_length (x ∷ xs) h = absurd (omega arith)

abbrev zeros : ℕ → Bytes
zeros n = replicate n 0

zeros-append : (a b : ℕ) → zeros a ++ zeros b ≡ zeros (a + b)
zeros-append zero b = ap zeros (omega arith)
zeros-append (suc a) b =
    let e : suc a + b ≡ suc (a + b) = omega arith in rw e (ap (◌∷◌ 0) (zeros-append a b))

module _ {D : Type 0} (v : Volume D) where
  -- Data, with zeros up to `n` clusters.
  abbrev pub padded : Bytes → ℕ → Bytes
  padded bytes n = bytes ++ replicate (n * v.bytes_per_cluster - length bytes) 0

  abbrev rest : Bytes → ℕ → Bytes
  rest bytes i = drop (i * v.bytes_per_cluster) bytes

  rest-suc : (bytes : Bytes) (i : ℕ) → rest bytes (suc i) ≡ drop v.bytes_per_cluster (rest bytes i)
  rest-suc bytes i =
      ap (λ k. drop k bytes) (suc-mul i v.bytes_per_cluster)
      ∙ drop-drop (i * v.bytes_per_cluster) v.bytes_per_cluster bytes

  chunks_lem :
      (bytes : Bytes) (n i : ℕ)
      → length (rest bytes i) ≤ n * v.bytes_per_cluster
      → chunks v bytes n i ≡ padded (rest bytes i) n
  unfolding chunk
  chunks_lem bytes zero i h =
      let none_left : 0 ≡ 0 * v.bytes_per_cluster - 0 = omega arith in
      rw (nil_of_length (rest bytes i) (omega arith)) (ap zeros none_left)
  chunks_lem bytes (suc n) i h =
      let m = v.bytes_per_cluster in
      let xs = rest bytes i in
      let next = rest-suc bytes i in
      let left : length (rest bytes (suc i)) ≡ length xs - m = ap length next ∙ length-drop m xs in
      let later = chunks_lem bytes n (suc i) (omega (arith, suc-mul n m)) in
      elim (Bool-cases (leb m (length xs))) [
        | inl full ↦
            let room : m ≤ length xs = ground arith in
            let none_left : m - length (take m xs) ≡ 0 = omega (arith, length-take m xs) in
            let pad : n * m - length (rest bytes (suc i)) ≡ suc n * m - length xs =
              omega (arith, suc-mul n m) in
            ap (λ (k : ℕ). (take m xs ++ replicate k 0) ++ chunks v bytes n (suc i)) none_left
            ∙ (ap (λ t. t ++ chunks v bytes n (suc i)) (append-nil (take m xs))
                ∙ (ap (◌++◌ (take m xs)) (
                      later
                      ∙ (ap (λ t. t ++ replicate (n * m - length (rest bytes (suc i))) 0) next
                          ∙ ap (λ (k : ℕ). drop m xs ++ replicate k 0) pad))
                    ∙ (sym (
                          append_assoc (take m xs) (drop m xs)
                            (replicate (suc n * m - length xs) 0))
                        ∙ ap (λ t. t ++ replicate (suc n * m - length xs) 0)
                            (take-append-drop m xs))))
        | inr short ↦
            let less : length xs < m = ground arith in
            let all : take m xs ≡ xs = take_all m xs (omega arith) in
            let over : rest bytes (suc i) ≡ [] = nil_of_length (rest bytes (suc i)) (omega arith) in
            let blank : chunks v bytes n (suc i) ≡ replicate (n * m) 0 =
              later ∙ (ap (λ t. padded t n) over ∙ ap (λ (k : ℕ). replicate k 0) (omega arith)) in
            let sum : m - length xs + n * m ≡ suc n * m - length xs = omega (arith, suc-mul n m) in
            ap (λ t. (t ++ replicate (m - length t) 0) ++ chunks v bytes n (suc i)) all
            ∙ (append_assoc xs (replicate (m - length xs) 0) (chunks v bytes n (suc i))
                ∙ ap (◌++◌ xs) (
                    ap (◌++◌ (replicate (m - length xs) 0)) blank
                    ∙ (zeros-append (m - length xs) (n * m) ∙ ap (λ (k : ℕ). replicate k 0) sum)))
      ]

  -- The rounds of `write_chain` write the data, and zeros to the end of the last cluster.
  pub chunks-padded :
      (bytes : Bytes)
      → 1 ≤ v.bytes_per_cluster
      → chunks v bytes (clusters_needed v bytes) 0 ≡ padded bytes (clusters_needed v bytes)
  unfolding clusters_needed
  chunks-padded bytes some_bytes =
      let m = v.bytes_per_cluster in
      let none_read : 0 * m ≡ 0 = omega arith in
      let e : rest bytes 0 ≡ bytes = ap (λ k. drop k bytes) none_read in
      chunks_lem bytes ((length bytes + m - 1) / m) 0
        (omega (arith, ap length e, fits (length bytes) m some_bytes))
      ∙ ap (λ t. padded t ((length bytes + m - 1) / m)) e
    where
      fits : (n m : ℕ) → 1 ≤ m → n ≤ (n + m - 1) / m * m
      fits n m h = grind arith

  pub needed_pos :
      (bytes : Bytes) → 1 ≤ v.bytes_per_cluster → 1 ≤ length bytes → 1 ≤ clusters_needed v bytes
  unfolding clusters_needed
  needed_pos bytes h k = grind arith
