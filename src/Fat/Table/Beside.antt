-- ===== src/Fat/Table/Beside.antt =====
-- The bytes of a sector beside a patched entry.
use vyper.Prelude.{
  ℕ, ◌+◌, ◌-◌, ◌≡◌, ◌<◌, ◌≤◌, ◌⊎◌, refl, ap, sym, ◌∙◌, ◌++◌, true, false, if◌then◌else◌, ltb, Bytes,
  length, take, drop, get_or, from_le, to_le, arith, length-take, length-append, length-drop,
  length-to_le, list_ext, get_or-append, get_or-take, get_or-drop, inl, inr, Bool-cases,
}
use vyper.Fat.Bpb.{le_at}
use vyper.Fat.Table.{merged, patched}

pub length-patched :
    (sector : Bytes) (offset value : ℕ)
    → length sector ≡ 512
    → offset + 4 ≤ 512
    → length (patched sector offset value) ≡ 512
unfolding patched
length-patched sector offset value whole h =
    let word = to_le 4 (merged (le_at 4 offset sector) value) in
    omega (
      arith,
      length-append (take offset sector) (word ++ drop (offset + 4) sector),
      length-append word (drop (offset + 4) sector),
      length-to_le 4 (merged (le_at 4 offset sector) value),
      length-take offset sector,
      length-drop (offset + 4) sector,
    )

-- A byte outside of the patched word.
get_or-patched :
    (sector : Bytes) (offset value i : ℕ)
    → length sector ≡ 512
    → offset + 4 ≤ 512
    → (i < offset) ⊎ (offset + 4 ≤ i)
    → get_or (patched sector offset value) i 0 ≡ get_or sector i 0
unfolding patched
get_or-patched sector offset value i whole h out =
    let word = to_le 4 (merged (le_at 4 offset sector) value) in
    let back = drop (offset + 4) sector in
    let len_front = length-take offset sector in
    let len_word = length-to_le 4 (merged (le_at 4 offset sector) value) in
    elim out [
      | inl before ↦
          let inside : ltb i (length (take offset sector)) ≡ true = ground arith in
          let low : ltb i offset ≡ true = ground arith in
          get_or-append (take offset sector) (word ++ back) i 0
          ∙ rw inside (get_or-take offset i sector 0 ∙ rw low refl)
      | inr after ↦
          let outside : ltb i (length (take offset sector)) ≡ false = ground arith in
          let past : ltb (i - length (take offset sector)) (length word) ≡ false = ground arith in
          let there : offset + 4 + (i - length (take offset sector) - length word) ≡ i =
            omega arith in
          get_or-append (take offset sector) (word ++ back) i 0
          ∙ rw outside (
              get_or-append word back (i - length (take offset sector)) 0
              ∙ rw past (
                  get_or-drop (offset + 4) (i - length (take offset sector) - length word) sector 0
                  ∙ ap (λ k. get_or sector k 0) there))
    ]

-- A word beside the patched one.
pub le_at-other :
    (sector : Bytes) (offset value o : ℕ)
    → length sector ≡ 512
    → offset + 4 ≤ 512
    → o + 4 ≤ 512
    → (o + 4 ≤ offset) ⊎ (offset + 4 ≤ o)
    → le_at 4 o (patched sector offset value) ≡ le_at 4 o sector
le_at-other sector offset value o whole h k apart =
    let new_sector = patched sector offset value in
    let size = length-patched sector offset value whole h in
    ap from_le (
      list_ext 0 (take 4 (drop o new_sector)) (take 4 (drop o sector))
        (omega (
          arith,
          length-take 4 (drop o new_sector),
          length-take 4 (drop o sector),
          length-drop o new_sector,
          length-drop o sector,
        ))
        (λ i.
          get_or-take 4 i (drop o new_sector) 0
          ∙ (byte i ∙ sym (get_or-take 4 i (drop o sector) 0))))
  where
    byte :
        (i : ℕ)
        → (if ltb i 4 then get_or (drop o (patched sector offset value)) i 0 else 0)
          ≡ (if ltb i 4 then get_or (drop o sector) i 0 else 0)
    byte i = elim (Bool-cases (ltb i 4)) [
      | inl low ↦ rw low (
          get_or-drop o i (patched sector offset value) 0
          ∙ (get_or-patched sector offset value (o + i) whole h
                (elim apart [ inl a ↦ inl (ground arith) | inr b ↦ inr (omega arith) ])
              ∙ sym (get_or-drop o i sector 0)))
      | inr high ↦ rw high refl
    ]
