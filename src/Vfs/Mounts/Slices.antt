-- ===== src/Vfs/Mounts/Slices.antt =====
-- The slices of `resolve` of vcore/src/vfs/mod.rs: on a text, and with mounts whose paths end in an
-- ASCII character, none of them panics.
use vyper.Prelude.{
  ℕ, suc, ◌≡◌, refl, ap, ◌∙◌, Bool, true, some, [], ◌∷◌, ltb, arith, Bytes, length, drop, get_elem?,
  Bool-cases, Option-cases, inl, inr,
}
use vyper.Vfs.Types.{VfsResult}
use vyper.Vfs.FilePath.{normalize_path}
use vyper.Vfs.FilePath.Utf.{IsText, Led, normalize_path-IsText}
use vyper.Vfs.Mounts.{
  Mount, Vfs, starts_with, at_boundary, in_one_piece, relative_to, slices_at, dispatch,
  dispatch_bytes,
}

abbrev pub EndsAscii : Bytes → Type 0
EndsAscii [] = ⊥
EndsAscii (c ∷ []) = ltb c 128 ≡ true
EndsAscii (c ∷ d ∷ cs) = EndsAscii (d ∷ cs)

text_begins :
    (text : Bytes) (after : Bool) → after ≡ true → Led after text → at_boundary text ≡ true
text_begins [] after e h = refl
text_begins (c ∷ cs) after e h = h.0 e

cut_boundary :
    (path mount : Bytes) (after : Bool)
    → Led after path
    → EndsAscii mount
    → starts_with path mount ≡ true
    → at_boundary (drop (length mount) path) ≡ true
cut_boundary path [] after h k e = elim k [ ]
cut_boundary [] (c ∷ cs) after h k e = cc
cut_boundary (d ∷ path) (c ∷ []) after h k e =
    let same : d ≡ c = ground arith in
    text_begins path (ltb d 128) (ap (λ b. ltb b 128) same ∙ k) h.1
cut_boundary (d ∷ path) (c ∷ c' ∷ cs) after h k e =
    cut_boundary path (c' ∷ cs) (ltb d 128) h.1 k (ground arith)

module _ {F : Type 0} where
  -- A predicate on the mounts of a table.
  abbrev pub Each : (Mount F → Type 0) → Vfs F → Type 0
  Each P ms = (j : ℕ) (m : Mount F) → get_elem? ms j ≡ some m → P m

  one_piece :
      (path : Bytes) (m : Mount F) → IsText path → EndsAscii m.path → in_one_piece path m ≡ true
  one_piece path m h k = elim (Bool-cases (starts_with path m.path)) [
    | inl e ↦ ground (arith, cut_boundary path m.path true h k e)
    | inr e ↦ ground arith
  ]

  slices_at_text :
      (path : Bytes) (ms : Vfs F)
      → IsText path
      → Each (λ m. EndsAscii m.path) ms
      → slices_at path ms ≡ true
  unfolding slices_at
  slices_at_text path [] h k = refl
  slices_at_text path (m ∷ ms) h k =
      let later = slices_at_text path ms h (λ j n e. k (suc j) n e) in
      let here = one_piece path m h (k 0 m refl) in
      elim (Option-cases (relative_to path m)) [
        | inl e ↦ rw (here, e) later
        | inr (r, e) ↦ rw (here, e) refl
      ]

  pub dispatch_bytes-dispatch :
      {A : Type 0} (ms : Vfs F) (path : Bytes) (method : F → Bytes → VfsResult A × F)
      → IsText path
      → Each (λ m. EndsAscii m.path) ms
      → dispatch_bytes ms path method ≡ dispatch ms path method
  unfolding dispatch_bytes
  dispatch_bytes-dispatch ms path method h k =
      rw (slices_at_text (normalize_path path) ms (normalize_path-IsText path h) k) refl
