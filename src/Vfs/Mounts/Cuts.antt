-- ===== src/Vfs/Mounts/Cuts.antt =====
-- Where the slice of `resolve` of vcore/src/vfs/mod.rs panics on a path that is not UTF-8.
use vyper.Prelude.{
  ℕ, ◌≡◌, ◌≢◌, ◌≤◌, ◌<◌, ◌⊎◌, refl, ap, ◌∙◌, true, false, [], ◌∷◌, ◌++◌, arith, Bytes, length, drop,
  panic, Bool-cases, Option-cases, inl, inr, bytes_eq, bytes_eq_iff, drop_append, length-append,
}
use vyper.Vfs.Types.{VfsResult}
use vyper.Vfs.FilePath.{slash, normalize_path}
use vyper.Vfs.Mounts.{
  Mount, Vfs, starts_with, at_boundary, in_one_piece, relative_to, slices_at, dispatch,
  dispatch_bytes,
}
use vyper.Vfs.Mounts.Resolve.{
  Covers, starts_with-append, starts_with-eq, relative_to-Covers, Covers-relative_to,
}

-- A path that goes on behind a mount, other than the root, with a byte of the middle of a character.
abbrev pub CutsAt : Bytes → Bytes → Type 0
CutsAt at path =
    (at ≢ slash ∷ [])
    × ((c : ℕ) × (rest : Bytes) × (128 ≤ c) × (c < 192) × (path ≡ at ++ (c ∷ rest)))

longer : (at rest : Bytes) (c : ℕ) → at ++ (c ∷ rest) ≢ at
longer at rest c e = absurd (omega (arith, ap length e, length-append {0} at (c ∷ rest)))

boundary_cut :
    (text : Bytes)
    → at_boundary text ≡ false
    → (c : ℕ) × (rest : Bytes) × (128 ≤ c) × (c < 192) × (text ≡ c ∷ rest)
boundary_cut [] e = cc
boundary_cut (c ∷ rest) e = (c, rest, ground arith, ground arith, refl)

module _ {F : Type 0} where
  -- The search comes to a mount where the path is cut, and to none before that covers it.
  abbrev pub Inside : Bytes → Vfs F → Type 0
  Inside path [] = ⊥
  Inside path (m ∷ ms) =
      CutsAt m.path path ⊎ (((relative : Bytes) → ¬ (Covers m.path path relative)) × Inside path ms)

  piece-CutsAt : (path : Bytes) (m : Mount F) → in_one_piece path m ≡ false → CutsAt m.path path
  piece-CutsAt path m e =
      let root : bytes_eq m.path (slash ∷ []) ≡ false = ground arith in
      let pre : starts_with path m.path ≡ true = ground arith in
      let off : at_boundary (drop (length m.path) path) ≡ false = ground arith in
      let (c, rest, above, below, is) = boundary_cut (drop (length m.path) path) off in
      (
        λ q. cc ((bytes_eq_iff m.path (slash ∷ [])).1 q),
        (c, rest, above, below, starts_with-eq path m.path pre ∙ ap (◌++◌ m.path) is),
      )

  CutsAt-piece : (path : Bytes) (m : Mount F) → CutsAt m.path path → in_one_piece path m ≡ false
  CutsAt-piece path m (other, (c, rest, above, below, is)) =
      let whole : bytes_eq m.path (slash ∷ []) ≡ false =
        ground (arith, (bytes_eq_iff m.path (slash ∷ [])).0) in
      let beyond : bytes_eq (m.path ++ (c ∷ rest)) m.path ≡ false =
        ground (arith, (bytes_eq_iff (m.path ++ (c ∷ rest)) m.path).0, longer m.path rest c) in
      rw (is) (
        rw (whole, beyond, starts_with-append m.path (c ∷ rest), drop_append m.path (c ∷ rest))
          (ground arith))

  slices-Inside : (path : Bytes) (ms : Vfs F) → slices_at path ms ≡ false → Inside path ms
  unfolding slices_at
  slices-Inside path [] e = cc
  slices-Inside path (m ∷ ms) e = elim (Bool-cases (in_one_piece path m)) [
    | inr cut ↦ inl (piece-CutsAt path m cut)
    | inl whole ↦ elim (Option-cases (relative_to path m)) [
      | inr (r, covers) ↦ absurd (ground arith)
      | inl none_here ↦ inr (
        λ r c. let at = Covers-relative_to path r m c in cc,
        slices-Inside path ms (ground arith),
      )
    ]
  ]

  Inside-slices : (path : Bytes) (ms : Vfs F) → Inside path ms → slices_at path ms ≡ false
  unfolding slices_at
  Inside-slices path [] h = elim h [ ]
  Inside-slices path (m ∷ ms) (inl cut) = rw (CutsAt-piece path m cut) refl
  Inside-slices path (m ∷ ms) (inr (uncovered, later)) = elim (Option-cases (relative_to path m)) [
    | inr (r, e) ↦ absurd (uncovered r (relative_to-Covers path r m e))
    | inl e ↦ ground (arith, Inside-slices path ms later)
  ]

  -- A call with a path of bytes that nothing has checked panics, and changes nothing, exactly where
  -- the search comes to a mount, other than the root, behind whose path the normalised path goes
  -- on inside a character, before it comes to one that covers it; everywhere else it does what
  -- `dispatch` does.
  pub dispatch_bytes_lem :
      {A : Type 0} (ms : Vfs F) (path : Bytes) (method : F → Bytes → VfsResult A × F)
      → (Inside (normalize_path path) ms × (dispatch_bytes ms path method ≡ (panic, ms)))
        ⊎ (¬ (Inside (normalize_path path) ms)
            × (dispatch_bytes ms path method ≡ dispatch ms path method))
  unfolding dispatch_bytes
  dispatch_bytes_lem ms path method = elim (Bool-cases (slices_at (normalize_path path) ms)) [
    | inl whole ↦
        inr (λ i. cc (Inside-slices (normalize_path path) ms i), rw (whole, dispatch_bytes) refl)
    | inr cut ↦ inl (slices-Inside (normalize_path path) ms cut, rw (cut, dispatch_bytes) refl)
  ]
