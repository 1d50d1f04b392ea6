-- ===== src/Fat/Calls/Open.antt =====
-- What `open` can do to a volume.
use vyper.Prelude.{
  ℕ, ◌≡◌, ◌≢◌, refl, Option, none, some, List, [], ◌∷◌, false, ◌==◌, Bool-cases, inl, inr, ok, err,
  panic, stuck, Result, arith, leb, length,
}
use vyper.Block.Device.{Message, invalid_path}
use vyper.Vfs.Types.{OpenFlags, contains, o_creat}
use vyper.Vfs.FilePath.{slash, split, cons_first}
use vyper.Fat.Volume.{and_then, pure, Volume}
use vyper.Fat.Dir.{FatDirEntry}
use vyper.Fat.Fs.{
  cluster_of, is_dir, not_empty_parts, trim, trim_start, trim_end, resolve_from, resolve_path,
  split_path, find_in_directory,
}
use vyper.Fat.Calls.{open_file, open_data}

-- A path without components is made of slashes.
cons_first-full : (c : ℕ) (pieces : List (List ℕ)) → not_empty_parts (cons_first c pieces) ≢ []
unfolding not_empty_parts
cons_first-full c [] h = cc
cons_first-full c (p ∷ ps) h = cc

slashes : (path : List ℕ) → not_empty_parts (split path) ≡ [] → trim_start path ≡ []
unfolding trim_start split not_empty_parts
slashes [] h = refl
slashes (c ∷ cs) h = elim (Bool-cases (c == slash)) [
  | inl e ↦ rw e (slashes cs (rw e at h))
  | inr o ↦ absurd (cons_first-full c (split cs) (rw o at h))
]

module _ {D : Type 0} (v : Volume D) (upper lower : List ℕ → List ℕ) (root fuel : ℕ) where
  -- Only a path without components resolves to no entry.
  resolve_from-none :
      (c c' : ℕ) (parts : List (List ℕ)) (d : D)
      → resolve_from v upper lower root fuel c parts d ≡ ok (c', none)
      → parts ≡ []
  unfolding resolve_from
  resolve_from-none c c' [] d h = refl
  resolve_from-none c c' (part ∷ []) d h =
      go (find_in_directory v upper lower root fuel c part d) refl
    where
      go :
          (r : Result Message (Option FatDirEntry))
          → find_in_directory v upper lower root fuel c part d ≡ r
          → (part ∷ []) ≡ []
      go (ok none) e = cc (rw (e, resolve_from) at h)
      go (ok (some entry)) e = cc (rw (e, resolve_from) at h)
      go (err x) e = cc (rw (e, resolve_from) at h)
      go panic e = cc (rw (e, resolve_from) at h)
      go stuck e = cc (rw (e, resolve_from) at h)
  resolve_from-none c c' (part ∷ next ∷ parts) d h =
      go (find_in_directory v upper lower root fuel c part d) refl
        (λ k. resolve_from-none k c' (next ∷ parts) d)
    where
      go :
          (r : Result Message (Option FatDirEntry))
          → find_in_directory v upper lower root fuel c part d ≡ r
          → ((k : ℕ)
              → resolve_from v upper lower root fuel k (next ∷ parts) d ≡ ok (c', none)
              → (next ∷ parts) ≡ [])
          → (part ∷ next ∷ parts) ≡ []
      go (ok none) e ih = cc (rw (e, resolve_from) at h)
      go (ok (some entry)) e ih = elim (Bool-cases (is_dir entry)) [
        | inl dir ↦
            let more : leb (length (next ∷ parts)) 0 ≡ false = ground arith in
            cc (ih (cluster_of entry) (rw (e, resolve_from, more, dir) at h))
        | inr other ↦
            let more : leb (length (next ∷ parts)) 0 ≡ false = ground arith in
            cc (rw (e, resolve_from, more, other) at h)
      ]
      go (err x) e ih = cc (rw (e, resolve_from) at h)
      go panic e ih = cc (rw (e, resolve_from) at h)
      go stuck e ih = cc (rw (e, resolve_from) at h)

  none-slashes :
      (path : List ℕ) (c : ℕ) (d : D)
      → resolve_path v upper lower root fuel path d ≡ ok (c, none)
      → not_empty_parts (split path) ≡ []
  unfolding resolve_path
  none-slashes path c d e = resolve_from-none root c (not_empty_parts (split path)) d e

  split_path-slashes :
      (path : List ℕ) (d : D)
      → not_empty_parts (split path) ≡ []
      → split_path v upper lower root fuel path d ≡ (err invalid_path, d)
  unfolding split_path trim trim_end
  split_path-slashes path d h = rw (slashes path h) refl

  reads_only :
      {E A B : Type 0} (r : Result E A) (make : A → B) (d : D)
      → (and_then (r, d) (λ a. pure {E = E} (make a))).1 ≡ d
  reads_only (ok a) make d = refl
  reads_only (err e) make d = refl
  reads_only panic make d = refl
  reads_only stuck make d = refl

  -- `open` leaves the volume as it was, whatever the path and the flags: it reads, and with O_CREAT
  -- it creates no file either.
  pub open_file-keeps :
      (path : List ℕ) (flags : OpenFlags) (d : D)
      → (open_file v upper lower root fuel path flags d).1 ≡ d
  unfolding open_file
  open_file-keeps path flags d = go (resolve_path v upper lower root fuel path d) refl
    where
      go :
          (r : Result Message (ℕ × Option FatDirEntry))
          → resolve_path v upper lower root fuel path d ≡ r
          → (open_file v upper lower root fuel path flags d).1 ≡ d
      go (ok (c, some entry)) e = elim (Bool-cases (is_dir entry)) [
        | inl dir ↦ rw (e, open_file, dir) refl
        | inr other ↦
            rw (e, open_file, other) (reads_only (open_data v upper lower root fuel entry d) _ d)
      ]
      go (ok (c, none)) e = elim (Bool-cases (contains flags o_creat)) [
        | inl create ↦
            rw (e, open_file, create, split_path-slashes path d (none-slashes path c d e)) refl
        | inr keep ↦ rw (e, open_file, keep) refl
      ]
      go (err x) e = rw (e, open_file) refl
      go panic e = rw (e, open_file) refl
      go stuck e = rw (e, open_file) refl
