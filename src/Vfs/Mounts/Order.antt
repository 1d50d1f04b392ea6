-- ===== src/Vfs/Mounts/Order.antt =====
-- The order of the mounts: longest path first, each path once.
use vyper.Prelude.{
  ℕ, zero, suc, ◌≤◌, ◌≡◌, ◌≢◌, sym, false, [], ◌∷◌, ◌++◌, arith, Bytes, bytes_eq_iff, length,
  erase_idx, Bool-cases, Option-cases, inl, inr,
}
use vyper.Vfs.FilePath.{normalize_path}
use vyper.Vfs.Mounts.{Mount, Vfs, is_mounted, insert_sorted, sort_mounts, mount, position, unmount}

module _ {F : Type 0} where
  -- No path of the list is longer than `n`.
  abbrev pub AtMost : ℕ → Vfs F → Type 0
  AtMost n [] = Unit
  AtMost n (m ∷ ms) = (length m.path ≤ n) × AtMost n ms

  abbrev pub Absent : Bytes → Vfs F → Type 0
  Absent p [] = Unit
  Absent p (m ∷ ms) = (m.path ≢ p) × Absent p ms

  -- Sorted, and no path twice.
  abbrev pub IsValid : Vfs F → Type 0
  IsValid [] = Unit
  IsValid (m ∷ ms) = AtMost (length m.path) ms × Absent m.path ms × IsValid ms

  AtMost-le : (n k : ℕ) (ms : Vfs F) → n ≤ k → AtMost n ms → AtMost k ms
  AtMost-le n k [] h a = tt
  AtMost-le n k (m ∷ ms) h a = (omega arith, AtMost-le n k ms h a.1)

  AtMost-insert :
      (n : ℕ) (m : Mount F) (ms : Vfs F)
      → length m.path ≤ n
      → AtMost n ms
      → AtMost n (insert_sorted m ms)
  unfolding insert_sorted
  AtMost-insert n m [] h a = (h, tt)
  AtMost-insert n m (k ∷ ms) h a = ground (arith, AtMost-insert n m ms h a.1)

  Absent-insert :
      (p : Bytes) (m : Mount F) (ms : Vfs F)
      → m.path ≢ p
      → Absent p ms
      → Absent p (insert_sorted m ms)
  unfolding insert_sorted
  Absent-insert p m [] h a = (h, tt)
  Absent-insert p m (k ∷ ms) h a = ground (arith, Absent-insert p m ms h a.1)

  insert-IsValid :
      (m : Mount F) (ms : Vfs F) → Absent m.path ms → IsValid ms → IsValid (insert_sorted m ms)
  unfolding insert_sorted
  insert-IsValid m [] a v = (tt, tt, tt)
  insert-IsValid m (k ∷ ms) a v = ground (
    arith,
    insert-IsValid m ms a.1 v.2,
    AtMost-insert (length k.path) m ms,
    Absent-insert k.path m ms,
    AtMost-le (length k.path) (length m.path) ms,
  )

  abbrev Distinct : Vfs F → Type 0
  Distinct [] = Unit
  Distinct (m ∷ ms) = Absent m.path ms × Distinct ms

  Absent-sort : (p : Bytes) (ms : Vfs F) → Absent p ms → Absent p (sort_mounts ms)
  unfolding sort_mounts
  Absent-sort p [] a = tt
  Absent-sort p (m ∷ ms) a = Absent-insert p m (sort_mounts ms) a.0 (Absent-sort p ms a.1)

  sort-IsValid : (ms : Vfs F) → Distinct ms → IsValid (sort_mounts ms)
  unfolding sort_mounts
  sort-IsValid [] d = tt
  sort-IsValid (m ∷ ms) d =
      insert-IsValid m (sort_mounts ms) (Absent-sort m.path ms d.0) (sort-IsValid ms d.1)

  IsValid-Distinct : (ms : Vfs F) → IsValid ms → Distinct ms
  IsValid-Distinct [] v = tt
  IsValid-Distinct (m ∷ ms) v = (v.1, IsValid-Distinct ms v.2)

  Absent-append :
      (p : Bytes) (ms : Vfs F) (m : Mount F) → Absent p ms → m.path ≢ p → Absent p (ms ++ (m ∷ []))
  Absent-append p [] m a h = (h, tt)
  Absent-append p (k ∷ ms) m a h = (a.0, Absent-append p ms m a.1 h)

  Distinct-append :
      (ms : Vfs F) (m : Mount F) → Distinct ms → Absent m.path ms → Distinct (ms ++ (m ∷ []))
  Distinct-append [] m d a = (tt, tt)
  Distinct-append (k ∷ ms) m d a =
      (Absent-append k.path ms m d.0 (λ e. a.0 (sym e)), Distinct-append ms m d.1 a.1)

  pub not_mounted-Absent : (p : Bytes) (ms : Vfs F) → is_mounted p ms ≡ false → Absent p ms
  unfolding is_mounted
  not_mounted-Absent p [] h = tt
  not_mounted-Absent p (m ∷ ms) h =
      ground (arith, not_mounted-Absent p ms, (bytes_eq_iff m.path p).1)

  -- `mount` keeps the mounts sorted by falling length of their paths, and each path mounted once.
  pub mount-IsValid :
      (ms : Vfs F) (path : Bytes) (fs : F) → IsValid ms → IsValid (mount ms path fs).1
  unfolding mount
  mount-IsValid ms path fs v = elim (Bool-cases (is_mounted (normalize_path path) ms)) [
    | inl taken ↦ rw taken v
    | inr free ↦ rw free (
        sort-IsValid _ (
          Distinct-append ms (record { path = normalize_path path; fs = fs })
            (IsValid-Distinct ms v) (not_mounted-Absent (normalize_path path) ms free)))
  ]

  AtMost-erase : (n i : ℕ) (ms : Vfs F) → AtMost n ms → AtMost n (erase_idx ms i)
  AtMost-erase n i [] a = tt
  AtMost-erase n zero (m ∷ ms) a = a.1
  AtMost-erase n (suc i) (m ∷ ms) a = (a.0, AtMost-erase n i ms a.1)

  Absent-erase : (p : Bytes) (i : ℕ) (ms : Vfs F) → Absent p ms → Absent p (erase_idx ms i)
  Absent-erase p i [] a = tt
  Absent-erase p zero (m ∷ ms) a = a.1
  Absent-erase p (suc i) (m ∷ ms) a = (a.0, Absent-erase p i ms a.1)

  erase-IsValid : (i : ℕ) (ms : Vfs F) → IsValid ms → IsValid (erase_idx ms i)
  erase-IsValid i [] v = tt
  erase-IsValid zero (m ∷ ms) v = v.2
  erase-IsValid (suc i) (m ∷ ms) v =
      (AtMost-erase (length m.path) i ms v.0, Absent-erase m.path i ms v.1, erase-IsValid i ms v.2)

  -- `unmount` keeps the mounts sorted by falling length of their paths, and each path mounted once.
  pub unmount-IsValid : (ms : Vfs F) (path : Bytes) → IsValid ms → IsValid (unmount ms path).1
  unfolding unmount
  unmount-IsValid ms path v = elim (Option-cases (position (normalize_path path) ms)) [
    | inl absent ↦ rw (absent, unmount) v
    | inr (i, at) ↦ rw (at, unmount) (erase-IsValid i ms v)
  ]

  -- `mount` and `unmount` keep the mounts sorted by falling length of their paths, and each path
  -- mounted once.
  pub mount-unmount-IsValid :
      (ms : Vfs F) (path : Bytes) (fs : F)
      → IsValid ms
      → IsValid (mount ms path fs).1 × IsValid (unmount ms path).1
  mount-unmount-IsValid ms path fs v = (mount-IsValid ms path fs v, unmount-IsValid ms path v)
