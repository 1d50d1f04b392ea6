-- ===== src/Vfs/Fd/Laws.antt =====
-- What the table of open files promises its clients.
use vyper.Prelude.{
  ℕ, zero, suc, ◌+◌, ◌≤◌, ◌<◌, ◌≡◌, ◌≢◌, refl, ap, Option, none, some, [], ◌∷◌, ok, err, ok_or,
  get_elem?, set, arith, length, length-set, get_elem?-set_self, get_elem?-set_ne, get_elem?_total,
  get_elem?_lt, ◌⊎◌, inl, inr, ◌∙◌, ◌∙◌, Option-cases,
}
use native.Mathlib.Decide.{dec_lt}
use vyper.Vfs.Types.{no_space, invalid_fd, permission_denied}
use vyper.Vfs.Fd.{
  FdKind, FdTable, stdin, stdout, stderr, new, first_free, alloc, close_slot, get, close, max_fds,
}

abbrev pub InUse : {H : Type 0} → FdTable H → ℕ → Type 0
InUse {H} fds fd = (kind : FdKind H) × (get_elem? fds fd ≡ some (some kind))

module _ {H : Type 0} where
  -- All 64 slots are there, and the three standard ones are in use.
  pub record IsValid (fds : FdTable H) : Type 0 where
    pub sized : length fds ≡ max_fds
    pub use_in : InUse fds 0
    pub use_out : InUse fds 1
    pub use_err : InUse fds 2

  -- The slot that the loop stops at is free, and none before it is.
  first_free-some :
      (i j : ℕ) (fds : FdTable H)
      → first_free i fds ≡ some j
      → (k : ℕ) × (j ≡ i + k) × (get_elem? fds k ≡ some none) × ((m : ℕ) → m < k → InUse fds m)
  unfolding first_free
  first_free-some i j [] e = cc
  first_free-some i j (none ∷ fds) e = (0, ground arith, refl, λ m h. absurd (omega arith))
  first_free-some i j (some kind ∷ fds) e =
      let (k, at, free, low) = first_free-some (suc i) j fds e in
      (suc k, omega arith, free, below k low)
    where
      below :
          (k : ℕ)
          → ((m : ℕ) → m < k → InUse fds m)
          → (m : ℕ) → m < suc k
          → InUse (some kind ∷ fds) m
      below k low zero h = (kind, refl)
      below k low (suc m) h = low m (omega arith)

  first_free-none :
      (i : ℕ) (fds : FdTable H) → first_free i fds ≡ none → (m : ℕ) → m < length fds → InUse fds m
  unfolding first_free
  first_free-none i [] e m h = absurd (omega arith)
  first_free-none i (none ∷ fds) e m h = cc
  first_free-none i (some kind ∷ fds) e zero h = (kind, refl)
  first_free-none i (some kind ∷ fds) e (suc m) h = first_free-none (suc i) fds e m (omega arith)

  -- The slot that `alloc` takes, and what it then returns.
  pub record Takes (fds : FdTable H) (kind : FdKind H) (fd : ℕ) : Type 0 where
    pub inside : fd < max_fds
    pub was_free : get_elem? fds fd ≡ some none
    pub lowest : (m : ℕ) → m < fd → InUse fds m
    pub result : alloc fds kind ≡ (ok fd, set fds fd (some kind))

  pub record Refuses (fds : FdTable H) (kind : FdKind H) : Type 0 where
    pub all_used : (m : ℕ) → m < max_fds → InUse fds m
    pub result : alloc fds kind ≡ (err no_space, fds)

  alloc_cases :
      (fds : FdTable H) (kind : FdKind H)
      → IsValid fds
      → (first_free 0 fds ≡ none) ⊎ ((a : ℕ) × (first_free 0 fds ≡ some a))
      → ((fd : ℕ) × Takes fds kind fd) ⊎ Refuses fds kind
  unfolding alloc
  alloc_cases fds kind v (inl e) =
      inr (record {
        all_used = λ m h. first_free-none 0 fds e m (omega arith);
        result = rw (e, alloc);
      })
  alloc_cases fds kind v (inr (a, e)) =
      let (k, at, free, low) = first_free-some 0 a fds e in
      let here : a ≡ k = omega arith in
      inl (
        k,
        record {
          inside = omega (arith, get_elem?_lt fds k free);
          was_free = free;
          lowest = low;
          result = rw (e, alloc, here);
        },
      )

  -- On a table of 64 slots `alloc` puts its file into the lowest free slot, returns that slot's
  -- number and changes no other slot; or every slot is in use, and it returns NoSpace and changes
  -- nothing.
  pub alloc_lem :
      (fds : FdTable H) (kind : FdKind H)
      → IsValid fds
      → ((fd : ℕ) × Takes fds kind fd) ⊎ Refuses fds kind
  alloc_lem fds kind v = alloc_cases fds kind v (Option-cases (first_free 0 fds))

  pub get_inside :
      (fds : FdTable H) (fd : ℕ) (slot : Option (FdKind H))
      → fd < max_fds
      → get_elem? fds fd ≡ some slot
      → get fds fd ≡ ok_or invalid_fd slot
  unfolding get
  get_inside fds fd slot h e = ground arith

  get_congr :
      (fds fds' : FdTable H) (fd : ℕ)
      → get_elem? fds fd ≡ get_elem? fds' fd
      → get fds fd ≡ get fds' fd
  unfolding get
  get_congr fds fds' fd e = rw e

  -- A descriptor that `alloc` returned was not valid before; now it reads back the file, and every
  -- other descriptor reads as before.
  pub get-alloc :
      (fds : FdTable H) (kind : FdKind H) (fd : ℕ)
      → IsValid fds
      → (alloc fds kind).0 ≡ ok fd
      → (get fds fd ≡ err invalid_fd)
        × (get (alloc fds kind).1 fd ≡ ok kind)
        × ((other : ℕ) → fd ≢ other → get (alloc fds kind).1 other ≡ get fds other)
  get-alloc fds kind fd v e = elim (alloc_lem fds kind v) [
    | inl (k, t) ↦
        let same : k ≡ fd = cc (t.result) in
        let after : (alloc fds kind).1 ≡ set fds fd (some kind) = rw (t.result, same) in
        let inside : fd < max_fds = rw same at t.inside in
        (
          get_inside fds fd none inside (rw same at t.was_free),
          rw after (
              get_inside (set fds fd (some kind)) fd (some kind) inside
                (get_elem?-set_self fds fd (some kind) (omega (arith, v.sized)))),
          λ other ne. rw after (
              get_congr (set fds fd (some kind)) fds other
                (get_elem?-set_ne fds fd other (some kind) ne)),
        )
    | inr r ↦ absurd (cc (r.result))
  ]

  pub new-IsValid : IsValid (new {H = H})
  unfolding new
  new-IsValid = record {
    sized = refl;
    use_in = (stdin, refl);
    use_out = (stdout, refl);
    use_err = (stderr, refl);
  }

  InUse-set :
      (fds : FdTable H) (fd other : ℕ) (slot : Option (FdKind H))
      → fd ≢ other
      → InUse fds other
      → InUse (set fds fd slot) other
  InUse-set fds fd other slot ne (kind, e) = (kind, get_elem?-set_ne fds fd other slot ne ∙ e)

  pub not_free_use :
      (fds : FdTable H) (fd other : ℕ) → get_elem? fds fd ≡ some none → InUse fds other → fd ≢ other
  not_free_use fds fd other e (kind, u) = λ same. cc (ap (get_elem? fds) same)

  pub set-IsValid :
      (fds : FdTable H) (fd : ℕ) (slot : Option (FdKind H))
      → fd ≢ 0
      → fd ≢ 1
      → fd ≢ 2
      → IsValid fds
      → IsValid (set fds fd slot)
  set-IsValid fds fd slot n0 n1 n2 v = record {
    sized = length-set fds fd slot ∙ v.sized;
    use_in = InUse-set fds fd 0 slot n0 v.use_in;
    use_out = InUse-set fds fd 1 slot n1 v.use_out;
    use_err = InUse-set fds fd 2 slot n2 v.use_err;
  }

  pub alloc-IsValid : (fds : FdTable H) (kind : FdKind H) → IsValid fds → IsValid (alloc fds kind).1
  alloc-IsValid fds kind v = elim (alloc_lem fds kind v) [
    | inl (k, t) ↦
        let after : (alloc fds kind).1 ≡ set fds k (some kind) = rw (t.result) in
        rw after (
          set-IsValid fds k (some kind) (not_free_use fds k 0 t.was_free v.use_in)
            (not_free_use fds k 1 t.was_free v.use_out) (not_free_use fds k 2 t.was_free v.use_err)
            v)
    | inr r ↦ let after : (alloc fds kind).1 ≡ fds = rw (r.result) in rw after v
  ]

  -- The outcomes of `close`: the slot is emptied; or nothing changes, since the descriptor is one
  -- of the standard three, or since its slot is out of range or empty.
  pub record Closes (fds : FdTable H) (fd : ℕ) : Type 0 where
    pub above : 3 ≤ fd
    pub inside : fd < max_fds
    pub in_use : InUse fds fd
    pub result : close fds fd ≡ (ok in_use.0, set fds fd none)

  abbrev CloseCases : FdTable H → ℕ → Type 0
  CloseCases fds fd =
      Closes fds fd
      ⊎ ((fd < 3) × (close fds fd ≡ (err permission_denied, fds)))
      ⊎ (¬ InUse fds fd × (close fds fd ≡ (err invalid_fd, fds)))

  close_at :
      (fds : FdTable H) (fd : ℕ) (slot : Option (FdKind H))
      → get_elem? fds fd ≡ some slot
      → 3 ≤ fd
      → fd < max_fds
      → CloseCases fds fd
  unfolding close close_slot
  close_at fds fd none e lo hi = inr (inr (λ u. cc (u.1), ground arith))
  close_at fds fd (some kind) e lo hi =
      inl (record { above = lo; inside = hi; in_use = (kind, e); result = ground arith })

  close_low : (fds : FdTable H) (fd : ℕ) → fd < 3 → close fds fd ≡ (err permission_denied, fds)
  unfolding close
  close_low fds fd h = ground arith

  close_beyond : (fds : FdTable H) (fd : ℕ) → max_fds ≤ fd → close fds fd ≡ (err invalid_fd, fds)
  unfolding close
  close_beyond fds fd h = ground arith

  not-InUse : (fds : FdTable H) (fd : ℕ) → IsValid fds → max_fds ≤ fd → ¬ InUse fds fd
  not-InUse fds fd v h u = absurd (omega (arith, get_elem?_lt fds fd u.1, v.sized))

  -- On a table of 64 slots `close` takes the file out of the slot of a descriptor from 3 on, and
  -- changes no other; a standard descriptor is refused with PermissionDenied, and one that is out
  -- of range or not in use with InvalidFd, and then nothing changes.
  pub close_lem :
      (fds : FdTable H) (fd : ℕ)
      → IsValid fds
      → Closes fds fd
        ⊎ ((fd < 3) × (close fds fd ≡ (err permission_denied, fds)))
        ⊎ (¬ InUse fds fd × (close fds fd ≡ (err invalid_fd, fds)))
  close_lem fds fd v = elim (dec_lt fd 3) [
    | yes low ↦ inr (inl (low, close_low fds fd low))
    | no high ↦ elim (dec_lt fd max_fds) [
      | yes inside ↦
          let (slot, e) = get_elem?_total fds fd (omega (arith, v.sized)) in
          close_at fds fd slot e (omega arith) inside
      | no out ↦ inr (inr (not-InUse fds fd v (omega arith), close_beyond fds fd (omega arith)))
    ]
  ]

  -- `close` keeps a table valid: it has 64 slots, and the standard descriptors are open.
  pub close-IsValid : (fds : FdTable H) (fd : ℕ) → IsValid fds → IsValid (close fds fd).1
  close-IsValid fds fd v = elim (close_lem fds fd v) [
    | inl c ↦
        let low = c.above in
        let after : (close fds fd).1 ≡ set fds fd none = rw (c.result) in
        rw after (set-IsValid fds fd none (omega arith) (omega arith) (omega arith) v)
    | inr (inl p) ↦ let after : (close fds fd).1 ≡ fds = rw (p.1) in rw after v
    | inr (inr p) ↦ let after : (close fds fd).1 ≡ fds = rw (p.1) in rw after v
  ]
