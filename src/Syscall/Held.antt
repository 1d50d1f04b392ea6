-- ===== src/Syscall/Held.antt =====
-- The tables of open files that the system calls of vcore/src/cpu/syscall.rs leave.
use vyper.Prelude.{
  ℕ, zero, suc, ◌≡◌, ◌≢◌, refl, ap, ◌∙◌, false, some, none, get_elem?, set, arith, inl, inr, [],
  ◌∷◌, length, length-set,
}
use mathlib.Core.Option.{some-injective}
use mathlib.Core.Path.{subst}
use vyper.Vfs.Fd.{FdTable, FdKind, alloc, close}
use vyper.Vfs.Fd.Laws.{InUse, alloc_lem, close_lem, close-IsValid}
use vyper.Syscall.Ready.{Meets, Ends, HeldKind, AllHeld, Tidy}

module _ {H : Type 0} where
  still_used :
      (fds : FdTable H) (fd i : ℕ) (kind : FdKind H)
      → InUse fds i
      → i ≢ length fds
      → InUse (set fds fd (some kind)) i
  still_used [] fd i kind u h = u
  still_used (x ∷ fds) zero zero kind u h = (kind, refl)
  still_used (x ∷ fds) zero (suc i) kind u h = u
  still_used (x ∷ fds) (suc fd) zero kind u h = u
  still_used (x ∷ fds) (suc fd) (suc i) kind u h = still_used fds fd i kind u (λ e. h (ap suc e))

module _ {H : Type 0} (Held : H → Type 0) where
  pub AllHeld-get :
      (fds : FdTable H) (fd : ℕ) (kind : FdKind H)
      → get_elem? fds fd ≡ some (some kind)
      → AllHeld Held fds
      → HeldKind Held kind
  AllHeld-get [] fd kind e h = cc
  AllHeld-get (none ∷ fds) zero kind e h = cc
  AllHeld-get (some k ∷ fds) zero kind e h =
      subst (HeldKind Held) (some-injective k kind (some-injective (some k) (some kind) e)) h.0
  AllHeld-get (none ∷ fds) (suc fd) kind e h = AllHeld-get fds fd kind e h
  AllHeld-get (some k ∷ fds) (suc fd) kind e h = AllHeld-get fds fd kind e h.1

  AllHeld-set :
      (fds : FdTable H) (fd : ℕ) (kind : FdKind H)
      → HeldKind Held kind
      → AllHeld Held fds
      → AllHeld Held (set fds fd (some kind))
  AllHeld-set [] fd kind k h = tt
  AllHeld-set (none ∷ fds) zero kind k h = (k, h)
  AllHeld-set (some x ∷ fds) zero kind k h = (k, h.1)
  AllHeld-set (none ∷ fds) (suc fd) kind k h = AllHeld-set fds fd kind k h
  AllHeld-set (some x ∷ fds) (suc fd) kind k h = (h.0, AllHeld-set fds fd kind k h.1)

  without_one : (fds : FdTable H) (fd : ℕ) → AllHeld Held fds → AllHeld Held (set fds fd none)
  without_one [] fd h = tt
  without_one (none ∷ fds) zero h = h
  without_one (some x ∷ fds) zero h = h.1
  without_one (none ∷ fds) (suc fd) h = without_one fds fd h
  without_one (some x ∷ fds) (suc fd) h = (h.0, without_one fds fd h.1)

  pub set-Tidy :
      (fds : FdTable H) (fd : ℕ) (kind : FdKind H)
      → HeldKind Held kind
      → Tidy Held fds
      → Tidy Held (set fds fd (some kind))
  set-Tidy fds fd kind k t =
      let v = t.valid in
      record {
        valid = record {
          sized = length-set fds fd (some kind) ∙ v.sized;
          use_in = still_used fds fd 0 kind v.use_in (omega (arith, v.sized));
          use_out = still_used fds fd 1 kind v.use_out (omega (arith, v.sized));
          use_err = still_used fds fd 2 kind v.use_err (omega (arith, v.sized));
        };
        held = AllHeld-set fds fd kind k t.held;
      }

  -- A table takes a held file, or refuses it and stays as it is.
  pub alloc-Tidy :
      (fds : FdTable H) (kind : FdKind H)
      → HeldKind Held kind
      → Tidy Held fds
      → Ends false (alloc fds kind).0 × Tidy Held (alloc fds kind).1
  alloc-Tidy fds kind k t = elim (alloc_lem fds kind t.valid) [
    | inl (fd, takes) ↦ rw (takes.result) (tt, set-Tidy fds fd kind k t)
    | inr refuses ↦ rw (refuses.result) (tt, t)
  ]

  -- The file that a table gives back is held.
  pub close-Tidy :
      (fds : FdTable H) (fd : ℕ)
      → Tidy Held fds
      → Meets false (HeldKind Held) (close fds fd).0 × Tidy Held (close fds fd).1
  close-Tidy fds fd t =
      let valid = close-IsValid fds fd t.valid in
      elim (close_lem fds fd t.valid) [
        | inl c ↦
            let (kind, used) = c.in_use in
            let held : AllHeld Held (close fds fd).1 = rw (c.result) (without_one fds fd t.held) in
            (
              rw (c.result) (AllHeld-get fds fd c.in_use.0 c.in_use.1 t.held),
              record { valid = valid; held = held },
            )
        | inr (inl p) ↦ rw (p.1) (tt, t)
        | inr (inr p) ↦ rw (p.1) (tt, t)
      ]
