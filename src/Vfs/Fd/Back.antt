-- ===== src/Vfs/Fd/Back.antt =====
-- `close` of vcore/src/vfs/fd.rs undoes `alloc`.
use mathlib.Core.Option.{some-injective}
use vyper.Prelude.{
  sym, get_elem?, ℕ, ◌≡◌, ◌≤◌, ◌<◌, ap, ◌∙◌, none, some, Option, ok, err, set, arith, inl, inr,
  get_elem?-set_self, set-set, ◌⊎◌, get_elem?_total,
}
use vyper.Vfs.Fd.{FdKind, FdTable, alloc, close, get, max_fds}
use vyper.Vfs.Types.{invalid_fd}
use native.Mathlib.Decide.{dec_lt}
use vyper.Vfs.Fd.Laws.{
  IsValid, InUse, alloc_lem, close_lem, Closes, Takes, set-IsValid, not_free_use, get_inside,
}

module _ {H : Type 0} where
  slot_back :
      (fds : FdTable H) (kind : FdKind H) (fd : ℕ)
      → IsValid fds
      → Takes fds kind fd
      → (3 ≤ fd)
        × (fd < max_fds)
        × (close (alloc fds kind).1 fd ≡ (ok kind, fds))
        × (get_elem? (alloc fds kind).1 fd ≡ some (some kind))
  slot_back fds kind fd v t =
      let n0 = not_free_use fds fd 0 t.was_free v.use_in in
      let n1 = not_free_use fds fd 1 t.was_free v.use_out in
      let n2 = not_free_use fds fd 2 t.was_free v.use_err in
      let table : FdTable H = set fds fd (some kind) in
      let in_use : InUse table fd =
        (kind, get_elem?-set_self fds fd (some kind) (omega (arith, v.sized, t.inside))) in
      let after : (alloc fds kind).1 ≡ table = ap (λ r. r.1) t.result in
      let same_file : (c : Closes table fd) → c.in_use.0 ≡ kind =
        λ c. some-injective _ _ (some-injective _ _ (sym c.in_use.1 ∙ in_use.1)) in
      let low : 3 ≤ fd = omega arith in
      (
        low,
        t.inside,
        ap (λ r. close r fd) after
            ∙ elim (close_lem table fd (set-IsValid fds fd (some kind) n0 n1 n2 v)) [
              | inl c ↦
                  c.result
                  ∙ ap (λ k. (ok k, set table fd none)) (same_file c)
                  ∙ ap (λ r. (ok kind, r)) (set-set fds fd none (some kind) t.was_free)
              | inr (inl p) ↦ absurd (omega (arith, p.0, low))
              | inr (inr p) ↦ absurd (p.0 in_use)
            ],
        ap (λ r. get_elem? r fd) after ∙ in_use.1,
      )

  -- A descriptor that `alloc` hands out on a valid table is none of the standard three, and to
  -- close it takes that file out and gives the table from before.
  pub close-alloc :
      (fds : FdTable H) (kind : FdKind H) (fd : ℕ)
      → IsValid fds
      → (alloc fds kind).0 ≡ ok fd
      → (3 ≤ fd)
        × (fd < max_fds)
        × (close (alloc fds kind).1 fd ≡ (ok kind, fds))
        × (get_elem? (alloc fds kind).1 fd ≡ some (some kind))
  close-alloc fds kind fd v e = elim (alloc_lem fds kind v) [
    | inl (k, t) ↦ let same : k ≡ fd = cc (t.result) in rw (← same) (slot_back fds kind k v t)
    | inr r ↦ absurd (cc (r.result))
  ]

  get_beyond : (fds : FdTable H) (fd : ℕ) → max_fds ≤ fd → get fds fd ≡ err invalid_fd
  unfolding get
  get_beyond fds fd h = ground arith

  -- On a valid table a descriptor names a file, or is refused.
  pub get_cases :
      (fds : FdTable H) (fd : ℕ)
      → IsValid fds
      → ((kind : FdKind H) × (get fds fd ≡ ok kind) × (get_elem? fds fd ≡ some (some kind)))
        ⊎ (get fds fd ≡ err invalid_fd)
  get_cases fds fd v = elim (dec_lt fd max_fds) [
    | yes inside ↦
        let (slot, e) = get_elem?_total fds fd (omega (arith, v.sized)) in in_slot inside slot e
    | no out ↦ inr (get_beyond fds fd (omega arith))
  ]
    where
      in_slot :
          fd < max_fds
          → (slot : Option (FdKind H)) → get_elem? fds fd ≡ some slot
          → ((kind : FdKind H) × (get fds fd ≡ ok kind) × (get_elem? fds fd ≡ some (some kind)))
            ⊎ (get fds fd ≡ err invalid_fd)
      in_slot inside none e = inr (get_inside fds fd none inside e)
      in_slot inside (some kind) e = inl (kind, get_inside fds fd (some kind) inside e, e)
