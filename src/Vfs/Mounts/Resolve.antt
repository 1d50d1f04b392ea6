-- ===== src/Vfs/Mounts/Resolve.antt =====
-- Which mount serves a path: the longest that lies above it.
use mathlib.Core.List.{append-nil}
use mathlib.Core.Option.{some-injective, none-ne-some}
use vyper.Prelude.{
  ℕ, zero, suc, ◌≤◌, ◌≡◌, ◌≢◌, ◌⊎◌, refl, ap, sym, ◌∙◌, true, false, [], ◌∷◌, ◌++◌, arith, Bytes,
  bytes_eq, bytes_eq_iff, length, drop, get_elem?, none, some, ok, err, Bool-cases, Option-cases,
  inl, inr, drop_append, length-append,
}
use vyper.Vfs.Types.{VfsResult, not_found}
use vyper.Vfs.FilePath.{slash, normalize_path, starts_with_slash}
use vyper.Vfs.Mounts.{Mount, Vfs, starts_with, relative_to, resolve_in, resolve}
use vyper.Vfs.Mounts.Order.{AtMost, IsValid}

-- A mount at `at` lies above `path`, which is `relative` below it: the root is above every path;
-- any other mount is above its own path, and above what goes on behind it with a slash.
abbrev pub Covers : Bytes → Bytes → Bytes → Type 0
Covers at path relative =
    ((at ≡ slash ∷ []) × (relative ≡ path))
    ⊎ ((at ≢ slash ∷ []) × (path ≡ at) × (relative ≡ slash ∷ []))
    ⊎ ((at ≢ slash ∷ [])
        × ((rest : Bytes) × (path ≡ at ++ (slash ∷ rest)) × (relative ≡ slash ∷ rest)))

pub starts_with-append : (at rest : Bytes) → starts_with (at ++ rest) at ≡ true
starts_with-append [] rest = refl
starts_with-append (c ∷ at) rest = ground (arith, starts_with-append at rest)

pub starts_with-eq :
    (path at : Bytes) → starts_with path at ≡ true → path ≡ at ++ drop (length at) path
starts_with-eq path [] h = refl
starts_with-eq [] (c ∷ at) h = cc
starts_with-eq (d ∷ path) (c ∷ at) h = ground (arith, starts_with-eq path at)

append_longer : (at rest : Bytes) → at ++ (slash ∷ rest) ≢ at
append_longer at rest e = absurd (omega (arith, ap length e, length-append {0} at (slash ∷ rest)))

slash_first :
    (rest : Bytes) → starts_with_slash rest ≡ true → (tail : Bytes) × (rest ≡ slash ∷ tail)
slash_first [] h = cc
slash_first (c ∷ rest) h = (rest, ground arith)

module _ {F : Type 0} where
  below_tests :
      (path relative : Bytes) (m : Mount F)
      → m.path ≢ slash ∷ []
      → path ≢ m.path
      → relative_to path m ≡ some relative
      → (starts_with path m.path ≡ true)
        × (starts_with_slash (drop (length m.path) path) ≡ true)
        × (relative ≡ drop (length m.path) path)
  unfolding relative_to
  below_tests path relative m nr ne e = ground (
    arith,
    (bytes_eq_iff m.path (slash ∷ [])).0,
    (bytes_eq_iff path m.path).0,
    (bytes_eq_iff (drop (length m.path) path) []).0,
    (bytes_eq_iff (drop (length m.path) path) (slash ∷ [])).0,
    starts_with-eq path m.path,
    append-nil m.path,
  )

  relative_below :
      (path relative : Bytes) (m : Mount F)
      → m.path ≢ slash ∷ []
      → path ≢ m.path
      → relative_to path m ≡ some relative
      → (rest : Bytes) × (path ≡ m.path ++ (slash ∷ rest)) × (relative ≡ slash ∷ rest)
  relative_below path relative m nr ne e =
      let (pre, sl, same) = below_tests path relative m nr ne e in
      let (tail, t) = slash_first (drop (length m.path) path) sl in
      (tail, starts_with-eq path m.path pre ∙ ap (◌++◌ m.path) t, same ∙ t)

  at_root :
      (path relative : Bytes) (m : Mount F)
      → bytes_eq m.path (slash ∷ []) ≡ true
      → relative_to path m ≡ some relative
      → relative ≡ path
  unfolding relative_to
  at_root path relative m r e = ground arith

  at_mount :
      (path relative : Bytes) (m : Mount F)
      → bytes_eq m.path (slash ∷ []) ≡ false
      → bytes_eq path m.path ≡ true
      → relative_to path m ≡ some relative
      → relative ≡ slash ∷ []
  unfolding relative_to
  at_mount path relative m r h e = ground arith

  pub relative_to-Covers :
      (path relative : Bytes) (m : Mount F)
      → relative_to path m ≡ some relative
      → Covers m.path path relative
  relative_to-Covers path relative m e = elim (Bool-cases (bytes_eq m.path (slash ∷ []))) [
    | inl root ↦ inl ((bytes_eq_iff m.path (slash ∷ [])).0 root, at_root path relative m root e)
    | inr other ↦
        let nr : m.path ≢ slash ∷ [] = λ q. cc ((bytes_eq_iff m.path (slash ∷ [])).1 q) in
        elim (Bool-cases (bytes_eq path m.path)) [
          | inl here ↦
              inr
                (inl (nr, (bytes_eq_iff path m.path).0 here, at_mount path relative m other here e))
          | inr below ↦ inr (
              inr (
                nr,
                relative_below path relative m nr (λ q. cc ((bytes_eq_iff path m.path).1 q)) e,
              ))
        ]
  ]

  pub Covers-relative_to :
      (path relative : Bytes) (m : Mount F)
      → Covers m.path path relative
      → relative_to path m ≡ some relative
  unfolding relative_to
  Covers-relative_to path relative m (inl (root, same)) =
      rw ((bytes_eq_iff m.path (slash ∷ [])).1 root) (ap some (sym same))
  Covers-relative_to path relative m (inr (inl (nr, here, same))) =
      ground (arith, (bytes_eq_iff m.path (slash ∷ [])).0, (bytes_eq_iff path m.path).1 here)
  Covers-relative_to path relative m (inr (inr (nr, (rest, split, same)))) = ground (
    arith,
    (bytes_eq_iff m.path (slash ∷ [])).0,
    (bytes_eq_iff path m.path).0,
    (bytes_eq_iff (drop (length m.path) path) (slash ∷ [])).0,
    (bytes_eq_iff (drop (length m.path) path) []).0,
    drop_append m.path (slash ∷ rest),
    starts_with-append m.path (slash ∷ rest),
    append_longer m.path rest,
  )

  -- The mount at index `i` is above the path, and none above the path has a longer path.
  pub record Serves (path : Bytes) (ms : Vfs F) (i : ℕ) (relative : Bytes) : Type 0 where
    pub mounted : Mount F
    pub here : get_elem? ms i ≡ some mounted
    pub above : Covers mounted.path path relative
    pub longest :
        (j : ℕ) (k : Mount F) (below : Bytes)
        → get_elem? ms j ≡ some k
        → Covers k.path path below
        → length k.path ≤ length mounted.path

  pub NotServed : Bytes → Vfs F → Type 0
  NotServed path ms =
      (j : ℕ) (k : Mount F) (below : Bytes) → get_elem? ms j ≡ some k → ¬ Covers k.path path below

  AtMost-get :
      (n : ℕ) (ms : Vfs F) (j : ℕ) {k : Mount F}
      → AtMost n ms
      → get_elem? ms j ≡ some k
      → length k.path ≤ n
  AtMost-get n [] j a e = cc
  AtMost-get n (m ∷ ms) zero a e = ground arith
  AtMost-get n (m ∷ ms) (suc j) a e = AtMost-get n ms j a.1 e

  first_longest :
      (m : Mount F) (ms : Vfs F)
      → AtMost (length m.path) ms
      → (j : ℕ) (k : Mount F) → get_elem? (m ∷ ms) j ≡ some k
      → length k.path ≤ length m.path
  first_longest m ms a zero k e = ground arith
  first_longest m ms a (suc j) k e = AtMost-get (length m.path) ms j a e

  Serves-suc :
      (path relative : Bytes) (m : Mount F) (ms : Vfs F) (i : ℕ)
      → relative_to path m ≡ none
      → Serves path ms i relative
      → Serves path (m ∷ ms) (suc i) relative
  Serves-suc path relative m ms i off s = record {
    mounted = s.mounted;
    here = s.here;
    above = s.above;
    longest = later;
  }
    where
      later :
          (j : ℕ) (k : Mount F) (below : Bytes)
          → get_elem? (m ∷ ms) j ≡ some k
          → Covers k.path path below
          → length k.path ≤ length s.mounted.path
      later zero k below e c =
          let same : m ≡ k = some-injective m k e in
          absurd (
            none-ne-some below
              (sym off ∙ (ap (relative_to path) same ∙ Covers-relative_to path below k c)))
      later (suc j) k below e c = s.longest j k below e c

  NotServed-cons :
      (path : Bytes) (m : Mount F) (ms : Vfs F)
      → relative_to path m ≡ none
      → NotServed path ms
      → NotServed path (m ∷ ms)
  unfolding NotServed
  NotServed-cons path m ms off no_later zero k below e c =
      let same : m ≡ k = some-injective m k e in
      none-ne-some below
        (sym off ∙ (ap (relative_to path) same ∙ Covers-relative_to path below k c))
  NotServed-cons path m ms off no_later (suc j) k below e c = no_later j k below e c

  abbrev pub Served : Bytes → Vfs F → VfsResult (ℕ × Bytes) → Type 0
  Served path ms r =
      ((i : ℕ) × (relative : Bytes) × (r ≡ ok (i, relative)) × Serves path ms i relative)
      ⊎ ((r ≡ err not_found) × NotServed path ms)

  resolve_in_lem : (path : Bytes) (ms : Vfs F) → IsValid ms → Served path ms (resolve_in path ms)
  unfolding resolve_in NotServed
  resolve_in_lem path [] v = inr (refl, λ j k below e c. absurd (none-ne-some k e))
  resolve_in_lem path (m ∷ ms) v = elim (Option-cases (relative_to path m)) [
    | inr (relative, on) ↦ inl (
      0,
      relative,
      rw (on, resolve_in),
      record {
        mounted = m;
        here = refl;
        above = relative_to-Covers path relative m on;
        longest = λ j k below e c. first_longest m ms v.0 j k e;
      },
    )
    | inl off ↦ elim (resolve_in_lem path ms v.2) [
      | inl (i, relative, e, s) ↦
          inl (suc i, relative, rw (off, e, resolve_in), Serves-suc path relative m ms i off s)
      | inr (e, no_later) ↦ inr (rw (off, e, resolve_in), NotServed-cons path m ms off no_later)
    ]
  ]

  -- On mounts that are sorted and distinct, `resolve` finds for a normalised path the mount with
  -- the longest path above it, and the rest of the path below that mount; it returns NotFound
  -- exactly when no mount is above the path.
  pub resolve_lem :
      (ms : Vfs F) (path : Bytes) → IsValid ms → Served (normalize_path path) ms (resolve ms path)
  unfolding resolve
  resolve_lem ms path v = resolve_in_lem (normalize_path path) ms v
