-- ===== src/Vfs/FilePath/Moves.antt =====
-- `resolve_path` of vcore/src/vfs/mod.rs, against moves in the tree of directories.
use mathlib.Core.List.{append-nil}
use vyper.Prelude.{
  ℕ, ◌≡◌, ◌≢◌, refl, ap, sym, ◌∙◌, Bool, true, false, List, [], ◌∷◌, ◌++◌, ◌==◌, ==_iff, Bytes,
  if◌then◌else◌, Bool-cases, inl, inr, bytes_eq, bytes_eq_iff,
}
use vyper.Vfs.FilePath.{
  slash, dot, dot_dot, split, cons_first, pop, step, walk, render, join, parts_from, resolve_path,
  starts_with_slash,
}
use vyper.Vfs.FilePath.Split.{NoSlash, NoSlashes, split-ne-nil}
use vyper.Vfs.FilePath.Laws.{
  IsComponent, Components, component, split-NoSlashes, parts_from-Components, resolve_path_walk,
}

-- The pieces with a slash between each two.
abbrev pub joined : List Bytes → Bytes
joined [] = []
joined (p ∷ []) = p
joined (p ∷ q ∷ ps) = p ++ (slash ∷ joined (q ∷ ps))

-- The directory that a piece of a path leads to: an empty piece and `.` stay, `..` leaves the last
-- component, or stays at the root, and any other piece goes down.
pub data Moves (ps : List Bytes) (piece : Bytes) (qs : List Bytes) : Type 0 where
  stays : piece ≡ [] → qs ≡ ps → Moves ps piece qs
  stays_at_dot : piece ≡ dot → qs ≡ ps → Moves ps piece qs
  stays_at_root : piece ≡ dot_dot → ps ≡ [] → qs ≡ [] → Moves ps piece qs
  goes_up : (p : Bytes) → piece ≡ dot_dot → ps ≡ qs ++ (p ∷ []) → Moves ps piece qs
  goes_down : IsComponent piece → qs ≡ ps ++ (piece ∷ []) → Moves ps piece qs

pub data Walks : List Bytes → List Bytes → List Bytes → Type 0 where
  arrived : {ps : List Bytes} → Walks ps [] ps
  moved :
      {ps qs rs : List Bytes} {piece : Bytes} {pieces : List Bytes}
      → Moves ps piece qs
      → Walks qs pieces rs
      → Walks ps (piece ∷ pieces) rs

pop_last : (p : Bytes) (ps : List Bytes) → (last : Bytes) × (p ∷ ps ≡ pop (p ∷ ps) ++ (last ∷ []))
unfolding pop
pop_last p [] = (p, refl)
pop_last p (q ∷ ps) = let (last, e) = pop_last q ps in (last, ap (λ r. p ∷ r) e)

pop-Moves : (ps : List Bytes) (piece : Bytes) → piece ≡ dot_dot → Moves ps piece (pop ps)
unfolding pop
pop-Moves [] piece e = stays_at_root e refl refl
pop-Moves (p ∷ ps) piece e = let (last, whole) = pop_last p ps in goes_up last e whole

step-Moves : (ps : List Bytes) (piece : Bytes) → NoSlash piece → Moves ps piece (step ps piece)
unfolding step
step-Moves ps piece h = elim (Bool-cases (bytes_eq piece [])) [
  | inl e ↦ rw e (stays ((bytes_eq_iff piece []).0 e) refl)
  | inr e ↦ elim (Bool-cases (bytes_eq piece dot)) [
    | inl d ↦ rw (e, d) (stays_at_dot ((bytes_eq_iff piece dot).0 d) refl)
    | inr d ↦ elim (Bool-cases (bytes_eq piece dot_dot)) [
      | inl u ↦ rw (e, d, u) (pop-Moves ps piece ((bytes_eq_iff piece dot_dot).0 u))
      | inr u ↦ rw (e, d, u) (goes_down (component piece (rw (e, d) refl) u h) refl)
    ]
  ]
]

walk-Walks : (pieces ps : List Bytes) → NoSlashes pieces → Walks ps pieces (walk ps pieces)
unfolding walk
walk-Walks [] ps h = arrived
walk-Walks (p ∷ pieces) ps h = moved (step-Moves ps p h.0) (walk-Walks pieces (step ps p) h.1)

joined_empty : (ps : List Bytes) → ps ≢ [] → joined ([] ∷ ps) ≡ slash ∷ joined ps
joined_empty [] h = absurd (h refl)
joined_empty (p ∷ ps) h = refl

joined-cons_first : (c : ℕ) (ps : List Bytes) → ps ≢ [] → joined (cons_first c ps) ≡ c ∷ joined ps
joined-cons_first c [] h = absurd (h refl)
joined-cons_first c (p ∷ []) h = refl
joined-cons_first c (p ∷ q ∷ ps) h = refl

joined-split : (path : Bytes) → joined (split path) ≡ path
unfolding split
joined-split [] = refl
joined-split (c ∷ cs) = elim (Bool-cases (c == slash)) [
  | inl e ↦ rw e (
      joined_empty (split cs) (split-ne-nil cs)
      ∙ ap (λ r. slash ∷ r) (joined-split cs)
      ∙ ap (λ d. d ∷ cs) (sym ((==_iff c slash).0 e)))
  | inr e ↦
      rw e (joined-cons_first c (split cs) (split-ne-nil cs) ∙ ap (λ r. c ∷ r) (joined-split cs))
]

render_lem : (ps : List Bytes) → render ps ≡ slash ∷ joined ps
render_lem [] = refl
render_lem (p ∷ ps) = ap (λ r. slash ∷ r) (rendered p ps)
  where
    rendered : (p : Bytes) (ps : List Bytes) → p ++ join ps ≡ joined (p ∷ ps)
    rendered p [] = append-nil p
    rendered p (q ∷ ps) = ap (λ r. p ++ (slash ∷ r)) (rendered q ps)

-- What a path leads to from a directory with the components `ps`.
pub record Leads (path : Bytes) (ps : List Bytes) (result : Bytes) : Type 0 where
  pub pieces : List Bytes
  pub whole : joined pieces ≡ path
  pub apart : NoSlashes pieces
  pub place : List Bytes
  pub walks : Walks (if starts_with_slash path then [] else ps) pieces place
  pub normal : Components place
  pub written : result ≡ slash ∷ joined place

-- Cut a path at its slashes, and begin at the root if it begins with a slash, else in the working
-- directory. Then `resolve_path` gives the directory that the pieces lead to: an empty piece and `.`
-- stay, `..` leaves the last component where there is one, and any other piece is a component
-- further down. No component of the result is empty, `.` or `..`, or holds a slash.
pub resolve_path_lem :
    (path : Bytes) (ps : List Bytes)
    → Components ps
    → Leads path ps (resolve_path path (slash ∷ joined ps))
unfolding parts_from
resolve_path_lem path ps h =
    let start : List Bytes = if starts_with_slash path then [] else ps in
    record {
      pieces = split path;
      whole = joined-split path;
      apart = split-NoSlashes path;
      place = walk start (split path);
      walks = walk-Walks (split path) start (split-NoSlashes path);
      normal = parts_from-Components start path (start-Components (starts_with_slash path));
      written =
          ap (resolve_path path) (sym (render_lem ps))
          ∙ resolve_path_walk path ps h
          ∙ render_lem (walk start (split path));
    }
  where
    start-Components : (b : Bool) → Components (if b then [] else ps)
    start-Components true = tt
    start-Components false = h
