-- ===== src/Vfs/FilePath/Laws.antt =====
-- What a normalised path is, that normalising gives one, and relative paths.
use mathlib.Core.List.{append_assoc, append-nil}
use mathlib.Core.Bool.{false≢true}
use vyper.Prelude.{
  ℕ, ◌≡◌, ◌≢◌, refl, ap, sym, ◌∙◌, true, false, ◌||◌, List, [], ◌∷◌, ◌++◌, ◌==◌, ==_iff, arith,
  Bytes, if◌then◌else◌, Bool-cases, inl, inr, bytes_eq, bytes_eq_iff,
}
use vyper.Vfs.FilePath.{
  slash, dot, dot_dot, cons_first, split, pop, step, walk, render, parts_from, normalize_path,
  resolve_path, starts_with_slash, ends_with_slash,
}
use vyper.Vfs.FilePath.Split.{NoSlash, NoSlashes, split-join, split-append, walk-append}

-- A component of a normalised path.
pub record IsComponent (p : Bytes) : Type 0 where
  pub not_empty : p ≢ []
  pub not_dot : p ≢ dot
  pub not_dot_dot : p ≢ dot_dot
  pub no_slash : NoSlash p

abbrev pub Components : List Bytes → Type 0
Components [] = Unit
Components (p ∷ ps) = IsComponent p × Components ps

pub pop-Components : (ps : List Bytes) → Components ps → Components (pop ps)
unfolding pop
pop-Components [] h = tt
pop-Components (p ∷ []) h = tt
pop-Components (p ∷ q ∷ ps) h = (h.0, pop-Components (q ∷ ps) h.1)

pub append-Components : (ps qs : List Bytes) → Components ps → Components qs → Components (ps ++ qs)
append-Components [] qs h k = k
append-Components (p ∷ ps) qs h k = (h.0, append-Components ps qs h.1 k)

pub component :
    (p : Bytes)
    → (bytes_eq p [] || bytes_eq p dot) ≡ false
    → bytes_eq p dot_dot ≡ false
    → NoSlash p
    → IsComponent p
component p h k np = record {
  not_empty = λ e. ground (arith, (bytes_eq_iff p []).1 e);
  not_dot = λ e. ground (arith, (bytes_eq_iff p dot).1 e);
  not_dot_dot = λ e. ground (arith, (bytes_eq_iff p dot_dot).1 e);
  no_slash = np;
}

step-Components :
    (parts : List Bytes) (p : Bytes) → Components parts → NoSlash p → Components (step parts p)
unfolding step
step-Components parts p h np = elim (Bool-cases (bytes_eq p [] || bytes_eq p dot)) [
  | inl skip ↦ rw skip h
  | inr keep ↦ elim (Bool-cases (bytes_eq p dot_dot)) [
    | inl up ↦ rw (keep, up) (pop-Components parts h)
    | inr down ↦ rw (keep, down) (append-Components parts (p ∷ []) h (component p keep down np, tt))
  ]
]

walk-Components :
    (ps parts : List Bytes) → Components parts → NoSlashes ps → Components (walk parts ps)
unfolding walk
walk-Components [] parts h hs = h
walk-Components (p ∷ ps) parts h hs =
    walk-Components ps (step parts p) (step-Components parts p h hs.0) hs.1

cons_first-NoSlashes :
    (c : ℕ) (ps : List Bytes) → c ≢ slash → NoSlashes ps → NoSlashes (cons_first c ps)
cons_first-NoSlashes c [] h hs = ((h, tt), tt)
cons_first-NoSlashes c (p ∷ ps) h hs = ((h, hs.0), hs.1)

pub split-NoSlashes : (path : Bytes) → NoSlashes (split path)
unfolding split
split-NoSlashes [] = (tt, tt)
split-NoSlashes (c ∷ cs) = elim (Bool-cases (c == slash)) [
  | inl e ↦ rw e (tt, split-NoSlashes cs)
  | inr e ↦
      rw e (cons_first-NoSlashes c (split cs) (λ q. cc ((==_iff c slash).1 q)) (split-NoSlashes cs))
]

-- The components of any path, from those of a normalised one.
pub parts_from-Components :
    (parts : List Bytes) (path : Bytes) → Components parts → Components (parts_from parts path)
unfolding parts_from
parts_from-Components parts path h = walk-Components (split path) parts h (split-NoSlashes path)

step-component : (parts : List Bytes) (p : Bytes) → IsComponent p → step parts p ≡ parts ++ (p ∷ [])
unfolding step
step-component parts p c = ground (
  arith,
  c.not_empty,
  c.not_dot,
  c.not_dot_dot,
  (bytes_eq_iff p []).0,
  (bytes_eq_iff p dot).0,
  (bytes_eq_iff p dot_dot).0,
)

walk-Components' : (ps parts : List Bytes) → Components ps → walk parts ps ≡ parts ++ ps
unfolding walk
walk-Components' [] parts h = rw append-nil
walk-Components' (p ∷ ps) parts h =
    rw (step-component parts p h.0, walk-Components' ps (parts ++ (p ∷ [])) h.1, append_assoc)

Components-NoSlashes : (ps : List Bytes) → Components ps → NoSlashes ps
Components-NoSlashes [] h = tt
Components-NoSlashes (p ∷ ps) h = (h.0.no_slash, Components-NoSlashes ps h.1)

walk_empty : (parts ps : List Bytes) → walk parts ([] ∷ ps) ≡ walk parts ps
unfolding walk step
walk_empty parts ps = refl

-- Reading a written path from some components appends what was written.
pub parts_from-render :
    (parts ps : List Bytes) → Components ps → parts_from parts (render ps) ≡ parts ++ ps
unfolding parts_from split walk step
parts_from-render parts [] h = rw append-nil
parts_from-render parts (p ∷ ps) h =
    ap (walk parts) (split-join [] (p ∷ ps) tt (Components-NoSlashes (p ∷ ps) h))
    ∙ (walk_empty parts (p ∷ ps) ∙ walk-Components' (p ∷ ps) parts h)

-- Every normalised path is `/`, or `/` before each of its components, none of which is empty, `.`
-- or `..`, or holds a slash; and two lists of such components are written the same only if they
-- are the same.
pub normalize_path_lem :
    (path : Bytes)
    → ((ps : List Bytes) × Components ps × (normalize_path path ≡ render ps))
      × ((ps qs : List Bytes) → Components ps → Components qs → render ps ≡ render qs → ps ≡ qs)
unfolding normalize_path
normalize_path_lem path = (
  (parts_from [] path, parts_from-Components [] path tt, refl),
  λ ps qs h k e.
      sym (parts_from-render [] ps h) ∙ (ap (parts_from []) e ∙ parts_from-render [] qs k),
)

ends_slash : (cwd : Bytes) → ends_with_slash cwd ≡ true → (a : Bytes) × (cwd ≡ a ++ (slash ∷ []))
ends_slash [] h = absurd (false≢true h)
ends_slash (c ∷ []) h = ([], ap (λ x. x ∷ []) ((==_iff c slash).0 h))
ends_slash (c ∷ d ∷ cs) h = let (a, e) = ends_slash (d ∷ cs) h in (c ∷ a, ap (◌∷◌ c) e)

walk-piece_end : (parts ps : List Bytes) → walk parts (ps ++ ([] ∷ [])) ≡ walk parts ps
walk-piece_end parts ps = walk-append parts ps ([] ∷ []) ∙ walk_end (walk parts ps)
  where
    walk_end : (parts : List Bytes) → walk parts ([] ∷ []) ≡ parts
    walk_end parts = walk_empty parts [] ∙ walk-Components' [] parts tt ∙ append-nil parts

-- A path written behind a directory, with one slash between them.
walk_behind :
    (cwd path : Bytes) (parts : List Bytes)
    → walk parts (split ((if ends_with_slash cwd then cwd else cwd ++ (slash ∷ [])) ++ path))
      ≡ walk (walk parts (split cwd)) (split path)
unfolding split
walk_behind cwd path parts = elim (Bool-cases (ends_with_slash cwd)) [
  | inl yes_slash ↦ rw yes_slash (ended (ends_slash cwd yes_slash))
  | inr no_slash ↦
      rw (no_slash, append_assoc, split-append cwd path)
        (walk-append parts (split cwd) (split path))
]
  where
    ended :
        (a : Bytes) × (cwd ≡ a ++ (slash ∷ []))
        → walk parts (split (cwd ++ path)) ≡ walk (walk parts (split cwd)) (split path)
    ended (a, e) =
        rw (e, append_assoc, split-append a path, split-append a [], walk-append)
          (ap (λ t. walk t (split path)) (sym (walk-piece_end parts (split a))))

-- `resolve_path`, by the code's own walk over the pieces of the path.
pub resolve_path_walk :
    (path : Bytes) (ps : List Bytes)
    → Components ps
    → resolve_path path (render ps)
      ≡ render (parts_from (if starts_with_slash path then [] else ps) path)
unfolding resolve_path normalize_path parts_from
resolve_path_walk path ps h = elim (Bool-cases (starts_with_slash path)) [
  | inl absolute ↦ rw absolute
  | inr relative ↦ rw relative (
      ap render (
        walk_behind (render ps) path []
        ∙ ap (λ t. walk t (split path)) (parts_from-render [] ps h)))
]
