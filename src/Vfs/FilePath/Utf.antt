-- ===== src/Vfs/FilePath/Utf.antt =====
-- What the functions on paths of vcore/src/vfs/mod.rs need of UTF-8: at the start of a text, and
-- after a byte below 128, a character begins. They keep it.
use vyper.Prelude.{
  ℕ, ◌≡◌, refl, Bool, true, false, ◌||◌, List, [], ◌∷◌, ◌++◌, ◌==◌, ==_iff, ltb, leb, arith, Bytes,
  if◌then◌else◌, Bool-cases, inl, inr, bytes_eq,
}
use vyper.Vfs.FilePath.{
  slash, dot, dot_dot, split, cons_first, pop, step, walk, render, join, parts_from, normalize_path,
  resolve_path, starts_with_slash, ends_with_slash,
}

-- No byte of the middle of a character.
abbrev pub begins_char : ℕ → Bool
begins_char c = ltb c 128 || leb 192 c

-- `after` tells whether a character must begin.
abbrev pub Led : Bool → Bytes → Type 0
Led after [] = Unit
Led after (c ∷ cs) = (after ≡ true → begins_char c ≡ true) × Led (ltb c 128) cs

abbrev pub IsText : Bytes → Type 0
IsText text = Led true text

abbrev pub AllText : List Bytes → Type 0
AllText [] = Unit
AllText (p ∷ ps) = IsText p × AllText ps

pub text_anywhere : (after : Bool) (text : Bytes) → IsText text → Led after text
text_anywhere after [] h = tt
text_anywhere after (c ∷ cs) h = (λ e. h.0 refl, h.1)

pub Led-append :
    (after : Bool) (text rest : Bytes) → Led after text → IsText rest → Led after (text ++ rest)
Led-append after [] rest h k = text_anywhere after rest k
Led-append after (c ∷ cs) rest h k = (h.0, Led-append (ltb c 128) cs rest h.1 k)

abbrev FirstLed : Bool → List Bytes → Type 0
FirstLed after [] = Unit
FirstLed after (p ∷ ps) = Led after p × AllText ps

all_of_first : (ps : List Bytes) → FirstLed true ps → AllText ps
all_of_first [] h = tt
all_of_first (p ∷ ps) h = h

cons_first-FirstLed :
    (after : Bool) (c : ℕ) (ps : List Bytes)
    → (after ≡ true → begins_char c ≡ true)
    → FirstLed (ltb c 128) ps
    → FirstLed after (cons_first c ps)
cons_first-FirstLed after c [] h k = ((h, tt), tt)
cons_first-FirstLed after c (p ∷ ps) h k = ((h, k.0), k.1)

split-FirstLed : (after : Bool) (path : Bytes) → Led after path → FirstLed after (split path)
unfolding split
split-FirstLed after [] h = (tt, tt)
split-FirstLed after (c ∷ cs) h = elim (Bool-cases (c == slash)) [
  | inl e ↦
      let at : c ≡ slash = (==_iff c slash).0 e in
      let ascii : ltb c 128 ≡ true = ground arith in
      rw e (tt, all_of_first (split cs) (split-FirstLed true cs (rw ascii at h.1)))
  | inr e ↦ rw e (cons_first-FirstLed after c (split cs) h.0 (split-FirstLed (ltb c 128) cs h.1))
]

pop-AllText : (ps : List Bytes) → AllText ps → AllText (pop ps)
unfolding pop
pop-AllText [] h = tt
pop-AllText (p ∷ []) h = tt
pop-AllText (p ∷ q ∷ ps) h = (h.0, pop-AllText (q ∷ ps) h.1)

append-AllText : (ps qs : List Bytes) → AllText ps → AllText qs → AllText (ps ++ qs)
append-AllText [] qs h k = k
append-AllText (p ∷ ps) qs h k = (h.0, append-AllText ps qs h.1 k)

step-AllText : (ps : List Bytes) (p : Bytes) → AllText ps → IsText p → AllText (step ps p)
unfolding step
step-AllText ps p h k = elim (Bool-cases (bytes_eq p [] || bytes_eq p dot)) [
  | inl e ↦ rw e h
  | inr e ↦ elim (Bool-cases (bytes_eq p dot_dot)) [
    | inl u ↦ rw (e, u) (pop-AllText ps h)
    | inr u ↦ rw (e, u) (append-AllText ps (p ∷ []) h (k, tt))
  ]
]

walk-AllText : (ps parts : List Bytes) → AllText parts → AllText ps → AllText (walk parts ps)
unfolding walk
walk-AllText [] parts h k = h
walk-AllText (p ∷ ps) parts h k = walk-AllText ps (step parts p) (step-AllText parts p h k.0) k.1

join-IsText : (ps : List Bytes) → AllText ps → IsText (join ps)
join-IsText [] h = tt
join-IsText (p ∷ ps) h = (λ e. refl, Led-append true p (join ps) h.0 (join-IsText ps h.1))

render-IsText : (ps : List Bytes) → AllText ps → IsText (render ps)
render-IsText [] h = (λ e. refl, tt)
render-IsText (p ∷ ps) h = join-IsText (p ∷ ps) h

pub normalize_path-IsText : (path : Bytes) → IsText path → IsText (normalize_path path)
unfolding normalize_path parts_from
normalize_path-IsText path h =
    render-IsText (walk [] (split path))
      (walk-AllText (split path) [] tt (all_of_first (split path) (split-FirstLed true path h)))

pub resolve_path-IsText :
    (path cwd : Bytes) → IsText path → IsText cwd → IsText (resolve_path path cwd)
unfolding resolve_path
resolve_path-IsText path cwd h k = elim (Bool-cases (starts_with_slash path)) [
  | inl e ↦ rw e (normalize_path-IsText path h)
  | inr e ↦ rw e (normalize_path-IsText _ (Led-append true _ path (full (ends_with_slash cwd)) h))
]
  where
    full : (b : Bool) → IsText (if b then cwd else cwd ++ (slash ∷ []))
    full true = k
    full false = Led-append true cwd (slash ∷ []) k (λ e. refl, tt)
