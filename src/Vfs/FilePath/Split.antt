-- ===== src/Vfs/FilePath/Split.antt =====
-- Splitting at slashes against joining with them.
use mathlib.Core.List.{append-nil}
use vyper.Prelude.{ℕ, ◌≡◌, ◌≢◌, refl, ap, ◌∙◌, List, [], ◌∷◌, ◌++◌, arith, Bytes}
use vyper.Vfs.FilePath.{slash, cons_first, split, walk, step, join}

abbrev pub NoSlash : Bytes → Type 0
NoSlash [] = Unit
NoSlash (c ∷ cs) = (c ≢ slash) × NoSlash cs

-- The first piece of a text that goes on with a slash.
pub split-piece : (p rest : Bytes) → NoSlash p → split (p ++ (slash ∷ rest)) ≡ p ∷ split rest
unfolding split
split-piece [] rest h = refl
split-piece (c ∷ p) rest h = ground (arith, split-piece p rest h.1)

pub split-last : (p : Bytes) → NoSlash p → split p ≡ p ∷ []
unfolding split
split-last [] h = refl
split-last (c ∷ p) h = ground (arith, split-last p h.1)

abbrev pub NoSlashes : List Bytes → Type 0
NoSlashes [] = Unit
NoSlashes (p ∷ ps) = NoSlash p × NoSlashes ps

-- The pieces of a joined list are its members, behind the empty piece before the first slash.
pub split-join :
    (p : Bytes) (ps : List Bytes) → NoSlash p → NoSlashes ps → split (p ++ join ps) ≡ p ∷ ps
split-join p [] h hs = rw append-nil (split-last p h)
split-join p (q ∷ ps) h hs = split-piece p (q ++ join ps) h ∙ ap (◌∷◌ p) (split-join q ps hs.0 hs.1)

cons_first-append :
    (c : ℕ) (ps qs : List Bytes) → ps ≢ [] → cons_first c (ps ++ qs) ≡ cons_first c ps ++ qs
cons_first-append c [] qs h = absurd (h refl)
cons_first-append c (p ∷ ps) qs h = refl

pub split-ne-nil : (a : Bytes) → split a ≢ []
unfolding split
split-ne-nil [] = λ e. cc
split-ne-nil (c ∷ a) = λ e. ground (arith, cons_ne c (split a))
  where
    cons_ne : (c : ℕ) (ps : List Bytes) → cons_first c ps ≢ []
    cons_ne c [] = λ e. cc
    cons_ne c (p ∷ ps) = λ e. cc

-- A slash between two texts is a boundary between pieces.
pub split-append : (a b : Bytes) → split (a ++ (slash ∷ b)) ≡ split a ++ split b
unfolding split
split-append [] b = refl
split-append (c ∷ a) b =
    ground (arith, split-append a b, cons_first-append c (split a) (split b) (split-ne-nil a))

pub walk-append : (parts ps qs : List Bytes) → walk parts (ps ++ qs) ≡ walk (walk parts ps) qs
unfolding walk
walk-append parts [] qs = refl
walk-append parts (p ∷ ps) qs = walk-append (step parts p) ps qs
