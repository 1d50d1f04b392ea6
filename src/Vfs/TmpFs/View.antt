-- ===== src/Vfs/TmpFs/View.antt =====
-- The tree as a client sees it: what stands at each path. Directories forget their entries.
use vyper.Prelude.{
  ◌≡◌, refl, sym, ◌∙◌, Option, none, some, List, [], ◌∷◌, arith, if◌then◌else◌, Bytes, bytes_eq,
  bytes_eq_iff, ok, err, ◌>>=◌, Option-cases, inl, inr,
}
use vyper.Vfs.Types.{VfsResult, not_found, not_a_directory}
use vyper.Vfs.TmpFs.Tree.{Node, Entries, file, directory, get, insert, get-insert}
use vyper.Vfs.TmpFs.Nodes.{as_dir, navigate, put_at}

pub data Kind : Type 0 where
  file_with : Bytes → Kind
  dir : Kind

abbrev pub kind_of : Node → Kind
kind_of (file content) = file_with content
kind_of (directory es) = dir

unfoldable pub look : Node → List Bytes → VfsResult Kind
look root q = navigate root q >>= λ n. ok (kind_of n)

-- What a path adds to another that it goes through.
abbrev pub strip : List Bytes → List Bytes → Option (List Bytes)
strip [] q = some q
strip (p ∷ ps) [] = none
strip (p ∷ ps) (k ∷ q) = if bytes_eq p k then strip ps q else none

abbrev pub strip_or : {A : Type 0} → Option (List Bytes) → A → (List Bytes → A) → A
strip_or none a f = a
strip_or (some r) a f = f r

-- One step down.
abbrev pub look_in : Entries → List Bytes → VfsResult Kind
look_in es [] = ok dir
look_in es (k ∷ q) = elim (get k es) [ none ↦ err not_found | some n ↦ look n q ]

pub look-directory : (es : Entries) (q : List Bytes) → look (directory es) q ≡ look_in es q
unfolding look navigate as_dir
look-directory es [] = refl
look-directory es (k ∷ q) = ground arith

pub look-file :
    (content : Bytes) (k : Bytes) (q : List Bytes)
    → look (file content) (k ∷ q) ≡ err not_a_directory
unfolding look navigate as_dir
look-file content k q = refl

pub navigate_here : (root : Node) → navigate root [] ≡ ok root
unfolding navigate
navigate_here root = refl

pub navigate_down :
    (d : Entries) (p : Bytes) (ps : List Bytes) (m : Node)
    → navigate (directory d) (p ∷ ps) ≡ ok m
    → (n : Node) × (get p d ≡ some n) × (navigate n ps ≡ ok m)
unfolding navigate as_dir
navigate_down d p ps m e = elim (Option-cases (get p d)) [
  | inl absent ↦ ground arith
  | inr (n, here) ↦ (n, here, ground arith)
]

pub navigate_file :
    (content p : Bytes) (ps : List Bytes) (m : Node) → ¬ (navigate (file content) (p ∷ ps) ≡ ok m)
unfolding navigate as_dir
navigate_file content p ps m e = cc

pub put_down :
    (d : Entries) (p : Bytes) (ps : List Bytes) (n m : Node)
    → get p d ≡ some n
    → put_at (directory d) (p ∷ ps) m ≡ directory (insert p (put_at n ps m) d)
unfolding put_at
put_down d p ps n m e = rw (e, put_at)

-- A directory that is reached: the walk goes on in it.
pub look-strip :
    (root : Node) (ps q r : List Bytes) (es : Entries)
    → navigate root ps ≡ ok (directory es)
    → strip ps q ≡ some r
    → look root q ≡ look_in es r
look-strip root [] q r es e s = ground (arith, look-directory es q, navigate_here root)
look-strip root (p ∷ ps) [] r es e s = cc
look-strip (file content) (p ∷ ps) (k ∷ q) r es e s =
    absurd (navigate_file content p ps (directory es) e)
look-strip (directory d) (p ∷ ps) (k ∷ q) r es e s =
    let (n, here, on) = navigate_down d p ps (directory es) e in
    ground (arith, look-directory d (k ∷ q), bytes_eq_iff p k, look-strip n ps q r es on)

put_here :
    (root : Node) (q : List Bytes) (es' : Entries)
    → look (put_at root [] (directory es')) q ≡ look_in es' q
unfolding put_at
put_here root q es' = look-directory es' q

-- A directory that is reached gets other entries: below it the new ones are seen, and all else is
-- as before.
pub look-put_at :
    (root : Node) (ps q : List Bytes) (es es' : Entries)
    → navigate root ps ≡ ok (directory es)
    → look (put_at root ps (directory es')) q ≡ strip_or (strip ps q) (look root q) (look_in es')
look-put_at root [] q es es' e = put_here root q es'
look-put_at (file content) (p ∷ ps) q es es' e =
    absurd (navigate_file content p ps (directory es) e)
look-put_at (directory d) (p ∷ ps) [] es es' e =
    let (n, here, on) = navigate_down d p ps (directory es) e in
    rw (put_down d p ps n (directory es') here) (look-directory _ [] ∙ sym (look-directory d []))
look-put_at (directory d) (p ∷ ps) (k ∷ q) es es' e =
    let (n, here, on) = navigate_down d p ps (directory es) e in
    let m = put_at n ps (directory es') in
    rw (put_down d p ps n (directory es') here) (
      ground (
        arith,
        look-directory (insert p m d) (k ∷ q),
        look-directory d (k ∷ q),
        get-insert k p m d,
        bytes_eq_iff p k,
        look-put_at n ps q es es' on,
      ))
