-- ===== src/Vfs/TmpFs/Files.antt =====
-- `open` of tmpfs.rs as a change of what stands at each path.
use vyper.Prelude.{
  ◌≡◌, ◌⊎◌, inl, inr, refl, ap, sym, ◌∙◌, true, List, [], ◌∷◌, arith, if◌then◌else◌, Bytes,
  bytes_eq_iff, ok, err, panic, stuck,
}
use vyper.Vfs.Types.{VfsResult, not_found, not_a_directory, OpenFlags, contains, o_trunc, o_creat}
use vyper.Vfs.TmpFs.{parent_dir, put_dir, open_file, create}
use vyper.Vfs.TmpFs.Tree.{Node, Entries, file, directory, insert, get-insert}
use vyper.Vfs.TmpFs.Nodes.{path_parts, navigate, put_at}
use vyper.Vfs.TmpFs.Handle.{TmpFileHandle}
use vyper.Vfs.TmpFs.View.{
  Kind, file_with, look, strip, strip_or, kind_of, look-directory, look-file, navigate_down,
  navigate_file, put_down,
}
use vyper.Vfs.TmpFs.Parents.{parent_dir-Parent, look-put_dir}
use vyper.Vfs.TmpFs.Dirs.{insert_seen}

-- At a file stands its content, and the walk cannot go on below it.
abbrev pub file_there : Bytes → List Bytes → VfsResult Kind
file_there content [] = ok (file_with content)
file_there content (k ∷ r) = err not_a_directory

look-file_there : (content : Bytes) (r : List Bytes) → look (file content) r ≡ file_there content r
unfolding look navigate
look-file_there content [] = refl
look-file_there content (k ∷ r) = look-file content k r

pub look-navigate :
    (root : Node) (ps : List Bytes) (n : Node)
    → navigate root ps ≡ ok n
    → look root ps ≡ ok (kind_of n)
unfolding look
look-navigate root ps n e = rw e

put_file_here :
    (root : Node) (q : List Bytes) (content : Bytes)
    → look (put_at root [] (file content)) q ≡ file_there content q
unfolding put_at
put_file_here root q content = look-file_there content q

-- A file that is reached gets other content.
pub look-put_file :
    (root : Node) (ps q : List Bytes) (old content : Bytes)
    → navigate root ps ≡ ok (file old)
    → look (put_at root ps (file content)) q
      ≡ strip_or (strip ps q) (look root q) (file_there content)
look-put_file root [] q old content e = put_file_here root q content
look-put_file (file c) (p ∷ ps) q old content e = absurd (navigate_file c p ps (file old) e)
look-put_file (directory d) (p ∷ ps) [] old content e =
    let (n, here, on) = navigate_down d p ps (file old) e in
    rw (put_down d p ps n (file content) here) (look-directory _ [] ∙ sym (look-directory d []))
look-put_file (directory d) (p ∷ ps) (k ∷ q) old content e =
    let (n, here, on) = navigate_down d p ps (file old) e in
    let m = put_at n ps (file content) in
    rw (put_down d p ps n (file content) here) (
      ground (
        arith,
        look-directory (insert p m d) (k ∷ q),
        look-directory d (k ∷ q),
        get-insert k p m d,
        bytes_eq_iff p k,
        look-put_file n ps q old content on,
      ))

-- What a successful `open` found and did.
pub record Found (root : Node) (path : Bytes) (flags : OpenFlags) (h : TmpFileHandle) (root' : Node)
    : Type 0 where
  pub old : Bytes
  pub there : look root (path_parts path) ≡ ok (file_with old)
  pub loaded : h.content ≡ (if contains flags o_trunc then [] else old)
  pub unchanged : root' ≡ root

pub record Created (root : Node) (path : Bytes) (flags : OpenFlags) (h : TmpFileHandle)
    (root' : Node) : Type 0 where
  pub absent : look root (path_parts path) ≡ err not_found
  pub asked : contains flags o_creat ≡ true
  pub empty : h.content ≡ []
  pub seen :
      (q : List Bytes)
      → look root' q ≡ strip_or (strip (path_parts path) q) (look root q) (file_there [])

open_file-Found :
    (root : Node) (path : Bytes) (flags : OpenFlags) (h : TmpFileHandle) (root' : Node) (n : Node)
    → navigate root (path_parts path) ≡ ok n
    → open_file root path flags ≡ (ok h, root')
    → Found root path flags h root'
unfolding open_file
open_file-Found root path flags h root' (directory es) at e = ground arith
open_file-Found root path flags h root' (file old) at e = record {
  old = old;
  there = look-navigate root (path_parts path) (file old) at;
  loaded = ground arith;
  unchanged = ground arith;
}

abbrev CreateSteps : Node → Bytes → OpenFlags → TmpFileHandle → Node → Type 0
CreateSteps root path flags h root' =
    (es : Entries) × (name : Bytes) × (parent_dir root (path_parts path) ≡ ok (es, name))
    × (contains flags o_creat ≡ true)
    × (h.content ≡ [])
    × (root' ≡ put_dir root (path_parts path) (insert name (file []) es))

create_steps :
    (root : Node) (path : Bytes) (flags : OpenFlags) (h : TmpFileHandle) (root' : Node)
    → navigate root (path_parts path) ≡ err not_found
    → open_file root path flags ≡ (ok h, root')
    → CreateSteps root path flags h root'
unfolding open_file create
create_steps root path flags h root' at e = go (parent_dir root (path_parts path)) refl
  where
    go :
        (d : VfsResult (Entries × Bytes))
        → parent_dir root (path_parts path) ≡ d
        → CreateSteps root path flags h root'
    go (ok (es, name)) g = (es, name, g, ground arith, ground arith, ground arith)
    go (err x) g = ground arith
    go panic g = ground arith
    go stuck g = ground arith

look_missing :
    (root : Node) (ps : List Bytes)
    → navigate root ps ≡ err not_found
    → look root ps ≡ err not_found
unfolding look
look_missing root ps e = rw e

open_file-Created :
    (root : Node) (path : Bytes) (flags : OpenFlags) (h : TmpFileHandle) (root' : Node)
    → navigate root (path_parts path) ≡ err not_found
    → open_file root path flags ≡ (ok h, root')
    → Created root path flags h root'
open_file-Created root path flags h root' at e =
    let (es, name, d, asked, empty, left) = create_steps root path flags h root' at e in
    let p = parent_dir-Parent root (path_parts path) es name d in
    record {
      absent = look_missing root (path_parts path) at;
      asked = asked;
      empty = empty;
      seen = λ q.
          ap (λ n. look n q) left
          ∙ look-put_dir root (path_parts path) q es _ name (file_there []) p
              (insert_seen name (file []) es (file_there []) (look-file_there []));
    }

-- The other errors of the walk are the errors of `open`.
abbrev Stops : Node → Bytes → OpenFlags → TmpFileHandle → Node → VfsResult Node → Type 0
Stops root path flags h root' r =
    navigate root (path_parts path) ≡ r
    → open_file root path flags ≡ (ok h, root')
    → ((n : Node) × (r ≡ ok n)) ⊎ (r ≡ err not_found)

open_file-Stops :
    (root : Node) (path : Bytes) (flags : OpenFlags) (h : TmpFileHandle) (root' : Node)
    (r : VfsResult Node)
    → Stops root path flags h root' r
unfolding open_file
open_file-Stops root path flags h root' (ok n) at e = inl (n, refl)
open_file-Stops root path flags h root' (err x) at e =
    (elim x as (λ y. Stops root path flags h root' (err y)) [
      | not_found ↦ λ at e. inr refl
      | _ ↦ λ at e. ground arith
    ])
      at e
open_file-Stops root path flags h root' panic at e = ground arith
open_file-Stops root path flags h root' stuck at e = ground arith

-- A successful `open` either finds a file at the path and leaves the tree unchanged, with the
-- file's content loaded, or with nothing under O_TRUNC; or, under O_CREAT, it creates an empty
-- file at a path where nothing was found, with what stands at every other path unchanged.
pub open_file_lem :
    (root : Node) (path : Bytes) (flags : OpenFlags) (h : TmpFileHandle) (root' : Node)
    → open_file root path flags ≡ (ok h, root')
    → Found root path flags h root' ⊎ Created root path flags h root'
open_file_lem root path flags h root' e = elim (open_file-Stops root path flags h root' _ refl e) [
  | inl (n, at) ↦ inl (open_file-Found root path flags h root' n at e)
  | inr at ↦ inr (open_file-Created root path flags h root' at e)
]
