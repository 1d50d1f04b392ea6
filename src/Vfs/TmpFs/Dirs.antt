-- ===== src/Vfs/TmpFs/Dirs.antt =====
-- `mkdir`, `remove` and `rmdir` of tmpfs.rs as changes of what stands at each path.
use vyper.Prelude.{
  ◌≡◌, refl, ap, ◌∙◌, Option, none, some, List, [], ◌∷◌, arith, Bytes, bytes_eq_iff, ok, err, panic,
  stuck,
}
use vyper.Vfs.Types.{VfsResult, not_found}
use vyper.Vfs.TmpFs.{parent_dir, put_dir, mkdir, remove_file, rmdir}
use vyper.Vfs.TmpFs.Tree.{
  Node, Entries, file, directory, nil, entry, get, insert, remove, contains_key, get-insert,
  get-remove,
}
use vyper.Vfs.TmpFs.Nodes.{path_parts, navigate, parent_of}
use vyper.Vfs.TmpFs.View.{
  Kind, dir, file_with, look, look_in, strip, strip_or, kind_of, look-directory, look-strip,
}
use vyper.Vfs.TmpFs.Parents.{Parent, last_step, parent_dir-Parent, look-put_dir, look_parts}

-- Below a new directory nothing is found.
abbrev pub fresh_dir : List Bytes → VfsResult Kind
fresh_dir [] = ok dir
fresh_dir (k ∷ r) = err not_found

abbrev pub nothing : List Bytes → VfsResult Kind
nothing r = err not_found

-- What a successful `mkdir` did.
abbrev MkdirSteps : Node → Bytes → Type 0
MkdirSteps root path =
    (es : Entries) × (name : Bytes) × (parent_dir root (path_parts path) ≡ ok (es, name))
    × (get name es ≡ none)
    × ((mkdir root path).1 ≡ put_dir root (path_parts path) (insert name (directory nil) es))

mkdir_steps : (root : Node) (path : Bytes) → (mkdir root path).0 ≡ ok tt → MkdirSteps root path
unfolding mkdir contains_key
mkdir_steps root path e = go (parent_dir root (path_parts path)) refl
  where
    go :
        (d : VfsResult (Entries × Bytes))
        → parent_dir root (path_parts path) ≡ d
        → MkdirSteps root path
    go (ok (es, name)) h = (es, name, h, ground arith, ground arith)
    go (err x) h = ground arith
    go panic h = ground arith
    go stuck h = ground arith

-- A new entry of a directory, seen from the directory.
pub insert_seen :
    (name : Bytes) (m : Node) (es : Entries) (seen : List Bytes → VfsResult Kind)
    → ((r : List Bytes) → look m r ≡ seen r)
    → (r : List Bytes)
    → look_in (insert name m es) r ≡ strip_or (last_step name r) (look_in es r) seen
insert_seen name m es seen h [] = refl
insert_seen name m es seen h (k ∷ r) = ground (arith, get-insert k name m es, h r)

remove_seen :
    (name : Bytes) (es : Entries) (r : List Bytes)
    → look_in (remove name es) r ≡ strip_or (last_step name r) (look_in es r) nothing
remove_seen name es [] = refl
remove_seen name es (k ∷ r) = ground (arith, get-remove k name es)

look_here : (n : Node) → look n [] ≡ ok (kind_of n)
unfolding look navigate
look_here n = refl

look-fresh : (r : List Bytes) → look (directory nil) r ≡ fresh_dir r
unfolding get
look-fresh [] = look-directory nil []
look-fresh (k ∷ r) = look-directory nil (k ∷ r)

-- A successful `mkdir` creates a directory at a path where nothing was found; below it nothing is
-- found, and what stands at every other path is unchanged.
pub mkdir_lem :
    (root : Node) (path : Bytes) (q : List Bytes)
    → (mkdir root path).0 ≡ ok tt
    → (look root (path_parts path) ≡ err not_found)
      × (look (mkdir root path).1 q ≡ strip_or (strip (path_parts path) q) (look root q) fresh_dir)
mkdir_lem root path q e =
    let (es, name, at, free, left) = mkdir_steps root path e in
    let p = parent_dir-Parent root (path_parts path) es name at in
    (
      look_parts root (path_parts path) es name p ∙ absent es name free,
      ap (λ n. look n q) left
          ∙ look-put_dir root (path_parts path) q es _ name fresh_dir p
              (insert_seen name (directory nil) es fresh_dir look-fresh),
    )
  where
    absent :
        (es : Entries) (name : Bytes) → get name es ≡ none → look_in es (name ∷ []) ≡ err not_found
    absent es name free = rw (free, look_in)

-- What a successful `remove` or `rmdir` did: the old node, and the root left.
abbrev Unlinked : Node → Bytes → Node → Node → Type 0
Unlinked root path old root' =
    (es : Entries) × (name : Bytes) × (parent_dir root (path_parts path) ≡ ok (es, name))
    × (get name es ≡ some old)
    × (root' ≡ put_dir root (path_parts path) (remove name es))

remove_steps :
    (root : Node) (path : Bytes)
    → (remove_file root path).0 ≡ ok tt
    → (content : Bytes) × Unlinked root path (file content) (remove_file root path).1
unfolding remove_file
remove_steps root path e = go (parent_dir root (path_parts path)) refl
  where
    at :
        (es : Entries) (name : Bytes) (n : Option Node)
        → parent_dir root (path_parts path) ≡ ok (es, name)
        → get name es ≡ n
        → (content : Bytes) × Unlinked root path (file content) (remove_file root path).1
    at es name none h g = ground arith
    at es name (some (directory d)) h g = ground arith
    at es name (some (file content)) h g = (content, (es, name, h, g, ground arith))

    go :
        (d : VfsResult (Entries × Bytes))
        → parent_dir root (path_parts path) ≡ d
        → (content : Bytes) × Unlinked root path (file content) (remove_file root path).1
    go (ok (es, name)) h = at es name (get name es) h refl
    go (err x) h = ground arith
    go panic h = ground arith
    go stuck h = ground arith

rmdir_steps :
    (root : Node) (path : Bytes)
    → (rmdir root path).0 ≡ ok tt
    → Unlinked root path (directory nil) (rmdir root path).1
unfolding rmdir
rmdir_steps root path e = go (parent_dir root (path_parts path)) refl
  where
    at :
        (es : Entries) (name : Bytes) (n : Option Node)
        → parent_dir root (path_parts path) ≡ ok (es, name)
        → get name es ≡ n
        → Unlinked root path (directory nil) (rmdir root path).1
    at es name none h g = ground arith
    at es name (some (directory nil)) h g = (es, name, h, g, ground arith)
    at es name (some (directory (entry k n d))) h g = ground arith
    at es name (some (file content)) h g = ground arith

    go :
        (d : VfsResult (Entries × Bytes))
        → parent_dir root (path_parts path) ≡ d
        → Unlinked root path (directory nil) (rmdir root path).1
    go (ok (es, name)) h = at es name (get name es) h refl
    go (err x) h = ground arith
    go panic h = ground arith
    go stuck h = ground arith

unlinked :
    (root : Node) (path : Bytes) (old root' : Node) (q : List Bytes)
    → Unlinked root path old root'
    → (look root (path_parts path) ≡ ok (kind_of old))
      × (look root' q ≡ strip_or (strip (path_parts path) q) (look root q) nothing)
unlinked root path old root' q (es, name, at, here, left) =
    let p = parent_dir-Parent root (path_parts path) es name at in
    (
      look_parts root (path_parts path) es name p ∙ found here,
      ap (λ n. look n q) left
          ∙ look-put_dir root (path_parts path) q es _ name nothing p (remove_seen name es),
    )
  where
    found : get name es ≡ some old → look_in es (name ∷ []) ≡ ok (kind_of old)
    found here = rw (here, look_in) (look_here old)

-- A successful `remove` found a file at the path, after it nothing is found there or below, and
-- what stands at every other path is unchanged.
pub remove_lem :
    (root : Node) (path : Bytes) (q : List Bytes)
    → (remove_file root path).0 ≡ ok tt
    → ((content : Bytes) × (look root (path_parts path) ≡ ok (file_with content)))
      × (look (remove_file root path).1 q
          ≡ strip_or (strip (path_parts path) q) (look root q) nothing)
remove_lem root path q e =
    let (content, u) = remove_steps root path e in
    let (before, after) = unlinked root path (file content) (remove_file root path).1 q u in
    ((content, before), after)

look-Unlinked :
    (root : Node) (path : Bytes) (old root' : Node) (q r : List Bytes)
    → Unlinked root path old root'
    → strip (path_parts path) q ≡ some r
    → look root q ≡ look old r
look-Unlinked root path old root' q r (es, name, at, here, left) s =
    let p = parent_dir-Parent root (path_parts path) es name at in
    go p (strip (parent_of (path_parts path)) q) refl
  where
    go :
        Parent root (path_parts path) es name
        → (o : Option (List Bytes)) → strip (parent_of (path_parts path)) q ≡ o
        → look root q ≡ look old r
    go p none e = ground (arith, p.below q)
    go p (some []) e = ground (arith, p.below q)
    go p (some (k ∷ r')) e = ground (
      arith,
      p.below q,
      bytes_eq_iff name k,
      look-strip root (parent_of (path_parts path)) q (k ∷ r') es p.reached e,
    )

-- A successful `rmdir` found a directory at the path and nothing below it; after it nothing is
-- found there, and what stands at every other path is unchanged.
pub rmdir_lem :
    (root : Node) (path : Bytes) (q : List Bytes)
    → (rmdir root path).0 ≡ ok tt
    → (look root (path_parts path) ≡ ok dir)
      × ((r : List Bytes) → strip (path_parts path) q ≡ some r → look root q ≡ fresh_dir r)
      × (look (rmdir root path).1 q ≡ strip_or (strip (path_parts path) q) (look root q) nothing)
rmdir_lem root path q e =
    let u = rmdir_steps root path e in
    let root' = (rmdir root path).1 in
    let (before, after) = unlinked root path (directory nil) root' q u in
    (before, λ r s. look-Unlinked root path (directory nil) root' q r u s ∙ look-fresh r, after)
