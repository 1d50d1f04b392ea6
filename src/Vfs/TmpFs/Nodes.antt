-- ===== src/Vfs/TmpFs/Nodes.antt =====
-- Walking down the tree of nodes.
use vyper.Prelude.{
  ℕ, Option, none, some, List, [], ◌∷◌, Bytes, bytes_eq, if◌then◌else◌, ok, err, ◌>>=◌, length,
}
use vyper.Vfs.Types.{VfsResult, not_found, not_a_directory, invalid_path}
use vyper.Vfs.FilePath.{split}
use vyper.Vfs.TmpFs.Tree.{Node, Entries, file, directory, get, insert, count}

unfoldable pub as_dir : Node → Option Entries
as_dir (directory es) = some es
as_dir (file content) = none

unfoldable pub as_file : Node → Option Bytes
as_file (file content) = some content
as_file (directory es) = none

unfoldable pub size : Node → ℕ
size (file content) = length content
size (directory es) = count es

abbrev keep_nonempty : List Bytes → List Bytes
keep_nonempty [] = []
keep_nonempty (p ∷ ps) = if bytes_eq p [] then keep_nonempty ps else p ∷ keep_nonempty ps

-- `path.split('/').filter(|s| !s.is_empty())`
unfoldable pub path_parts : Bytes → List Bytes
unfolding split
path_parts path = keep_nonempty (split path)

-- `navigate` and `navigate_mut`
unfoldable pub navigate : Node → List Bytes → VfsResult Node
navigate current [] = ok current
navigate current (part ∷ parts) = elim (as_dir current) [
  | none ↦ err not_a_directory
  | some es ↦ elim (get part es) [ none ↦ err not_found | some n ↦ navigate n parts ]
]

-- A write through the reference that `navigate_mut` returns: the node at a path is replaced.
unfoldable pub put_at : Node → List Bytes → Node → Node
put_at current [] m = m
put_at (file content) (part ∷ parts) m = file content
put_at (directory es) (part ∷ parts) m = elim (get part es) [
  | none ↦ directory es
  | some n ↦ directory (insert part (put_at n parts m) es)
]

-- `parts.split_at(parts.len() - 1)`
abbrev pub parent_of : List Bytes → List Bytes
parent_of [] = []
parent_of (p ∷ []) = []
parent_of (p ∷ q ∷ ps) = p ∷ parent_of (q ∷ ps)

abbrev pub last_of : Bytes → List Bytes → Bytes
last_of p [] = p
last_of p (q ∷ ps) = last_of q ps

unfoldable pub navigate_to_parent : Node → List Bytes → VfsResult (Node × Bytes)
navigate_to_parent root [] = err invalid_path
navigate_to_parent root (p ∷ ps) = do
  current ← navigate root (parent_of (p ∷ ps))
  ok (current, last_of p ps)
