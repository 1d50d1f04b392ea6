-- ===== src/Vfs/TmpFs.antt =====
-- vcore/src/vfs/tmpfs.rs: the file system in memory. A method takes the root that its lock
-- guards, and returns its result with the new root. `&mut Node` is the path of the node, and a
-- write through it is `put_at`.
pub mod Tree
pub mod Nodes
pub mod Handle
pub mod View
pub mod Parents
pub mod Dirs
pub mod Files
pub mod Writes
mod Examples
use vyper.Prelude.{
  ℕ, zero, suc, ◌+◌, Bool, true, false, not, Option, none, some, List, [], ◌∷◌, ◌++◌, map,
  if◌then◌else◌, Bytes, bytes_eq, Result, ok, err, panic, stuck, ◌>>=◌, ok_or, length, is_ok,
}
use vyper.Vfs.Types.{
  FileType, file, directory, DirEntry, Metadata, VfsError, VfsResult, not_found, already_exists,
  not_a_directory, is_a_directory, not_empty, invalid_path, permission_denied, contains, o_trunc,
  o_append, o_creat, OpenFlags,
}
use vyper.Vfs.FilePath.{split}
use Tree.{Node, Entries, get, insert, remove, contains_key, count, dir_entries, node_file_type}
use Nodes.{as_dir, size, navigate, put_at, navigate_to_parent, path_parts, parent_of}
use Handle.{TmpFileHandle}

-- `TmpFs::new`
unfoldable pub new : Node
new = Node.directory Entries.nil

-- The result of a step that may change the root: an error leaves it as it was.
abbrev pub commit : {A : Type 0} → Node → VfsResult (A × Node) → VfsResult A × Node
commit root (ok (a, root')) = (ok a, root')
commit root (err e) = (err e, root)
commit root panic = (panic, root)
commit root stuck = (stuck, root)

-- The directory that holds the last component, its path, and that component.
unfoldable pub parent_dir : Node → List Bytes → VfsResult (Entries × Bytes)
parent_dir root parts = do
  p ← navigate_to_parent root parts
  dir ← ok_or not_a_directory (as_dir p.0)
  ok (dir, p.1)

-- The root after the parent directory has got new entries.
abbrev pub put_dir : Node → List Bytes → Entries → Node
put_dir root parts dir = put_at root (parent_of parts) (Node.directory dir)

abbrev pub is_empty : List Bytes → Bool
is_empty [] = true
is_empty (p ∷ ps) = false

unfoldable pub mkdir : Node → Bytes → VfsResult (Unit {0}) × Node
mkdir root path =
    let parts = path_parts path in
    if is_empty parts
    then (err already_exists, root)
    else commit root (do
      d ← parent_dir root parts
      if contains_key d.1 d.0
          then err already_exists
          else ok (tt, put_dir root parts (insert d.1 (Node.directory Entries.nil) d.0)))

-- The arms of the `match` of `remove`.
abbrev pub removed : Entries → Bytes → Option Node → VfsResult Entries
removed dir name (some (Node.file content)) = ok (remove name dir)
removed dir name (some (Node.directory es)) = err is_a_directory
removed dir name none = err not_found

unfoldable pub remove_file : Node → Bytes → VfsResult (Unit {0}) × Node
remove_file root path =
    let parts = path_parts path in
    if is_empty parts
    then (err permission_denied, root)
    else commit root (do
      d ← parent_dir root parts
      dir ← removed d.0 d.1 (get d.1 d.0)
      ok (tt, put_dir root parts dir))

-- The arms of the `match` of `rmdir`.
abbrev pub removed_dir : Entries → Bytes → Option Node → VfsResult Entries
removed_dir dir name (some (Node.directory Entries.nil)) = ok (remove name dir)
removed_dir dir name (some (Node.directory (Entries.entry k n es))) = err not_empty
removed_dir dir name (some (Node.file content)) = err not_a_directory
removed_dir dir name none = err not_found

unfoldable pub rmdir : Node → Bytes → VfsResult (Unit {0}) × Node
rmdir root path =
    let parts = path_parts path in
    if is_empty parts
    then (err permission_denied, root)
    else commit root (do
      d ← parent_dir root parts
      dir ← removed_dir d.0 d.1 (get d.1 d.0)
      ok (tt, put_dir root parts dir))

-- `open` on a file that is there.
abbrev pub opened : Bytes → OpenFlags → Node → VfsResult TmpFileHandle
opened path flags (Node.directory es) = err is_a_directory
opened path flags (Node.file old) =
    let content = if contains flags o_trunc then [] else old in
    ok (record {
      content = content;
      position = if contains flags o_append then length content else 0;
      path = path;
      flags = flags;
    })

-- `open` on a path that is not there, under O_CREAT.
unfoldable pub create : Node → Bytes → OpenFlags → VfsResult (TmpFileHandle × Node)
create root path flags = do
  d ← parent_dir root (path_parts path)
  ok (
    record { content = []; position = 0; path = path; flags = flags },
    put_dir root (path_parts path) (insert d.1 (Node.file []) d.0),
  )

unfoldable pub open_file : Node → Bytes → OpenFlags → VfsResult TmpFileHandle × Node
open_file root path flags =
    if is_empty (path_parts path)
    then (err is_a_directory, root)
    else elim (navigate root (path_parts path)) [
      | ok n ↦ (opened path flags n, root)
      | err not_found ↦
          (if contains flags o_creat
            then commit root (create root path flags)
            else (err not_found, root))
      | err e ↦ (err e, root)
      | _ ↦ (panic, root)
    ]

unfoldable pub readdir : Node → Bytes → VfsResult (List DirEntry)
readdir root path = do
  node ← navigate root (path_parts path)
  dir ← ok_or not_a_directory (as_dir node)
  ok (dir_entries dir)

unfoldable pub metadata : Node → Bytes → VfsResult Metadata
metadata root path = do
  node ← navigate root (path_parts path)
  ok (record { file_type = node_file_type node; size = size node })
