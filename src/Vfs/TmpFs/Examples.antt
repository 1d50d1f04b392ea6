-- ===== src/Vfs/TmpFs/Examples.antt =====
-- The in-memory file system at a concrete tree: /a holds the file x and the empty directory d.
use vyper.Prelude.{bytes, ◌≡◌, ◌≢◌, refl, ◌⊎◌, List, [], ◌∷◌, some, Bytes, ok, err}
use vyper.Vfs.Types.{contains, is_writable, flags_write, not_found}
use vyper.Vfs.TmpFs.{create, parent_dir, mkdir, remove_file, rmdir, open_file}
use vyper.Vfs.TmpFs.Tree.{get, insert, contains_key, Node, file, directory, nil, entry}
use vyper.Vfs.TmpFs.Nodes.{path_parts, navigate, navigate_to_parent, as_dir, as_file, put_at}
use vyper.Vfs.FilePath.{split}
use vyper.Vfs.Cursor.{write_at, copy_at, resize}
use vyper.Vfs.TmpFs.Handle.{TmpFileHandle, write, publish}
use vyper.Vfs.TmpFs.View.{file_with, dir, look, strip, strip_or}
use vyper.Vfs.TmpFs.Dirs.{mkdir_lem, remove_lem, rmdir_lem, fresh_dir, nothing}
use vyper.Vfs.TmpFs.Writes.{write_lem}
use vyper.Vfs.TmpFs.Files.{open_file_lem, file_there, Found, Created}

abbrev tree : Node
tree = directory (
    entry (bytes "a")
      (directory (entry (bytes "x") (file (7 ∷ [])) (entry (bytes "d") (directory nil) nil))) nil)

abbrev reader : TmpFileHandle
reader = record { content = []; position = 0; path = bytes "/a/n"; flags = flags_write }

abbrev writer : TmpFileHandle
writer = record { content = 7 ∷ []; position = 1; path = bytes "/a/x"; flags = flags_write }

made : (mkdir tree (bytes "/a/n")).0 ≡ ok tt
unfolding mkdir path_parts parent_dir navigate_to_parent navigate as_dir contains_key get split
made = refl

mkdir_lem_example :
    (look tree (path_parts (bytes "/a/n")) ≡ err not_found)
    × (look (mkdir tree (bytes "/a/n")).1 (path_parts (bytes "/a/x"))
        ≡ strip_or
            (strip (path_parts (bytes "/a/n")) (path_parts (bytes "/a/x")))
            (look tree (path_parts (bytes "/a/x")))
            fresh_dir)
mkdir_lem_example = mkdir_lem tree (bytes "/a/n") (path_parts (bytes "/a/x")) made

removed_x : (remove_file tree (bytes "/a/x")).0 ≡ ok tt
unfolding remove_file path_parts parent_dir navigate_to_parent navigate as_dir get split
removed_x = refl

removed_d : (rmdir tree (bytes "/a/d")).0 ≡ ok tt
unfolding rmdir path_parts parent_dir navigate_to_parent navigate as_dir get split
removed_d = refl

remove_lem_example :
    ((content : Bytes) × (look tree (path_parts (bytes "/a/x")) ≡ ok (file_with content)))
    × (look (remove_file tree (bytes "/a/x")).1 (path_parts (bytes "/a/x"))
        ≡ strip_or
            (strip (path_parts (bytes "/a/x")) (path_parts (bytes "/a/x")))
            (look tree (path_parts (bytes "/a/x")))
            nothing)
remove_lem_example = remove_lem tree (bytes "/a/x") (path_parts (bytes "/a/x")) removed_x

rmdir_lem_example :
    (look tree (path_parts (bytes "/a/d")) ≡ ok dir)
    × ((r : List Bytes)
        → strip (path_parts (bytes "/a/d")) (path_parts (bytes "/a/x")) ≡ some r
        → look tree (path_parts (bytes "/a/x")) ≡ fresh_dir r)
    × (look (rmdir tree (bytes "/a/d")).1 (path_parts (bytes "/a/x"))
        ≡ strip_or
            (strip (path_parts (bytes "/a/d")) (path_parts (bytes "/a/x")))
            (look tree (path_parts (bytes "/a/x")))
            nothing)
rmdir_lem_example = rmdir_lem tree (bytes "/a/d") (path_parts (bytes "/a/x")) removed_d

abbrev grown : Node
grown = directory (
    entry (bytes "a")
      (directory (
        entry (bytes "d") (directory nil)
          (entry (bytes "n") (file []) (entry (bytes "x") (file (7 ∷ [])) nil))))
      nil)

abbrev sorted : Node
sorted = directory (
    entry (bytes "a")
      (directory (entry (bytes "d") (directory nil) (entry (bytes "x") (file (7 ∷ [])) nil))) nil)

opened_n : open_file sorted (bytes "/a/n") flags_write ≡ (ok reader, grown)
unfolding open_file create path_parts parent_dir navigate_to_parent navigate as_dir get split
    contains put_at insert
opened_n = refl

open_file_lem_example :
    Found sorted (bytes "/a/n") flags_write reader grown
    ⊎ Created sorted (bytes "/a/n") flags_write reader grown
open_file_lem_example = open_file_lem sorted (bytes "/a/n") flags_write reader grown opened_n

abbrev after_write : TmpFileHandle
after_write = record {
  content = 7 ∷ 8 ∷ [];
  position = 2;
  path = bytes "/a/x";
  flags = flags_write;
}

abbrev written_tree : Node
written_tree = directory (
    entry (bytes "a")
      (directory (entry (bytes "d") (directory nil) (entry (bytes "x") (file (7 ∷ 8 ∷ [])) nil)))
      nil)

written_x : write writer sorted (8 ∷ []) ≡ (ok 1, after_write, written_tree)
unfolding write publish path_parts navigate as_dir as_file get split contains put_at insert
    is_writable write_at copy_at resize
written_x = refl

write_lem_example :
    ((old : Bytes)
      → look sorted (path_parts (bytes "/a/x")) ≡ ok (file_with old)
      → look written_tree (path_parts (bytes "/a/x"))
        ≡ strip_or
            (strip (path_parts (bytes "/a/x")) (path_parts (bytes "/a/x")))
            (look sorted (path_parts (bytes "/a/x")))
            (file_there (7 ∷ 8 ∷ [])))
    × (((old : Bytes) → look sorted (path_parts (bytes "/a/x")) ≢ ok (file_with old))
        → written_tree ≡ sorted)
write_lem_example =
    write_lem writer sorted (8 ∷ []) (path_parts (bytes "/a/x")) 1 after_write written_tree
      written_x
