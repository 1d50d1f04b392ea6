-- ===== src/Vfs/TmpFs/Writes.antt =====
-- `write` through a handle of tmpfs.rs, as a change of what stands at each path.
use vyper.Prelude.{ℕ, ◌≡◌, ◌≢◌, refl, ap, ◌∙◌, List, arith, Bytes, ok, err, panic, stuck}
use vyper.Vfs.Types.{VfsResult}
use vyper.Vfs.TmpFs.Tree.{Node, file, directory}
use vyper.Vfs.TmpFs.Nodes.{path_parts, navigate, put_at, as_file}
use vyper.Vfs.TmpFs.Handle.{TmpFileHandle, write, publish}
use vyper.Vfs.TmpFs.View.{file_with, look, strip, strip_or}
use vyper.Vfs.TmpFs.Files.{file_there, look-navigate, look-put_file}

navigate-look :
    (root : Node) (ps : List Bytes) (old : Bytes)
    → look root ps ≡ ok (file_with old)
    → navigate root ps ≡ ok (file old)
unfolding look
navigate-look root ps old e = go (navigate root ps) refl
  where
    go : (r : VfsResult Node) → navigate root ps ≡ r → navigate root ps ≡ ok (file old)
    go (ok (file c)) at = ground arith
    go (ok (directory es)) at = ground arith
    go (err x) at = ground arith
    go panic at = ground arith
    go stuck at = ground arith

published :
    (root : Node) (path content : Bytes) (old : Bytes)
    → navigate root (path_parts path) ≡ ok (file old)
    → publish root path content ≡ put_at root (path_parts path) (file content)
unfolding as_file publish
published root path content old at = rw (at, publish)

unpublished :
    (root : Node) (path content : Bytes)
    → ((old : Bytes) → look root (path_parts path) ≢ ok (file_with old))
    → publish root path content ≡ root
unfolding as_file publish
unpublished root path content none_there = go (navigate root (path_parts path)) refl
  where
    go :
        (r : VfsResult Node)
        → navigate root (path_parts path) ≡ r
        → publish root path content ≡ root
    go (ok (file c)) at = absurd (none_there c (look-navigate root (path_parts path) (file c) at))
    go (ok (directory es)) at = rw (at, publish)
    go (err x) at = rw (at, publish)
    go panic at = rw (at, publish)
    go stuck at = rw (at, publish)

write-publish :
    (h : TmpFileHandle) (root : Node) (buf : Bytes) (n : ℕ) (h' : TmpFileHandle) (root' : Node)
    → write h root buf ≡ (ok n, h', root')
    → root' ≡ publish root h.path h'.content
unfolding write
write-publish h root buf n h' root' e = ground arith

-- A successful `write` puts the content of the handle into the file at its path, where a file
-- stands there, and what stands at every other path is unchanged; where no file stands there the
-- tree is unchanged.
pub write_lem :
    (h : TmpFileHandle) (root : Node) (buf : Bytes) (q : List Bytes) (n : ℕ) (h' : TmpFileHandle)
    (root' : Node)
    → write h root buf ≡ (ok n, h', root')
    → ((old : Bytes)
        → look root (path_parts h.path) ≡ ok (file_with old)
        → look root' q
          ≡ strip_or (strip (path_parts h.path) q) (look root q) (file_there h'.content))
      × (((old : Bytes) → look root (path_parts h.path) ≢ ok (file_with old)) → root' ≡ root)
write_lem h root buf q n h' root' e =
    let p = write-publish h root buf n h' root' e in
    (
      λ old here.
          let at = navigate-look root (path_parts h.path) old here in
          ap (λ r. look r q) (p ∙ published root h.path h'.content old at)
          ∙ look-put_file root (path_parts h.path) q old h'.content at,
      λ none_there. p ∙ unpublished root h.path h'.content none_there,
    )
