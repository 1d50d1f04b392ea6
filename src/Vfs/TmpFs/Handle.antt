-- ===== src/Vfs/TmpFs/Handle.antt =====
-- `TmpFileHandle` of tmpfs.rs: an open file has its own copy of the content, and each write puts
-- it back into the tree.
use vyper.Prelude.{ℕ, not, none, some, if◌then◌else◌, Bytes, ok, err, panic, length}
use vyper.Vfs.Types.{
  VfsResult, permission_denied, OpenFlags, is_readable, is_writable, contains, o_append, SeekFrom,
  Metadata,
}
use vyper.Vfs.Cursor.{read_at, write_at, seek_to, file_metadata}
use vyper.Vfs.TmpFs.Tree.{Node}
use vyper.Vfs.TmpFs.Nodes.{as_file, navigate, put_at, path_parts}

pub record TmpFileHandle : Type 0 where
  pub content : Bytes
  pub position : ℕ
  pub path : Bytes
  pub flags : OpenFlags

-- `read` into a buffer of `len` bytes: the bytes that it copies. Their number is returned.
unfoldable pub read : TmpFileHandle → ℕ → VfsResult Bytes × TmpFileHandle
read h len =
    if not (is_readable h.flags)
    then (err permission_denied, h)
    else elim (read_at h.content h.position len) [
      | ok (bytes, position') ↦ (ok bytes, record h { position = position' })
      | err e ↦ (err e, h)
      | _ ↦ (panic, h)
    ]

-- The end of `write`: the file at the handle's path, where it still is one, gets the content.
unfoldable pub publish : Node → Bytes → Bytes → Node
publish root path content =
    let parts = path_parts path in
    elim (navigate root parts) [
      | ok n ↦ elim (as_file n) [ some old ↦ put_at root parts (Node.file content) | none ↦ root ]
      | _ ↦ root
    ]

-- `write`: the handle and the root that it leaves.
unfoldable pub write : TmpFileHandle → Node → Bytes → VfsResult ℕ × TmpFileHandle × Node
write h root buf =
    if not (is_writable h.flags)
    then (err permission_denied, h, root)
    else (let at = if contains h.flags o_append then length h.content else h.position in
        elim (write_at h.content at buf) [
          | ok (content', stop) ↦ (
            ok (length buf),
            record h { content = content'; position = stop },
            publish root h.path content',
          )
          | err e ↦ (err e, h, root)
          | _ ↦ (panic, h, root)
        ])

unfoldable pub seek : TmpFileHandle → SeekFrom → VfsResult ℕ × TmpFileHandle
seek h pos = elim (seek_to (length h.content) h.position pos) [
  | ok p ↦ (ok p, record h { position = p })
  | err e ↦ (err e, h)
  | _ ↦ (panic, h)
]

unfoldable pub metadata : TmpFileHandle → VfsResult Metadata
metadata h = file_metadata h.content
