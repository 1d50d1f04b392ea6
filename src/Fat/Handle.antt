-- ===== src/Fat/Handle.antt =====
-- `FatFileHandle` of fat32.rs: an open file has its own copy of the data, which is written back when
-- it is closed.
use vyper.Prelude.{ℕ, Bool, true, not, List, if◌then◌else◌, Bytes, ok, err, panic, length}
use vyper.Vfs.Types.{VfsResult, permission_denied, OpenFlags, is_writable, SeekFrom, Metadata}
use vyper.Vfs.Cursor.{read_at, write_at, seek_to, file_metadata}

pub record FatFileHandle : Type 0 where
  pub path : List ℕ
  pub cluster : ℕ
  pub size : ℕ
  pub position : ℕ
  pub bytes : Bytes
  pub dirty : Bool
  pub flags : OpenFlags

-- `read` into a buffer of `len` bytes.
unfoldable pub read : FatFileHandle → ℕ → VfsResult Bytes × FatFileHandle
read h len = elim (read_at h.bytes h.position len) [
  | ok (got, position') ↦ (ok got, record h { position = position' })
  | err e ↦ (err e, h)
  | _ ↦ (panic, h)
]

unfoldable pub write : FatFileHandle → Bytes → VfsResult ℕ × FatFileHandle
write h buf =
    if not (is_writable h.flags)
    then (err permission_denied, h)
    else elim (write_at h.bytes h.position buf) [
      | ok (bytes', stop) ↦
          (ok (length buf), record h { bytes = bytes'; position = stop; dirty = true })
      | err e ↦ (err e, h)
      | _ ↦ (panic, h)
    ]

unfoldable pub seek : FatFileHandle → SeekFrom → VfsResult ℕ × FatFileHandle
seek h pos = elim (seek_to (length h.bytes) h.position pos) [
  | ok p ↦ (ok p, record h { position = p })
  | err e ↦ (err e, h)
  | _ ↦ (panic, h)
]

unfoldable pub handle_metadata : FatFileHandle → VfsResult Metadata
handle_metadata h = file_metadata h.bytes
