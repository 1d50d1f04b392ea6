-- ===== src/Vfs/Cursor.antt =====
-- Reading and writing at a position of a byte vector: the code that the file handles of
-- vcore/src/vfs/{tmpfs,fat32,memfs,tasksfs}.rs share.
pub mod Laws
mod Examples
use vyper.Prelude.{
  ℕ, ◌+◌, ◌-◌, ◌≤◌, min, Option, none, some, List, [], ◌∷◌, ◌++◌, ltb, if◌then◌else◌, Bytes, Result,
  ok, err, panic, length, take, drop, replicate,
}
use vyper.Vfs.Types.{VfsResult, VfsError, invalid_path, SeekFrom, seek_target, Metadata, file}

-- A slice `content[from..to]`, which panics out of range.
unfoldable pub slice : {E : Type 0} → Bytes → ℕ → ℕ → Result E Bytes
slice content from to =
    if ltb to from
    then panic
    else if ltb (length content) to
    then panic
    else ok (take (to - from) (drop from content))

-- `Vec::resize(n, 0)`
unfoldable pub resize : Bytes → ℕ → Bytes
resize content n = take n content ++ replicate (n - length content) 0

-- `content[at..at + buf.len()].copy_from_slice(buf)`
unfoldable pub copy_at : {E : Type 0} → Bytes → ℕ → Bytes → Result E Bytes
copy_at content at buf =
    if ltb (length content) (at + length buf)
    then panic
    else ok (take at content ++ (buf ++ drop (at + length buf) content))

-- `read` for a buffer of `len` bytes: the bytes copied, and the new position.
unfoldable pub read_at : Bytes → ℕ → ℕ → VfsResult (Bytes × ℕ)
read_at content position len =
    let to_read = min len (length content - position) in
    elim (slice content position (position + to_read)) [
      | ok bytes ↦ ok (bytes, position + to_read)
      | err e ↦ err e
      | _ ↦ panic
    ]

-- The part of `write` that changes the vector: the new one, and the new position.
unfoldable pub write_at : Bytes → ℕ → Bytes → VfsResult (Bytes × ℕ)
write_at content position buf =
    let end_position = position + length buf in
    let grown =
      if ltb (length content) end_position then resize content end_position else content in
    elim (copy_at grown position buf) [
      | ok content' ↦ ok (content', end_position)
      | err e ↦ err e
      | _ ↦ panic
    ]

-- `seek`: the new position, or InvalidPath for one before the start.
unfoldable pub seek_to : ℕ → ℕ → SeekFrom → VfsResult ℕ
seek_to size position pos = elim (seek_target size position pos) [
  | none ↦ err invalid_path
  | some p ↦ ok p
]

abbrev pub file_metadata : Bytes → VfsResult Metadata
file_metadata content = ok (record { file_type = file; size = length content })
