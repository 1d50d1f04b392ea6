-- ===== src/Dents.antt =====
-- SYS_GETDENTS of vcore/src/cpu/syscall.rs, and the iterator of user/vlib/src/syscalls.rs that
-- reads what it writes. The user's buffer is the list of its bytes.
pub mod Round
pub mod Listing
mod Examples
use Prim.Native.Nat.{bit_and, bit_or}
use vyper.Prelude.{
  ℕ, zero, suc, ◌+◌, ◌*◌, ◌/◌, ◌%◌, ◌^◌, Bool, ◌||◌, Option, none, some, List, [], ◌∷◌, ◌++◌, ltb,
  ◌==◌, if◌then◌else◌, Bytes, length, take, drop, get_or, err, ok,
}
use vyper.Vfs.Types.{FileType, file, directory, device, DirEntry, VfsResult, not_a_directory}
use vyper.Vfs.Fd.{FdKind, FdTable, get}

abbrev pub type_code : FileType → ℕ
type_code file = 1
type_code directory = 2
type_code device = 3

-- What one entry writes: its type, the length of its name as a little-endian `u16`, its name.
abbrev pub record_bytes : DirEntry → Bytes
record_bytes e =
    let name_len = length e.name % 2 ^ 16 in
    type_code e.file_type ∷ bit_and name_len 0xFF ∷ (name_len / 2 ^ 8) ∷ e.name

-- The `while` loop over the entries from `*position` on, with `offset` bytes written: the bytes
-- that it goes on to write, and by how much it advances `*position`.
unfoldable pub fill : ℕ → ℕ → List DirEntry → Bytes × ℕ
fill buf_len offset [] = ([], 0)
fill buf_len offset (e ∷ es) =
    let entry_size = 1 + 2 + length e.name in
    let (rest, n) = fill buf_len (offset + entry_size) es in
    if ltb buf_len (offset + entry_size) then ([], 0) else (record_bytes e ++ rest, n + 1)

-- The closure under SYS_GETDENTS: the bytes written, and the file with its new position. The
-- system call returns the number of bytes, or 0 for an error.
unfoldable pub getdents : {H : Type 0} → FdKind H → ℕ → VfsResult (Bytes × FdKind H)
getdents (FdKind.directory path entries position) buf_len =
    let (out, n) = fill buf_len 0 (drop position entries) in
    ok (out, FdKind.directory path entries (position + n))
getdents _ buf_len = err not_a_directory

-- `DirEntry` of vlib: the name is `name[..name_len]`.
pub record UserEntry : Type 0 where
  pub file_type : ℕ
  pub name_len : ℕ
  pub name : Bytes

abbrev pub is_dir : UserEntry → Bool
is_dir e = e.file_type == 2

pub record DirEntryIter : Type 0 where
  pub buf : Bytes
  pub offset : ℕ

-- `DirEntryIter::next`: the entry, and the iterator that it leaves.
unfoldable pub next : DirEntryIter → Option UserEntry × DirEntryIter
next it =
    let at = it.offset in
    let name_len = bit_or (get_or it.buf (at + 1) 0) (get_or it.buf (at + 2) 0 * 2 ^ 8) in
    if ltb (length it.buf) (at + 3)
    then (none, it)
    else if ltb (length it.buf) (at + 3 + name_len) || ltb 256 name_len
    then (none, record it { offset = at + 3 })
    else (
      some (record {
        file_type = get_or it.buf at 0;
        name_len = name_len;
        name = take name_len (drop (at + 3) it.buf);
      }),
      record it { offset = at + 3 + name_len },
    )

-- A `for` loop over the iterator, with fuel.
unfoldable pub collect : ℕ → DirEntryIter → List UserEntry
collect zero it = []
collect (suc fuel) it = elim (next it).0 [ none ↦ [] | some e ↦ e ∷ collect fuel (next it).1 ]

-- `DirEntryIter::new(&buf, len)`
abbrev pub iter : Bytes → ℕ → DirEntryIter
iter buf len = record { buf = take len buf; offset = 0 }

-- The loop of `ls` and `ps` over a directory, with fuel: the entries that the calls hand over,
-- until one returns no bytes. `buf` is what the user's buffer held before.
unfoldable pub list_all : {H : Type 0} → ℕ → ℕ → Bytes → FdKind H → List UserEntry
list_all zero buf_len buf f = []
list_all (suc fuel) buf_len buf f = elim (getdents f buf_len) [
  | ok (out, f') ↦
      (let rest = list_all fuel buf_len buf f' in
        if length out == 0
        then []
        else collect (length out) (iter (out ++ drop (length out) buf) (length out)) ++ rest)
  | _ ↦ []
]
