-- ===== src/Vfs/Types.antt =====
-- vcore/src/vfs/types.rs: what the file systems and their clients share.
use Prim.Native.Nat.{bit_and, bit_or}
use vyper.Prelude.{
  ℕ, ◌+◌, ◌-◌, ◌^◌, Bool, ◌||◌, Option, none, some, ◌==◌, ltb, if◌then◌else◌, Bytes, Result,
}

pub data FileType : Type 0 where
  file directory device : FileType

pub record Metadata : Type 0 where
  pub file_type : FileType
  pub size : ℕ

pub record DirEntry : Type 0 where
  pub name : Bytes
  pub file_type : FileType

-- `isize` offsets: `fwd n` is n, `back n` is -(n + 1).
pub data Offset : Type 0 where
  fwd : ℕ → Offset
  back : ℕ → Offset

pub data SeekFrom : Type 0 where
  start : ℕ → SeekFrom
  current : Offset → SeekFrom
  from_end : Offset → SeekFrom

-- `OpenFlags` is its `u32`.
abbrev pub OpenFlags : Type 0
OpenFlags = ℕ

abbrev pub o_rdonly : OpenFlags
o_rdonly = 0

abbrev pub o_wronly : OpenFlags
o_wronly = 1

abbrev pub o_rdwr : OpenFlags
o_rdwr = 2

abbrev pub o_creat : OpenFlags
o_creat = 0o100

abbrev pub o_excl : OpenFlags
o_excl = 0o200

abbrev pub o_trunc : OpenFlags
o_trunc = 0o1000

abbrev pub o_append : OpenFlags
o_append = 0o2000

abbrev pub o_directory : OpenFlags
o_directory = 0o200000

unfoldable pub contains : OpenFlags → OpenFlags → Bool
contains self other = if other == 0 then bit_and self 3 == 0 else bit_and self other == other

unfoldable pub union : OpenFlags → OpenFlags → OpenFlags
union self other = bit_or self other

unfoldable pub access_mode : OpenFlags → ℕ
access_mode self = bit_and self 3

unfoldable pub is_readable : OpenFlags → Bool
is_readable self = let mode = bit_and self 3 in (mode == 0) || (mode == 2)

unfoldable pub is_writable : OpenFlags → Bool
is_writable self = let mode = bit_and self 3 in (mode == 1) || (mode == 2)

abbrev pub flags_write : OpenFlags
flags_write = 0o1101

abbrev pub flags_append : OpenFlags
flags_append = 0o2101

pub data VfsError : Type 0 where
  not_found already_exists not_a_directory is_a_directory not_empty invalid_path : VfsError
  permission_denied no_space invalid_fd not_supported io_error : VfsError

abbrev pub VfsResult {ℓ} : Type ℓ → Type ℓ
VfsResult A = Result VfsError A

abbrev pub isize_limit : ℕ
isize_limit = 2 ^ 63

-- A `usize` read as an `isize`; `none` is a negative one.
abbrev pub as_isize : ℕ → Option ℕ
as_isize n = if ltb n isize_limit then some n else none

-- `position as isize + n`, for a position and an offset below 2^63; a sum that wraps is negative.
abbrev pub add_offset : ℕ → Offset → Option ℕ
add_offset p (fwd n) = as_isize (p + n)
add_offset p (back n) = if ltb n p then some (p - (n + 1)) else none

-- `new_pos` of every `seek`, for a file of `size` bytes; `none` is a negative one.
abbrev pub seek_target : ℕ → ℕ → SeekFrom → Option ℕ
seek_target size position (start n) = as_isize n
seek_target size position (current n) = add_offset position n
seek_target size position (from_end n) = add_offset size n
