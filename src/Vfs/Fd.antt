-- ===== src/Vfs/Fd.antt =====
-- vcore/src/vfs/fd.rs: the table of open files of a task. `H` stands for `Box<dyn FileHandle>`.
pub mod Laws
pub mod Back
mod Examples
use vyper.Prelude.{
  ℕ, zero, suc, ◌+◌, Option, none, some, List, [], ◌∷◌, Result, ok, err, ◌>>=◌, panic, stuck, ok_or,
  or_panic, get_elem?, set, replicate, leb, ltb, if◌then◌else◌, Bytes,
}
use vyper.Vfs.Types.{DirEntry, VfsError, VfsResult, no_space, invalid_fd, permission_denied}

abbrev pub max_fds : ℕ
max_fds = 64

pub data FdKind (H : Type 0) : Type 0 where
  file : H → FdKind H
  directory : Bytes → List DirEntry → ℕ → FdKind H
  stdin stdout stderr : FdKind H

-- The array of slots.
abbrev pub FdTable : Type 0 → Type 0
FdTable H = List (Option (FdKind H))

module _ {H : Type 0} where
  unfoldable pub new : FdTable H
  new = some stdin ∷ some stdout ∷ some stderr ∷ replicate 61 none

  -- The loop of `alloc`, at slot `i` with the slots from `i` on.
  unfoldable pub first_free : ℕ → FdTable H → Option ℕ
  first_free i [] = none
  first_free i (none ∷ fds) = some i
  first_free i (some kind ∷ fds) = first_free (suc i) fds

  unfoldable pub alloc : FdTable H → FdKind H → VfsResult ℕ × FdTable H
  unfolding first_free
  alloc fds kind = elim (first_free 0 fds) [
    | none ↦ (err no_space, fds)
    | some i ↦ (ok i, set fds i (some kind))
  ]

  -- `get` and `get_mut`; the index `fds[fd]` panics out of range.
  pub get : FdTable H → ℕ → VfsResult (FdKind H)
  get fds fd =
      if leb max_fds fd then err invalid_fd else (or_panic (get_elem? fds fd) >>= ok_or invalid_fd)

  close_slot : FdTable H → ℕ → Option (Option (FdKind H)) → VfsResult (FdKind H) × FdTable H
  close_slot fds fd none = (panic, fds)
  close_slot fds fd (some none) = (err invalid_fd, fds)
  close_slot fds fd (some (some kind)) = (ok kind, set fds fd none)

  -- `ok kind` stands for `Ok(())` once the assignment of `None` has dropped `kind`: the caller runs
  -- what the drop of its handle does.
  pub close : FdTable H → ℕ → VfsResult (FdKind H) × FdTable H
  unfolding close_slot
  close fds fd =
      if leb max_fds fd
      then (err invalid_fd, fds)
      else if ltb fd 3
      then (err permission_denied, fds)
      else close_slot fds fd (get_elem? fds fd)
