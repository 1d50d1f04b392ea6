-- ===== src/Vfs/Mounts.antt =====
-- `struct Vfs` of vcore/src/vfs/mod.rs: the mounted file systems. `F` stands for
-- `Box<dyn Filesystem>`, with whatever state is behind its lock.
pub mod Order
pub mod Resolve
pub mod Dispatch
pub mod Slices
pub mod Cuts
mod Examples
use vyper.Prelude.{
  ℕ, zero, suc, ◌<◌, Bool, true, false, not, ◌&&◌, ◌||◌, Option, none, some, List, [], ◌∷◌, ◌++◌,
  ◌==◌, ltb, leb, if◌then◌else◌, Bytes, bytes_eq, Result, ok, err, panic, ◌>>=◌, ok_or, length,
  drop, erase_idx, set, get_elem?, is_ok,
}
use vyper.Vfs.Types.{VfsResult, VfsError, already_exists, not_found, Metadata, DirEntry, OpenFlags}
use vyper.Vfs.FilePath.{slash, normalize_path, starts_with_slash}

pub record Mount (F : Type 0) : Type 0 where
  pub path : Bytes
  pub fs : F

-- `struct Vfs { mounts }`
abbrev pub Vfs : Type 0 → Type 0
Vfs F = List (Mount F)

-- `str::is_char_boundary`, of what is left of a text
abbrev pub at_boundary : Bytes → Bool
at_boundary [] = true
at_boundary (c ∷ cs) = ltb c 128 || leb 192 c

-- `str::starts_with`
abbrev pub starts_with : Bytes → Bytes → Bool
starts_with path [] = true
starts_with [] (c ∷ cs) = false
starts_with (d ∷ path) (c ∷ cs) = (d == c) && starts_with path cs

module _ {F : Type 0} where
  unfoldable pub is_mounted : Bytes → Vfs F → Bool
  is_mounted path [] = false
  is_mounted path (m ∷ ms) = bytes_eq m.path path || is_mounted path ms

  -- `sort_by` on the lengths of the paths, longest first; it is stable, and so is this.
  unfoldable pub insert_sorted : Mount F → Vfs F → Vfs F
  insert_sorted m [] = m ∷ []
  insert_sorted m (n ∷ ms) =
      let rest = insert_sorted m ms in
      if ltb (length m.path) (length n.path) then n ∷ rest else m ∷ n ∷ ms

  unfoldable pub sort_mounts : Vfs F → Vfs F
  sort_mounts [] = []
  sort_mounts (m ∷ ms) = insert_sorted m (sort_mounts ms)

  unfoldable pub mount : Vfs F → Bytes → F → VfsResult (Unit {0}) × Vfs F
  mount ms path fs =
      let at = normalize_path path in
      if is_mounted at ms
      then (err already_exists, ms)
      else (ok tt, sort_mounts (ms ++ (record { path = at; fs = fs } ∷ [])))

  -- `iter().position`
  unfoldable pub position : Bytes → Vfs F → Option ℕ
  position path [] = none
  position path (m ∷ ms) =
      if bytes_eq m.path path
      then some 0
      else elim (position path ms) [ none ↦ none | some i ↦ some (suc i) ]

  unfoldable pub unmount : Vfs F → Bytes → VfsResult (Unit {0}) × Vfs F
  unmount ms path = elim (position (normalize_path path) ms) [
    | none ↦ (err not_found, ms)
    | some i ↦ (ok tt, erase_idx ms i)
  ]

  -- One round of the loop of `resolve`: the path below the mount, or `none` for `continue`.
  unfoldable pub relative_to : Bytes → Mount F → Option Bytes
  relative_to path m =
      if bytes_eq m.path (slash ∷ [])
      then some path
      else if bytes_eq path m.path
      then some (slash ∷ [])
      else if starts_with path m.path
      then (let rest = drop (length m.path) path in
          if bytes_eq rest [] || bytes_eq rest (slash ∷ [])
          then some (slash ∷ [])
          else if starts_with_slash rest
          then some rest
          else none)
      else none

  -- The index of the mount that serves a path, and the path below it.
  unfoldable pub resolve_in : Bytes → Vfs F → VfsResult (ℕ × Bytes)
  resolve_in path [] = err not_found
  resolve_in path (m ∷ ms) =
      let rest = resolve_in path ms in
      elim (relative_to path m) [
        | some relative ↦ ok (0, relative)
        | none ↦ (rest >>= λ r. ok (suc r.0, r.1))
      ]

  unfoldable pub resolve : Vfs F → Bytes → VfsResult (ℕ × Bytes)
  resolve ms path = resolve_in (normalize_path path) ms

  -- `open`, `mkdir`, `remove`, `rmdir`, `readdir` and `metadata` each call the method of the same
  -- name on the file system that serves the path: `method` is that one.
  unfoldable pub dispatch :
      {A : Type 0} → Vfs F → Bytes → (F → Bytes → VfsResult A × F) → VfsResult A × Vfs F
  dispatch ms path method = elim (resolve ms path) [
    | ok (i, relative) ↦ elim (get_elem? ms i) [
      | some m ↦ (let (r, fs') = method m.fs relative in (r, set ms i (record m { fs = fs' })))
      | none ↦ (panic, ms)
    ]
    | err e ↦ (err e, ms)
    | _ ↦ (panic, ms)
  ]

  -- Whether the slice `&path[mount.path.len()..]` of a round is at the start of a character: bytes
  -- 128 to 191 are inside of one.
  abbrev pub in_one_piece : Bytes → Mount F → Bool
  in_one_piece path m =
      bytes_eq m.path (slash ∷ [])
      || bytes_eq path m.path
      || not (starts_with path m.path)
      || at_boundary (drop (length m.path) path)

  -- Whether the loop of `resolve` ends with no panic: it has a `str`, but a system call makes one of
  -- bytes with no check.
  unfoldable pub slices_at : Bytes → Vfs F → Bool
  slices_at path [] = true
  slices_at path (m ∷ ms) =
      let rest = slices_at path ms in
      in_one_piece path m && elim (relative_to path m) [ some relative ↦ true | none ↦ rest ]

  -- `dispatch`, on bytes that need not be a text.
  unfoldable pub dispatch_bytes :
      {A : Type 0} → Vfs F → Bytes → (F → Bytes → VfsResult A × F) → VfsResult A × Vfs F
  dispatch_bytes ms path method =
      if slices_at (normalize_path path) ms then dispatch ms path method else (panic, ms)

  -- `exists` asks the default method of the trait, through `metadata`.
  unfoldable pub exists : Vfs F → Bytes → (F → Bytes → VfsResult Metadata × F) → Bool
  exists ms path metadata = is_ok (dispatch ms path metadata).0
