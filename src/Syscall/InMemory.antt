-- ===== src/Syscall/InMemory.antt =====
-- `TmpFs` of vcore/src/vfs/tmpfs.rs as a `Filesystem` and its handles as `FileHandle`s: what the
-- system calls of vcore/src/cpu/syscall.rs rely on holds of it. A handle names its file system by a
-- number, which stands for the pointer that the source keeps in it.
use vyper.Prelude.{
  ℕ, zero, suc, ◌≡◌, ◌≤◌, ◌⊎◌, refl, ◌==◌, false, ok, err, panic, stuck, arith, inl, inr, Bytes,
  List, [], ◌∷◌, length, if◌then◌else◌, Option-cases,
}
use mathlib.Core.Option.{some-injective}
use mathlib.Core.Path.{subst}
use vyper.Vfs.Types.{VfsResult, VfsError, OpenFlags, contains, o_append}
use vyper.Vfs.Mounts.{Mount, Vfs}
use vyper.Vfs.Mounts.Order.{IsValid, AtMost, Absent}
use vyper.Vfs.Mounts.Slices.{Each, EndsAscii}
use vyper.Vfs.Cursor.Laws.{read_at_lem, write_at_lem}
use vyper.Vfs.TmpFs.{parent_dir, mkdir, remove_file, rmdir, create, open_file, readdir, metadata}
use vyper.Vfs.TmpFs.Tree.{Node, Entries, file, directory, get}
use vyper.Vfs.TmpFs.Nodes.{as_dir, navigate, navigate_to_parent, path_parts, parent_of}
use vyper.Vfs.TmpFs.Handle.{TmpFileHandle, read, write}
use vyper.Syscall.State.{Filesystem}
use vyper.Syscall.Ready.{Meets, Ends, Housed, Answers}

pub record TmpMount : Type 0 where
  pub id : ℕ
  pub root : Node

abbrev pub TmpHandle : Type 0
TmpHandle = ℕ × TmpFileHandle

-- The root behind the pointer, and a write to it.
abbrev root_of : ℕ → Vfs TmpMount → Node
root_of id [] = directory Entries.nil
root_of id (m ∷ ms) = if m.fs.id == id then m.fs.root else root_of id ms

abbrev put_root : ℕ → Node → Vfs TmpMount → Vfs TmpMount
put_root id root [] = []
put_root id root (m ∷ ms) =
    record m { fs = if m.fs.id == id then record m.fs { root = root } else m.fs }
    ∷ put_root id root ms

abbrev opens_as : ℕ → VfsResult TmpFileHandle → VfsResult TmpHandle
opens_as id (ok h) = ok (id, h)
opens_as id (err e) = err e
opens_as id panic = panic
opens_as id stuck = stuck

abbrev copied : VfsResult Bytes → VfsResult ℕ × Bytes
copied (ok bytes) = (ok (length bytes), bytes)
copied (err e) = (err e, [])
copied panic = (panic, [])
copied stuck = (stuck, [])

abbrev pub tmp_files : Filesystem TmpMount TmpHandle
tmp_files = record {
  open_file = λ flags f path.
      let (r, root') = open_file f.root path flags in (opens_as f.id r, record f { root = root' });
  mkdir = λ f path. let (r, root') = mkdir f.root path in (r, record f { root = root' });
  remove = λ f path. let (r, root') = remove_file f.root path in (r, record f { root = root' });
  rmdir = λ f path. let (r, root') = rmdir f.root path in (r, record f { root = root' });
  readdir = λ f path. (readdir f.root path, f);
  metadata = λ f path. (metadata f.root path, f);
  read = λ h n ms. let (r, h') = read h.1 n in (copied r, (h.0, h'), ms);
  write = λ h bytes ms.
      let (r, h', root') = write h.1 (root_of h.0 ms) bytes in
      (r, (h.0, h'), put_root h.0 root' ms);
  release = λ h ms. (ok tt, ms);
}

-- The handles that the calls make stand within their content: nothing seeks past its end.
abbrev pub Within : TmpHandle → Type 0
Within (id, h) = h.position ≤ length h.content

navigate-Ends : (n : Node) (ps : List Bytes) → Ends false (navigate n ps)
unfolding navigate as_dir
navigate-Ends n [] = tt
navigate-Ends (file content) (p ∷ ps) = tt
navigate-Ends (directory es) (p ∷ ps) = elim (Option-cases (get p es)) [
  | inl e ↦ rw (e, navigate) tt
  | inr (n, e) ↦ rw (e, navigate) (navigate-Ends n ps)
]

parent_dir-Ends : (root : Node) (parts : List Bytes) → Ends false (parent_dir root parts)
unfolding parent_dir navigate_to_parent as_dir
parent_dir-Ends root [] = tt
parent_dir-Ends root (p ∷ ps) =
    go (navigate root (parent_of (p ∷ ps))) refl (navigate-Ends root (parent_of (p ∷ ps)))
  where
    go :
        (r : VfsResult Node)
        → navigate root (parent_of (p ∷ ps)) ≡ r
        → Ends false r
        → Ends false (parent_dir root (p ∷ ps))
    go (ok (file c)) e h = rw (e, parent_dir, navigate_to_parent) tt
    go (ok (directory es)) e h = rw (e, parent_dir, navigate_to_parent) tt
    go (err x) e h = rw (e, parent_dir, navigate_to_parent) tt
    go panic e h = elim h [ ]
    go stuck e h = absurd (cc h)

settled :
    {A : Type 0} (r : VfsResult A)
    → Ends false r
    → ((a : A) × (r ≡ ok a)) ⊎ ((e : VfsError) × (r ≡ err e))
settled (ok a) h = inl (a, refl)
settled (err e) h = inr (e, refl)
settled panic h = elim h [ ]
settled stuck h = absurd (cc h)

mkdir-Ends : (root : Node) (path : Bytes) → Ends false (mkdir root path).0
unfolding mkdir
mkdir-Ends root path = elim (settled _ (parent_dir-Ends root (path_parts path))) [
  | inl (d, e) ↦ ground arith
  | inr (x, e) ↦ ground arith
]

remove_file-Ends : (root : Node) (path : Bytes) → Ends false (remove_file root path).0
unfolding remove_file
remove_file-Ends root path = elim (settled _ (parent_dir-Ends root (path_parts path))) [
  | inl (d, e) ↦ ground arith
  | inr (x, e) ↦ ground arith
]

rmdir-Ends : (root : Node) (path : Bytes) → Ends false (rmdir root path).0
unfolding rmdir
rmdir-Ends root path = elim (settled _ (parent_dir-Ends root (path_parts path))) [
  | inl (d, e) ↦ ground arith
  | inr (x, e) ↦ ground arith
]

readdir-Ends : (root : Node) (path : Bytes) → Ends false (readdir root path)
unfolding readdir
readdir-Ends root path = elim (settled _ (navigate-Ends root (path_parts path))) [
  | inl (n, e) ↦ ground arith
  | inr (x, e) ↦ ground arith
]

metadata-Ends : (root : Node) (path : Bytes) → Ends false (metadata root path)
unfolding metadata
metadata-Ends root path = elim (settled _ (navigate-Ends root (path_parts path))) [
  | inl (n, e) ↦ ground arith
  | inr (x, e) ↦ ground arith
]

-- A handle fresh from `open`.
open_file-Ends :
    (id : ℕ) (root : Node) (path : Bytes) (flags : OpenFlags)
    → Meets false Within (opens_as id (open_file root path flags).0)
unfolding open_file create
open_file-Ends id root path flags = elim (settled _ (navigate-Ends root (path_parts path))) [
  | inl (file c, e) ↦ ground arith
  | inl (directory es, e) ↦ ground arith
  | inr (x, e) ↦ elim (settled _ (parent_dir-Ends root (path_parts path))) [
    | inl (d, k) ↦ ground arith
    | inr (y, k) ↦ ground arith
  ]
]

read-Within :
    (id : ℕ) (h : TmpFileHandle) (n : ℕ)
    → Within (id, h)
    → Ends false (copied (read h n).0).0 × Within (id, (read h n).1)
unfolding read
read-Within id h n within = elim (read_at_lem h.content h.position n) [
  | inl (in_range, e) ↦ ground arith
  | inr (past, e) ↦ absurd (omega arith)
]

write-Within :
    (id : ℕ) (h : TmpFileHandle) (root : Node) (bytes : Bytes)
    → Within (id, h)
    → Ends false (write h root bytes).0 × Within (id, (write h root bytes).1)
unfolding write
write-Within id h root bytes within =
    let at = if contains h.flags o_append then length h.content else h.position in
    let (after, e, sized, same) = write_at_lem h.content at bytes in ground arith

-- A write to a root keeps the paths of the mounts.
put_root-AtMost :
    (n id : ℕ) (root : Node) (ms : Vfs TmpMount) → AtMost n ms → AtMost n (put_root id root ms)
put_root-AtMost n id root [] h = tt
put_root-AtMost n id root (m ∷ ms) h = (h.0, put_root-AtMost n id root ms h.1)

put_root-Absent :
    (p : Bytes) (id : ℕ) (root : Node) (ms : Vfs TmpMount)
    → Absent p ms
    → Absent p (put_root id root ms)
put_root-Absent p id root [] h = tt
put_root-Absent p id root (m ∷ ms) h = (h.0, put_root-Absent p id root ms h.1)

put_root-IsValid :
    (id : ℕ) (root : Node) (ms : Vfs TmpMount) → IsValid ms → IsValid (put_root id root ms)
put_root-IsValid id root [] v = tt
put_root-IsValid id root (m ∷ ms) v = (
  put_root-AtMost (length m.path) id root ms v.0,
  put_root-Absent m.path id root ms v.1,
  put_root-IsValid id root ms v.2,
)

put_root-EndsAscii :
    (id : ℕ) (root : Node) (ms : Vfs TmpMount)
    → Each (λ m. EndsAscii m.path) ms
    → Each (λ m. EndsAscii m.path) (put_root id root ms)
put_root-EndsAscii id root [] h j n e = cc
put_root-EndsAscii id root (m ∷ ms) h zero n e =
    subst (λ (k : Mount TmpMount). EndsAscii k.path) (some-injective _ n e) (h 0 m refl)
put_root-EndsAscii id root (m ∷ ms) h (suc j) n e =
    put_root-EndsAscii id root ms (λ i k at. h (suc i) k at) j n e

-- Every state of the file system will do.
abbrev pub AnyTree : TmpMount → Type 0
AnyTree f = Unit

put_root-Housed :
    (id : ℕ) (root : Node) (ms : Vfs TmpMount)
    → Housed AnyTree ms
    → Housed AnyTree (put_root id root ms)
put_root-Housed id root ms v = record {
  sorted = put_root-IsValid id root ms v.sorted;
  paths = put_root-EndsAscii id root ms v.paths;
  good = λ j m e. tt;
}

-- The file system in memory keeps what the system calls rely on: every method returns from every
-- tree, so does every method of a handle that stands within its content, a file that is opened
-- stands there, and reads and writes keep it there and the mounts in order.
pub tmp_files-Answers : Answers tmp_files AnyTree Within
tmp_files-Answers = record {
  opens = λ flags f path good. (open_file-Ends f.id f.root path flags, tt);
  makes = λ f path good. (mkdir-Ends f.root path, tt);
  removes = λ f path good. (remove_file-Ends f.root path, tt);
  removes_dir = λ f path good. (rmdir-Ends f.root path, tt);
  lists = λ f path good. (readdir-Ends f.root path, tt);
  describes = λ f path good. (metadata-Ends f.root path, tt);
  reads = λ h n ms held housed.
      let (ends, within) = read-Within h.0 h.1 n held in (ends, within, housed);
  writes = λ h bytes ms held housed.
      let (ends, within) = write-Within h.0 h.1 (root_of h.0 ms) bytes held in
      (ends, within, put_root-Housed h.0 _ ms housed);
  releases = λ h ms held housed. (tt, housed);
}
