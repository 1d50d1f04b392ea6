-- ===== src/Syscall/Closures.antt =====
-- The closures of the system calls of vcore/src/cpu/syscall.rs on a valid table of open files.
use vyper.Prelude.{refl, ℕ, Bool, true, false, ok, err, panic, stuck, inl, inr, Bytes}
use vyper.Vfs.Types.{VfsResult}
use vyper.Vfs.Fd.{FdTable, FdKind, close}
use vyper.Vfs.Fd.Back.{get_cases}
use vyper.Dents.{getdents}
use vyper.Syscall.Files.{with_file, write_file, read_file, list_file, read_keyboard}
use vyper.Syscall.Line.{read_stdin_lem}
use vyper.Syscall.State.{Filesystem, Devices}
use vyper.Syscall.Ready.{Meets, Ends, Answers, HeldKind, Tidy, Sound, weaken, after_drop-Ends}
use vyper.Syscall.Held.{AllHeld-get, set-Tidy, close-Tidy}
use vyper.Syscall.Files.{drop_kind, closed, close_file}

pub read_keyboard-Sound :
    {F : Type 0} {Good : F → Type 0} (buf len : ℕ) (d : Devices F)
    → Sound Good d
    → Ends true (read_keyboard buf len d).0 × Sound Good (read_keyboard buf len d).1
unfolding read_keyboard
read_keyboard-Sound buf len d sound = elim (read_stdin_lem len d.keyboard d.batches sound.keys) [
  | inl (silent, e) ↦ rw (e, read_keyboard) (refl, sound)
  | inr (at, later, first, line, kb', rest, e, r) ↦
      rw (e, read_keyboard) (tt, record { housed = sound.housed; keys = r.valid })
]

module _ {F H : Type 0} (Good : F → Type 0) (Held : H → Type 0) where
  -- A closure ends, and leaves the table and the devices as they should be.
  abbrev pub Keeps : Bool → (FdTable H → Devices F → VfsResult ℕ × FdTable H × Devices F) → Type 0
  Keeps waits f =
      (table : FdTable H) (d : Devices F)
      → Tidy Held table
      → Sound Good d
      → Ends waits (f table d).0 × Tidy Held (f table d).1 × Sound Good (f table d).2

  pub with_file-Keeps :
      (waits : Bool) (fd : ℕ)
      (g : FdTable H → Devices F → FdKind H → VfsResult ℕ × FdTable H × Devices F)
      → ((kind : FdKind H) → HeldKind Held kind → Keeps waits (λ table d. g table d kind))
      → Keeps waits (with_file fd g)
  with_file-Keeps waits fd g h table d t sound = elim (get_cases table fd t.valid) [
    | inl (kind, e, at) ↦
        rw (e, with_file) (h kind (AllHeld-get Held table fd kind at t.held) table d t sound)
    | inr e ↦ rw (e, with_file) (tt, t, sound)
  ]

  pub list_file-Keeps :
      (fd buf len : ℕ) (kind : FdKind H)
      → HeldKind Held kind
      → Keeps false (λ table d. list_file fd buf len table d kind)
  unfolding getdents
  list_file-Keeps fd buf len (FdKind.directory path entries position) k table d t sound =
      (tt, set-Tidy Held table fd _ tt t, record { housed = sound.housed; keys = sound.keys })
  list_file-Keeps fd buf len (FdKind.file handle) k table d t sound = (tt, t, sound)
  list_file-Keeps fd buf len FdKind.stdin k table d t sound = (tt, t, sound)
  list_file-Keeps fd buf len FdKind.stdout k table d t sound = (tt, t, sound)
  list_file-Keeps fd buf len FdKind.stderr k table d t sound = (tt, t, sound)

module _ {F H : Type 0} (fs : Filesystem F H) {Good : F → Type 0} {Held : H → Type 0}
    (answers : Answers fs Good Held) where
  pub write_file-Keeps :
      (fd : ℕ) (bytes : Bytes) (kind : FdKind H)
      → HeldKind Held kind
      → Keeps Good Held false (λ table d. write_file fs fd bytes table d kind)
  write_file-Keeps fd bytes (FdKind.file handle) k table d t sound =
      let (ends, held, housed) = answers.writes handle bytes d.vfs k sound.housed in
      (ends, set-Tidy Held table fd _ held t, record { housed = housed; keys = sound.keys })
  write_file-Keeps fd bytes FdKind.stdout k table d t sound =
      (tt, t, record { housed = sound.housed; keys = sound.keys })
  write_file-Keeps fd bytes FdKind.stderr k table d t sound =
      (tt, t, record { housed = sound.housed; keys = sound.keys })
  write_file-Keeps fd bytes FdKind.stdin k table d t sound = (tt, t, sound)
  write_file-Keeps fd bytes (FdKind.directory path entries position) k table d t sound =
      (tt, t, sound)

  pub read_file-Keeps :
      (fd buf len : ℕ) (kind : FdKind H)
      → HeldKind Held kind
      → Keeps Good Held true (λ table d. read_file fs fd buf len table d kind)
  read_file-Keeps fd buf len (FdKind.file handle) k table d t sound =
      let (ends, held, housed) = answers.reads handle len d.vfs k sound.housed in
      (
        weaken true (fs.read handle len d.vfs).0.0 ends,
        set-Tidy Held table fd _ held t,
        record { housed = housed; keys = sound.keys },
      )
  read_file-Keeps fd buf len FdKind.stdin k table d t sound =
      let (ends, after) = read_keyboard-Sound buf len d sound in (ends, t, after)
  read_file-Keeps fd buf len FdKind.stdout k table d t sound = (tt, t, sound)
  read_file-Keeps fd buf len FdKind.stderr k table d t sound = (tt, t, sound)
  read_file-Keeps fd buf len (FdKind.directory path entries position) k table d t sound =
      (tt, t, sound)

  pub drop_kind-Sound :
      (kind : FdKind H) (d : Devices F)
      → HeldKind Held kind
      → Sound Good d
      → Ends false (drop_kind fs kind d).0 × Sound Good (drop_kind fs kind d).1
  unfolding drop_kind
  drop_kind-Sound (FdKind.file handle) d k sound =
      let (ends, housed) = answers.releases handle d.vfs k sound.housed in
      (ends, record { housed = housed; keys = sound.keys })
  drop_kind-Sound (FdKind.directory path entries position) d k sound = (tt, sound)
  drop_kind-Sound FdKind.stdin d k sound = (tt, sound)
  drop_kind-Sound FdKind.stdout d k sound = (tt, sound)
  drop_kind-Sound FdKind.stderr d k sound = (tt, sound)

  closed-Sound :
      (c : VfsResult (FdKind H) × FdTable H) (d : Devices F)
      → Meets false (HeldKind Held) c.0 × Tidy Held c.1
      → Sound Good d
      → Ends false (closed fs c d).0 × Tidy Held (closed fs c d).1 × Sound Good (closed fs c d).2
  closed-Sound (ok kind, table) d (k, t) sound =
      let (ends, after) = drop_kind-Sound kind d k sound in
      (after_drop-Ends (ok 0) (drop_kind fs kind d).0 tt ends, t, after)
  closed-Sound (err e, table) d (k, t) sound = (tt, t, sound)
  closed-Sound (panic, table) d (k, t) sound = (k, t, sound)
  closed-Sound (stuck, table) d (k, t) sound = (k, t, sound)

  pub close_file-Keeps : (fd : ℕ) → Keeps Good Held false (close_file fs fd)
  close_file-Keeps fd table d t sound =
      closed-Sound (close table fd) d (close-Tidy Held table fd t) sound
