-- ===== src/Syscall/Files.antt =====
-- The closures that the system calls of vcore/src/cpu/syscall.rs run on a table of open files.
use vyper.Sched.Task.{Task}
use vyper.Prelude.{none, List, [], ◌∷◌, ℕ, none, some, length, Bytes, ok, err, panic, stuck, set}
use vyper.Vfs.Types.{VfsResult, permission_denied}
use vyper.Vfs.Fd.{FdKind, FdTable, get, close}
use vyper.Dents.{getdents}
use vyper.Syscall.Memory.{store}
use vyper.Syscall.Input.{read_stdin}
use vyper.Syscall.State.{after_drop, Filesystem, Devices, print_bytes}

-- The wait for a key and the loop that follows it.
unfoldable pub read_keyboard : {F : Type 0} → ℕ → ℕ → Devices F → VfsResult ℕ × Devices F
read_keyboard buf len d = elim (read_stdin len d.keyboard d.batches) [
  | none ↦ (stuck, d)
  | some (line, kb, later) ↦ (
    ok (length line),
    record d { keyboard = kb; batches = later; memory = store d.memory buf line },
  )
]

module _ {F H : Type 0} where
  -- A closure on the file of a descriptor: `table.get_mut(fd)?`.
  abbrev pub with_file :
      ℕ
      → (FdTable H → Devices F → FdKind H → VfsResult ℕ × FdTable H × Devices F)
      → FdTable H
      → Devices F
      → VfsResult ℕ × FdTable H × Devices F
  with_file fd f table d = elim (get table fd) [
    | ok kind ↦ f table d kind
    | err e ↦ (err e, table, d)
    | panic ↦ (panic, table, d)
    | stuck ↦ (stuck, table, d)
  ]

  -- The closure of SYS_GETDENTS.
  abbrev pub list_file :
      ℕ → ℕ → ℕ → FdTable H → Devices F → FdKind H → VfsResult ℕ × FdTable H × Devices F
  list_file fd buf len table d kind = elim (getdents kind len) [
    | ok (out, kind') ↦
        (ok (length out), set table fd (some kind'), record d { memory = store d.memory buf out })
    | err e ↦ (err e, table, d)
    | panic ↦ (panic, table, d)
    | stuck ↦ (stuck, table, d)
  ]

module _ {F H : Type 0} (fs : Filesystem F H) where
  -- The closure of SYS_WRITE, of the file of the descriptor.
  abbrev pub write_file :
      ℕ → Bytes → FdTable H → Devices F → FdKind H → VfsResult ℕ × FdTable H × Devices F
  write_file fd bytes table d (FdKind.file handle) =
      let (r, handle', vfs') = fs.write handle bytes d.vfs in
      (r, set table fd (some (FdKind.file handle')), record d { vfs = vfs' })
  write_file fd bytes table d FdKind.stdout = (ok (length bytes), table, print_bytes bytes d)
  write_file fd bytes table d FdKind.stderr = (ok (length bytes), table, print_bytes bytes d)
  write_file fd bytes table d _ = (err permission_denied, table, d)

  -- The closure of SYS_READ.
  abbrev pub read_file :
      ℕ → ℕ → ℕ → FdTable H → Devices F → FdKind H → VfsResult ℕ × FdTable H × Devices F
  read_file fd buf len table d (FdKind.file handle) =
      let ((r, bytes), handle', vfs') = fs.read handle len d.vfs in
      (
        r,
        set table fd (some (FdKind.file handle')),
        record d { vfs = vfs'; memory = store d.memory buf bytes },
      )
  read_file fd buf len table d FdKind.stdin =
      let (r, d') = read_keyboard buf len d in (r, table, d')
  read_file fd buf len table d _ = (err permission_denied, table, d)

  -- What the drop of a file of a table does.
  unfoldable pub drop_kind : FdKind H → Devices F → VfsResult (Unit {0}) × Devices F
  drop_kind (FdKind.file handle) d =
      let (r, vfs') = fs.release handle d.vfs in (r, record d { vfs = vfs' })
  drop_kind _ d = (ok tt, d)

  -- The closure of SYS_CLOSE, with what `close` took out.
  abbrev pub closed :
      VfsResult (FdKind H) × FdTable H → Devices F → VfsResult ℕ × FdTable H × Devices F
  closed (ok kind, table) d =
      let (dropped, d') = drop_kind kind d in (after_drop (ok 0) dropped, table, d')
  closed (err e, table) d = (err e, table, d)
  closed (panic, table) d = (panic, table, d)
  closed (stuck, table) d = (stuck, table, d)

  abbrev pub close_file : ℕ → FdTable H → Devices F → VfsResult ℕ × FdTable H × Devices F
  close_file fd table d = closed (close table fd) d

  -- The drops of the files of a table, and of the tables of some tasks.
  unfoldable pub drop_table : FdTable H → Devices F → VfsResult (Unit {0}) × Devices F
  drop_table [] d = (ok tt, d)
  drop_table (none ∷ fds) d = drop_table fds d
  drop_table (some kind ∷ fds) d =
      let (r, d') = drop_kind kind d in
      elim r [ panic ↦ (panic, d') | stuck ↦ (stuck, d') | _ ↦ drop_table fds d' ]

  unfoldable pub drop_tasks :
      {S : Type 0} → List (Task (FdTable H) S) → Devices F → VfsResult (Unit {0}) × Devices F
  drop_tasks [] d = (ok tt, d)
  drop_tasks (t ∷ ts) d =
      let (r, d') = drop_table t.fds d in
      elim r [ panic ↦ (panic, d') | stuck ↦ (stuck, d') | _ ↦ drop_tasks ts d' ]
