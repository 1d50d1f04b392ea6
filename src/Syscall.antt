-- ===== src/Syscall.antt =====
-- vcore/src/cpu/syscall.rs: the handler of the system calls, over the scheduler, the tables of
-- open files, the mounts, the keyboard, the terminal and the user's memory.
pub mod Memory
pub mod Input
pub mod State
pub mod Files
pub mod Arrive
pub mod Line
pub mod Tables
pub mod OpenClose
pub mod Directory
pub mod Ready
pub mod Held
pub mod Closures
pub mod Kept
pub mod Total
pub mod InMemory
mod Examples
use vyper.Prelude.{
  ℕ, ◌+◌, ◌-◌, ◌%◌, ◌^◌, Bool, ◌||◌, Option, none, some, List, [], ◌∷◌, ◌++◌, map, if◌then◌else◌,
  ◌==◌, length, take, Bytes, Result, ok, err, panic, stuck, min, set,
}
use vyper.Vfs.Types.{
  FileType, directory, Metadata, DirEntry, OpenFlags, contains, o_directory, VfsResult, VfsError,
  io_error, permission_denied,
}
use vyper.Vfs.Fd.{FdKind, FdTable, alloc, get, close, stdin, stdout, stderr}
use vyper.Vfs.FilePath.{resolve_path}
use vyper.Vfs.Mounts.{Vfs, dispatch_bytes}
use vyper.Sched.{Scheduler, exit, with_fd_table, get_cwd, set_cwd, Switch, reaped, dying}
use vyper.Sched.Task.{root_dir}
use vyper.Dents.{getdents}
use vyper.Keyboard.{Keyboard}
use Memory.{Memory as MemoryOf, load, store}
use Input.{Batches, read_stdin}
use State.{
  after_drop, Filesystem, Printed, Devices, Machine, Outcome, sys_exit, sys_write, sys_read,
  sys_open, sys_close, sys_getdents, sys_mkdir, sys_unlink, sys_rmdir, sys_chdir, sys_getcwd,
  failure, outcome, zero_of, print_bytes, char, exited_with, unknown_syscall, returned, exited,
  panicked, hung,
}
use Files.{
  with_file, write_file, read_file, list_file, close_file, drop_kind, drop_tasks, read_keyboard,
}

module _ {F H S : Type 0} where
  abbrev pub table_done :
      Machine F H S
      → VfsResult (VfsResult ℕ × Devices F) × Scheduler (FdTable H) S
      → VfsResult ℕ × Machine F H S
  table_done s (ok (value, d), sched) = (value, record { scheduler = sched; devices = d })
  table_done s (err e, sched) = (err e, record s { scheduler = sched })
  table_done s (panic, sched) = (panic, record s { scheduler = sched })
  table_done s (stuck, sched) = (stuck, record s { scheduler = sched })

module _ {F H S : Type 0} (fs : Filesystem F H) where
  -- `sched::with_fd_table` with a closure that uses the devices, which its result carries.
  unfoldable pub with_table :
      (FdTable H → Devices F → VfsResult ℕ × FdTable H × Devices F)
      → Machine F H S
      → VfsResult ℕ × Machine F H S
  with_table f s = table_done s (
      with_fd_table (λ table. let (r, table', d) = f table s.devices in (ok (r, d), table'))
        s.scheduler)

  abbrev pub answer : ℕ → VfsResult ℕ × Machine F H S → Outcome × Machine F H S
  answer default (r, s) = (outcome default r, s)

  -- A call of the virtual file system, on a path of bytes that are not checked.
  unfoldable pub on_mounts :
      {A : Type 0}
      → (F → Bytes → VfsResult A × F)
      → Bytes
      → Machine F H S
      → VfsResult A × Machine F H S
  on_mounts method path s =
      let (r, vfs') = dispatch_bytes s.devices.vfs path method in
      (r, record s { devices = record s.devices { vfs = vfs' } })

  -- The path that a call gives by its address and length, from the task's directory.
  unfoldable pub path_at : Machine F H S → ℕ → ℕ → Bytes
  path_at s ptr len =
      let cwd : Bytes = elim (get_cwd s.scheduler) [ none ↦ root_dir | some cwd ↦ cwd ] in
      resolve_path (load s.devices.memory ptr len) cwd

  unfoldable pub write : ℕ → ℕ → ℕ → Machine F H S → Outcome × Machine F H S
  write fd buf len s =
      let bytes = load s.devices.memory buf len in
      if (fd == 1) || (fd == 2)
      then (returned len, record s { devices = print_bytes bytes s.devices })
      else answer 0 (with_table (with_file fd (write_file fs fd bytes)) s)

  unfoldable pub read : ℕ → ℕ → ℕ → Machine F H S → Outcome × Machine F H S
  read fd buf len s =
      let (r, d) = read_keyboard buf len s.devices in
      if fd == 0
      then (outcome 0 r, record s { devices = d })
      else answer 0 (with_table (with_file fd (read_file fs fd buf len)) s)

  -- A file that the table does not take is dropped.
  abbrev pub refused : FdKind H → VfsResult ℕ × Machine F H S → VfsResult ℕ × Machine F H S
  refused kind (ok fd, s) = (ok fd, s)
  refused kind (err e, s) =
      let (dropped, d) = drop_kind fs kind s.devices in
      (after_drop (err e) dropped, record s { devices = d })
  refused kind (panic, s) = (panic, s)
  refused kind (stuck, s) = (stuck, s)

  abbrev pub alloc_file : FdKind H → Machine F H S → VfsResult ℕ × Machine F H S
  alloc_file kind s =
      refused kind (with_table (λ table d. let (r, table') = alloc table kind in (r, table', d)) s)

  abbrev pub alloc_opened :
      {A : Type 0} → (A → FdKind H) → VfsResult A × Machine F H S → VfsResult ℕ × Machine F H S
  alloc_opened kind (ok a, s) = alloc_file (kind a) s
  alloc_opened kind (err e, s) = (err e, s)
  alloc_opened kind (panic, s) = (panic, s)
  alloc_opened kind (stuck, s) = (stuck, s)

  unfoldable pub open_path : ℕ → ℕ → OpenFlags → Machine F H S → Outcome × Machine F H S
  open_path ptr len flags s =
      let path = path_at s ptr len in
      answer failure (
        if contains flags o_directory
        then alloc_opened (λ entries. FdKind.directory path entries 0) (on_mounts fs.readdir path s)
        else alloc_opened FdKind.file (on_mounts (fs.open_file flags) path s))

  unfoldable pub close_fd : ℕ → Machine F H S → Outcome × Machine F H S
  close_fd fd s = answer failure (with_table (close_file fs fd) s)

  unfoldable pub list_dir : ℕ → ℕ → ℕ → Machine F H S → Outcome × Machine F H S
  list_dir fd buf len s = answer 0 (with_table (with_file fd (list_file fd buf len)) s)

  -- SYS_MKDIR, SYS_UNLINK and SYS_RMDIR, each with its method.
  unfoldable pub change_path :
      (F → Bytes → VfsResult (Unit {0}) × F) → ℕ → ℕ → Machine F H S → Outcome × Machine F H S
  change_path method ptr len s =
      let (r, s') = on_mounts method (path_at s ptr len) s in (outcome failure (zero_of r), s')

  -- The arms of SYS_CHDIR.
  abbrev pub enter : Bytes → VfsResult Metadata × Machine F H S → Outcome × Machine F H S
  enter path (ok meta, s) = elim meta.file_type [
    | directory ↦
        (let (done, sched) = set_cwd path s.scheduler in
          (returned (if done then 0 else failure), record s { scheduler = sched }))
    | _ ↦ (returned failure, s)
  ]
  enter path (err e, s) = (returned failure, s)
  enter path (panic, s) = (panicked, s)
  enter path (stuck, s) = (hung, s)

  unfoldable pub change_dir : ℕ → ℕ → Machine F H S → Outcome × Machine F H S
  change_dir ptr len s = let path = path_at s ptr len in enter path (on_mounts fs.metadata path s)

  unfoldable pub current_dir : ℕ → ℕ → Machine F H S → Outcome × Machine F H S
  current_dir buf len s = elim (get_cwd s.scheduler) [
    | none ↦ (returned failure, s)
    | some cwd ↦
        (let copy_len = min (length cwd) len in
          (
            returned copy_len,
            record s {
              devices = record s.devices {
                memory = store s.devices.memory buf (take copy_len cwd);
              };
            },
          ))
  ]

  abbrev pub show : Printed → Machine F H S → Machine F H S
  show line s = record s { devices = record s.devices { screen = s.devices.screen ++ (line ∷ []) } }

  -- `sched::exit`: the dead tasks are dropped, and the processor goes to another task.
  unfoldable pub leave : ℕ → Machine F H S → Outcome × Machine F H S
  leave tick s =
      let (switch, sched) = exit tick s.scheduler in
      let (dropped, d) = drop_tasks fs (reaped (dying s.scheduler)) s.devices in
      (
        elim dropped [ panic ↦ panicked | stuck ↦ hung | _ ↦ exited switch ],
        record { scheduler = sched; devices = d },
      )

  -- `syscall_handler`, at a tick of the timer.
  unfoldable pub syscall_handler : ℕ → ℕ → ℕ → ℕ → ℕ → Machine F H S → Outcome × Machine F H S
  syscall_handler tick num arg1 arg2 arg3 s =
      if num == sys_exit
      then leave tick (show (exited_with arg1) s)
      else if num == sys_write
      then write arg1 arg2 arg3 s
      else if num == sys_read
      then read arg1 arg2 arg3 s
      else if num == sys_open
      then open_path arg1 arg2 (arg3 % 2 ^ 32) s
      else if num == sys_close
      then close_fd arg1 s
      else if num == sys_getdents
      then list_dir arg1 arg2 arg3 s
      else if num == sys_mkdir
      then change_path fs.mkdir arg1 arg2 s
      else if num == sys_unlink
      then change_path fs.remove arg1 arg2 s
      else if num == sys_rmdir
      then change_path fs.rmdir arg1 arg2 s
      else if num == sys_chdir
      then change_dir arg1 arg2 s
      else if num == sys_getcwd
      then current_dir arg1 arg2 s
      else (returned failure, show (unknown_syscall num) s)
