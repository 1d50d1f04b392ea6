-- ===== src/Syscall/State.antt =====
-- What the system calls of vcore/src/cpu/syscall.rs act on, and how they end.
use vyper.Prelude.{ℕ, ◌-◌, ◌^◌, Option, List, ◌++◌, map, Bytes, ok, err, panic, stuck}
use vyper.Vfs.Types.{Metadata, DirEntry, OpenFlags, VfsResult}
use vyper.Vfs.Fd.{FdTable}
use vyper.Vfs.Mounts.{Vfs}
use vyper.Sched.{Scheduler, Switch}
use vyper.Keyboard.{Keyboard}
use vyper.Syscall.Memory.{Memory as MemoryOf}
use vyper.Syscall.Input.{Batches}

-- `trait Filesystem`, of the mounted file systems `F`, and `trait FileHandle`, of the handles `H`.
-- A handle shares the state behind the locks with its file system, so its methods take all the
-- mounts. `read` returns what it put at the start of the buffer beside its result, and `release` is
-- the `Drop` of the handle, of which only a panic or a hang is told apart.
pub record Filesystem (F H : Type 0) : Type 0 where
  pub open_file : OpenFlags → F → Bytes → VfsResult H × F
  pub mkdir : F → Bytes → VfsResult (Unit {0}) × F
  pub remove : F → Bytes → VfsResult (Unit {0}) × F
  pub rmdir : F → Bytes → VfsResult (Unit {0}) × F
  pub readdir : F → Bytes → VfsResult (List DirEntry) × F
  pub metadata : F → Bytes → VfsResult Metadata × F
  pub read : H → ℕ → Vfs F → (VfsResult ℕ × Bytes) × H × Vfs F
  pub write : H → Bytes → Vfs F → VfsResult ℕ × H × Vfs F
  pub release : H → Vfs F → VfsResult (Unit {0}) × Vfs F

-- What `print!`, `info!` and `error!` put on the terminal.
pub data Printed : Type 0 where
  char : ℕ → Printed
  exited_with unknown_syscall : ℕ → Printed

-- Everything but the scheduler.
pub record Devices (F : Type 0) : Type 0 where
  pub vfs : Vfs F
  pub keyboard : Keyboard
  pub batches : Batches
  pub screen : List Printed
  pub memory : MemoryOf

pub record Machine (F H S : Type 0) : Type 0 where
  pub scheduler : Scheduler (FdTable H) S
  pub devices : Devices F

-- How a call ends: with the value in `rax`; with the task gone and the switch that the scheduler
-- makes; in a panic; or in a wait that never ends.
pub data Outcome : Type 0 where
  returned : ℕ → Outcome
  exited : Option Switch → Outcome
  panicked hung : Outcome

abbrev pub sys_exit : ℕ
sys_exit = 0

abbrev pub sys_write : ℕ
sys_write = 1

abbrev pub sys_read : ℕ
sys_read = 2

abbrev pub sys_open : ℕ
sys_open = 3

abbrev pub sys_close : ℕ
sys_close = 4

abbrev pub sys_getdents : ℕ
sys_getdents = 5

abbrev pub sys_mkdir : ℕ
sys_mkdir = 6

abbrev pub sys_unlink : ℕ
sys_unlink = 7

abbrev pub sys_rmdir : ℕ
sys_rmdir = 8

abbrev pub sys_chdir : ℕ
sys_chdir = 9

abbrev pub sys_getcwd : ℕ
sys_getcwd = 10

-- `u64::MAX`
abbrev pub failure : ℕ
failure = 2 ^ 64 - 1

-- What is in `rax`.
abbrev pub value : Outcome → ℕ
value (returned n) = n
value _ = 0

-- The value of a call from a result: `Ok` gives its number, `Err` gives `default`.
abbrev pub outcome : ℕ → VfsResult ℕ → Outcome
outcome default (ok n) = returned n
outcome default (err e) = returned default
outcome default panic = panicked
outcome default stuck = hung

-- A result once something has been dropped.
abbrev pub after_drop : {A : Type 0} → VfsResult A → VfsResult (Unit {0}) → VfsResult A
after_drop r (ok u) = r
after_drop r (err e) = r
after_drop r panic = panic
after_drop r stuck = stuck

-- `Ok(()) => 0`
abbrev pub zero_of : VfsResult (Unit {0}) → VfsResult ℕ
zero_of (ok u) = ok 0
zero_of (err e) = err e
zero_of panic = panic
zero_of stuck = stuck

-- `for i in 0..len { print!("{}", c as char) }`
abbrev pub print_bytes : {F : Type 0} → Bytes → Devices F → Devices F
print_bytes bytes d = record d { screen = d.screen ++ map char bytes }
