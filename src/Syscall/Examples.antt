-- ===== src/Syscall/Examples.antt =====
-- A machine with one task at a root mount, over two file systems: one in which a file system is a
-- number, and a handle one too, which reads "abc" and counts its writes and the drops; and the
-- file system in memory.
use vyper.Prelude.{
  bytes, ℕ, zero, suc, true, map, ◌≡◌, ◌≤◌, ◌⊎◌, ◌==◌, refl, none, some, Bytes, [], ◌∷◌, ok, length,
  arith, min, take,
}
use vyper.Vfs.Types.{file, directory, o_rdwr, contains}
use vyper.Vfs.Fd.{FdTable, new, alloc, first_free}
use vyper.Vfs.Fd.Laws.{new-IsValid}
use vyper.Vfs.FilePath.{resolve_path, normalize_path, parts_from, walk, step, pop, split}
use vyper.Vfs.Mounts.{resolve, resolve_in, relative_to, dispatch, dispatch_bytes, slices_at, Mount}
use vyper.Sched.{with_fd_table, get_cwd, set_cwd}
use vyper.Sched.Task.{Task, running, user}
use vyper.Keyboard.{Keyboard}
use vyper.Keyboard.Inv.{new-IsValid as new_keyboard-IsValid}
use vyper.Keyboard.{new as new_keyboard}
use vyper.Syscall.{with_table, on_mounts, path_at, open_path, change_dir, syscall_handler}
use vyper.Syscall.Memory.{load, store}
use vyper.Syscall.Input.{Batches, read_stdin}
use vyper.Syscall.State.{
  Filesystem, Machine, returned, outcome, failure, after_drop, sys_open, sys_close, sys_chdir,
  sys_getcwd, sys_read,
}
use vyper.Syscall.Arrive.{Silent, FirstKey}
use vyper.Syscall.Line.{Reads, read_stdin_lem}
use vyper.Syscall.OpenClose.{close_fd-open_path, Opened}
use vyper.Syscall.Directory.{current_dir-change_dir, Stands}
use vyper.Syscall.Ready.{Ready, AllHeld}
use vyper.Syscall.Files.{drop_kind}
use vyper.Syscall.InMemory.{TmpMount, TmpHandle, tmp_files, tmp_files-Answers, AnyTree, Within}
use vyper.Vfs.TmpFs.Tree.{Node, Entries}
use vyper.Vfs.FilePath.Utf.{IsText}
use vyper.Vfs.Mounts.Slices.{Each, EndsAscii}
use mathlib.Core.Option.{some-injective}
use mathlib.Core.Path.{subst}
use vyper.Syscall.Kept.{Fine}
use vyper.Syscall.Total.{syscall_handler_lem, takes_path}

abbrev files : Filesystem ℕ ℕ
files = record {
  open_file = λ flags f path. (ok 7, f);
  mkdir = λ f path. (ok tt, suc f);
  remove = λ f path. (ok tt, suc f);
  rmdir = λ f path. (ok tt, suc f);
  readdir = λ f path. (ok (record { name = bytes "a"; file_type = file } ∷ []), f);
  metadata = λ f path. (ok (record { file_type = directory; size = 0 }), f);
  read = λ h n ms. ((ok (min n 3), take n (bytes "abc")), h, ms);
  write = λ h sent ms. (ok (length sent), suc h, ms);
  release =
      λ h ms. (ok tt, map (λ (m : Mount ℕ). let n : Mount ℕ = record m { fs = suc m.fs } in n) ms);
}

abbrev shell : {H : Type 0} → Task (FdTable H) ℕ
shell = record {
  id = 1;
  name = bytes "shell";
  state = running;
  mode = user;
  stack_ptr = 0;
  cr3 = 4096;
  kernel_stack_top = 0;
  wake_at = none;
  user_entry = 0;
  user_stack = 0;
  fds = new;
  cwd = bytes "/";
  address_space = none;
  stack_words = [];
}

-- The keys are an 'a' and the end of the line; the path "live/x" stands at address 100.
abbrev keys : Batches
keys = [] ∷ (0x1C ∷ []) ∷ (0x5A ∷ []) ∷ []

abbrev machine : Machine ℕ ℕ ℕ
machine = record {
  scheduler = record { tasks = shell ∷ []; current = 0 };
  devices = record {
    vfs = record { path = bytes "/"; fs = 0 } ∷ [];
    keyboard = new_keyboard;
    batches = keys;
    screen = [];
    memory = store (λ a. 0) 100 (bytes "live/x");
  };
}

-- The tree has the file /live/x.
abbrev tmp_machine : Machine TmpMount TmpHandle ℕ
tmp_machine = record {
  scheduler = record { tasks = shell ∷ []; current = 0 };
  devices = record {
    vfs =
        record {
          path = bytes "/";
          fs = record {
            id = 0;
            root = Node.directory (
                Entries.entry (bytes "live")
                  (Node.directory (Entries.entry (bytes "x") (Node.file (7 ∷ [])) Entries.nil))
                  Entries.nil);
          };
        }
        ∷ [];
    keyboard = new_keyboard;
    batches = keys;
    screen = [];
    memory = store (λ a. 0) 100 (bytes "live/x");
  };
}

new_held : AllHeld Within new
unfolding new
new_held = (tt, (tt, (tt, tt)))

tmp_machine-Ready : Ready AnyTree Within tmp_machine
tmp_machine-Ready = record {
  task = shell;
  runs = refl;
  table = record { valid = new-IsValid; held = new_held };
  stands = (λ e. refl, tt);
  devices = record {
    housed = record { sorted = (tt, tt, tt); paths = ascii; good = λ j m e. tt };
    keys = new_keyboard-IsValid;
  };
}
  where
    ascii : Each (λ m. EndsAscii m.path) tmp_machine.devices.vfs
    ascii zero m e = subst (λ (k : Mount TmpMount). EndsAscii k.path) (some-injective _ m e) refl
    ascii (suc j) m e = cc

opens_three : (syscall_handler files 0 sys_open 100 6 o_rdwr machine).0 ≡ returned 3
unfolding syscall_handler open_path on_mounts path_at with_table with_fd_table get_cwd load store
    resolve_path normalize_path parts_from walk step pop split resolve resolve_in relative_to
    dispatch dispatch_bytes slices_at new alloc first_free contains
opens_three = refl

enters : (syscall_handler files 0 sys_chdir 100 6 0 machine).0 ≡ returned 0
unfolding syscall_handler change_dir on_mounts path_at set_cwd get_cwd load store resolve_path
    normalize_path parts_from walk step pop split resolve resolve_in relative_to dispatch
    dispatch_bytes slices_at
enters = refl

-- "/live/x" fits into 16 bytes.
fits : length (resolve_path (load machine.devices.memory 100 6) (bytes "/")) ≤ 16
unfolding load store resolve_path normalize_path parts_from walk step pop split
fits = omega arith

stands_at_root : get_cwd machine.scheduler ≡ some (bytes "/")
unfolding get_cwd
stands_at_root = refl

live_x-IsText : takes_path sys_open ≡ true → IsText (load tmp_machine.devices.memory 100 6)
unfolding load store
live_x-IsText e = (λ e. refl, (λ e. refl, (λ e. refl, (λ e. refl, (λ e. refl, (λ e. refl, tt))))))

read_stdin_lem_example :
    (Silent new_keyboard keys × (read_stdin 8 new_keyboard keys ≡ none))
    ⊎ ((at : Keyboard) × (later : Batches) × FirstKey new_keyboard keys at later
        × (line : Bytes) × (kb' : Keyboard) × (rest : Batches) × (read_stdin 8 new_keyboard keys
            ≡ some (line, kb', rest))
        × Reads 8 at later line kb')
read_stdin_lem_example = read_stdin_lem 8 new_keyboard keys new_keyboard-IsValid

abbrev after_open : Machine ℕ ℕ ℕ
after_open = (syscall_handler files 0 sys_open 100 6 o_rdwr machine).1

close_fd-open_path_example :
    (o : Opened files machine after_open 3) × (syscall_handler files 1 sys_close 3 0 0 after_open
      ≡ (
        outcome failure (after_drop (ok 0) (drop_kind files o.kind after_open.devices).0),
        record {
          scheduler = machine.scheduler;
          devices = (drop_kind files o.kind after_open.devices).1;
        },
      ))
close_fd-open_path_example =
    close_fd-open_path files 0 1 100 6 o_rdwr 0 0 machine shell 3 refl new-IsValid opens_three
      (omega arith)

current_dir-change_dir_example :
    Stands files
      (resolve_path (load machine.devices.memory 100 6) (bytes "/"))
      (dispatch_bytes machine.devices.vfs
        (resolve_path (load machine.devices.memory 100 6) (bytes "/"))
        files.metadata).0
      200
      (syscall_handler files 1 sys_getcwd 200 16 0
        (syscall_handler files 0 sys_chdir 100 6 0 machine).1)
current_dir-change_dir_example =
    current_dir-change_dir files 0 1 100 6 200 16 0 0 machine (bytes "/") stands_at_root enters fits

syscall_handler_lem_example :
    Fine AnyTree Within
      (sys_open == sys_read)
      (syscall_handler tmp_files 0 sys_open 100 6 o_rdwr tmp_machine)
syscall_handler_lem_example =
    syscall_handler_lem tmp_files tmp_files-Answers 0 sys_open 100 6 o_rdwr tmp_machine
      (omega arith) live_x-IsText tmp_machine-Ready
