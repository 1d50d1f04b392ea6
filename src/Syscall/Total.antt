-- ===== src/Syscall/Total.antt =====
-- The system calls of vcore/src/cpu/syscall.rs neither panic nor break what they rely on.
use vyper.Prelude.{
  ℕ, ◌%◌, ◌^◌, ◌≡◌, ◌≢◌, refl, Bool, true, false, ok, err, panic, stuck, arith, inl, inr, Bytes,
  ◌==◌, ◌||◌, if◌then◌else◌, Option-cases,
}
use vyper.Vfs.Types.{VfsResult, Metadata, contains, o_directory, FileType, file, directory, device}
use vyper.Vfs.Fd.{FdKind}
use vyper.Sched.{get_cwd}
use vyper.Syscall.{
  path_at, answer, refused, alloc_file, write, read, alloc_opened, open_path, close_fd, list_dir,
  change_path, enter, change_dir, current_dir, syscall_handler,
}
use vyper.Syscall.State.{
  Filesystem, Machine, Outcome, returned, exited, panicked, hung, failure, zero_of, sys_exit,
  sys_read, sys_write, sys_open, sys_close, sys_getdents, sys_mkdir, sys_unlink, sys_rmdir,
  sys_chdir, sys_getcwd,
}
use vyper.Syscall.Ready.{Meets, Ends, Answers, Ready, HeldKind, after_drop-Ends}
use vyper.Syscall.Held.{alloc-Tidy}
use vyper.Vfs.FilePath.Utf.{IsText}
use vyper.Syscall.Memory.{load}
use vyper.Syscall.Closures.{
  read_keyboard-Sound, drop_kind-Sound, close_file-Keeps, with_file-Keeps, list_file-Keeps,
  write_file-Keeps, read_file-Keeps,
}
use vyper.Syscall.Kept.{
  Fine, outcome-Ended, with_devices, set_cwd-Ready, with_table-Ready, on_mounts-Ready,
  path_at-IsText,
}

-- The calls whose first two arguments are the address and the length of a path.
abbrev pub takes_path : ℕ → Bool
takes_path num =
    (num == sys_open)
    || (num == sys_mkdir)
    || (num == sys_unlink)
    || (num == sys_rmdir)
    || (num == sys_chdir)

zero_of-Ends : (waits : Bool) (r : VfsResult (Unit {0})) → Ends waits r → Ends waits (zero_of r)
zero_of-Ends waits (ok u) h = tt
zero_of-Ends waits (err e) h = tt
zero_of-Ends waits panic h = h
zero_of-Ends waits stuck h = h

module _ {F H S : Type 0} {Good : F → Type 0} {Held : H → Type 0} where
  by_test :
      (waits b : Bool) (p q : Outcome × Machine F H S)
      → (b ≡ true → Fine Good Held waits p)
      → Fine Good Held waits q
      → Fine Good Held waits (if b then p else q)
  by_test waits true p q h k = h refl
  by_test waits false p q h k = k

  returned-Fine :
      (waits : Bool) (o : Outcome) (s : Machine F H S)
      → Fine Good Held false (o, s)
      → Fine Good Held waits (o, s)
  returned-Fine waits (returned n) s h = h
  returned-Fine waits (exited switch) s h = h
  returned-Fine waits panicked s h = h
  returned-Fine waits hung s h = absurd (cc (h.0))

module _ {F H S : Type 0} (fs : Filesystem F H) {Good : F → Type 0} {Held : H → Type 0}
    (answers : Answers fs Good Held) where
  answer-Fine :
      (waits : Bool) (default : ℕ) (p : VfsResult ℕ × Machine F H S)
      → Ends waits p.0 × Ready Good Held p.1
      → Fine Good Held waits (answer fs default p)
  answer-Fine waits default (r, s) (ends, ready) = (outcome-Ended waits default r ends, ready)

  write-Fine :
      (fd buf len : ℕ) (s : Machine F H S)
      → Ready Good Held s
      → Fine Good Held false (write fs fd buf len s)
  unfolding write
  write-Fine fd buf len s ready =
      by_test false ((fd == 1) || (fd == 2)) _ _
        (λ screen. (
          tt,
          with_devices s _ ready
              (record { housed = ready.devices.housed; keys = ready.devices.keys }),
        ))
        (answer-Fine false 0 _ (
          with_table-Ready fs false _ s
            (with_file-Keeps Good Held false fd _ (write_file-Keeps fs answers fd _)) ready))

  read-Fine :
      (fd buf len : ℕ) (s : Machine F H S)
      → Ready Good Held s
      → Fine Good Held true (read fs fd buf len s)
  unfolding read
  read-Fine fd buf len s ready =
      let (ends, sound) = read_keyboard-Sound buf len s.devices ready.devices in
      by_test true (fd == 0) _ _
        (λ here. (outcome-Ended true 0 _ ends, with_devices s _ ready sound))
        (answer-Fine true 0 _ (
          with_table-Ready fs true _ s
            (with_file-Keeps Good Held true fd _ (read_file-Keeps fs answers fd buf len)) ready))

  refused-Ends :
      (kind : FdKind H) (p : VfsResult ℕ × Machine F H S)
      → HeldKind Held kind
      → Ends false p.0 × Ready Good Held p.1
      → Ends false (refused fs kind p).0 × Ready Good Held (refused fs kind p).1
  refused-Ends kind (ok fd, s) k (ends, ready) = (tt, ready)
  refused-Ends kind (err e, s) k (ends, ready) =
      let (dropped, sound) = drop_kind-Sound fs answers kind s.devices k ready.devices in
      (after_drop-Ends (err e) _ tt dropped, with_devices s _ ready sound)
  refused-Ends kind (panic, s) k (ends, ready) = (ends, ready)
  refused-Ends kind (stuck, s) k (ends, ready) = (ends, ready)

  alloc_file-Ends :
      (kind : FdKind H) (s : Machine F H S)
      → HeldKind Held kind
      → Ready Good Held s
      → Ends false (alloc_file fs kind s).0 × Ready Good Held (alloc_file fs kind s).1
  alloc_file-Ends kind s k ready = refused-Ends kind _ k (
      with_table-Ready fs false _ s
        (λ table d t sound.
          let (ends, tidy) = alloc-Tidy Held table kind k t in (ends, tidy, sound))
        ready)

  alloc_opened-Ends :
      {A : Type 0} (P : A → Type 0) (kind : A → FdKind H) (r : VfsResult A) (s : Machine F H S)
      → ((a : A) → P a → HeldKind Held (kind a))
      → Meets false P r
      → Ready Good Held s
      → Ends false (alloc_opened fs kind (r, s)).0 × Ready Good Held (alloc_opened fs kind (r, s)).1
  alloc_opened-Ends P kind (ok a) s holds h ready = alloc_file-Ends (kind a) s (holds a h) ready
  alloc_opened-Ends P kind (err e) s holds h ready = (tt, ready)
  alloc_opened-Ends P kind panic s holds h ready = (h, ready)
  alloc_opened-Ends P kind stuck s holds h ready = (h, ready)

  open_path-Fine :
      (ptr len flags : ℕ) (s : Machine F H S)
      → IsText (load s.devices.memory ptr len)
      → Ready Good Held s
      → Fine Good Held false (open_path fs ptr len flags s)
  unfolding open_path
  open_path-Fine ptr len flags s text ready =
      let path = path_at fs s ptr len in
      let clean = path_at-IsText fs ptr len s text ready in
      let (lists, after_list) =
        on_mounts-Ready fs (λ a. Unit) fs.readdir path s answers.lists clean ready in
      let (opens, after_open) =
        on_mounts-Ready fs Held (fs.open_file flags) path s (answers.opens flags) clean ready in
      answer-Fine false failure _ (
        either (contains flags o_directory) _ _
          (alloc_opened-Ends (λ a. Unit) (λ entries. FdKind.directory path entries 0) _ _
            (λ a h. tt) lists after_list)
          (alloc_opened-Ends Held FdKind.file _ _ (λ a h. h) opens after_open))
    where
      either :
          (b : Bool) (p q : VfsResult ℕ × Machine F H S)
          → Ends false p.0 × Ready Good Held p.1
          → Ends false q.0 × Ready Good Held q.1
          → Ends false (if b then p else q).0 × Ready Good Held (if b then p else q).1
      either true p q h k = h
      either false p q h k = k

  close_fd-Fine :
      (fd : ℕ) (s : Machine F H S) → Ready Good Held s → Fine Good Held false (close_fd fs fd s)
  unfolding close_fd
  close_fd-Fine fd s ready =
      answer-Fine false failure _
        (with_table-Ready fs false _ s (close_file-Keeps fs answers fd) ready)

  list_dir-Fine :
      (fd buf len : ℕ) (s : Machine F H S)
      → Ready Good Held s
      → Fine Good Held false (list_dir fs fd buf len s)
  unfolding list_dir
  list_dir-Fine fd buf len s ready = answer-Fine false 0 _ (
      with_table-Ready fs false _ s
        (with_file-Keeps Good Held false fd _ (list_file-Keeps Good Held fd buf len)) ready)

  change_path-Fine :
      (method : F → Bytes → VfsResult (Unit {0}) × F) (ptr len : ℕ) (s : Machine F H S)
      → ((f : F) (below : Bytes) → Good f → Ends false (method f below).0 × Good (method f below).1)
      → IsText (load s.devices.memory ptr len)
      → Ready Good Held s
      → Fine Good Held false (change_path fs method ptr len s)
  unfolding change_path
  change_path-Fine method ptr len s h text ready =
      let (ends, after) =
        on_mounts-Ready fs (λ a. Unit) method (path_at fs s ptr len) s h
          (path_at-IsText fs ptr len s text ready) ready in
      (outcome-Ended false failure _ (zero_of-Ends false _ ends), after)

  enter-Fine :
      (path : Bytes) (r : VfsResult Metadata) (s : Machine F H S)
      → IsText path
      → Ends false r
      → Ready Good Held s
      → Fine Good Held false (enter fs path (r, s))
  enter-Fine path (ok meta) s text h ready = by_kind meta.file_type
    where
      by_kind :
          (kind : FileType)
          → Fine Good Held false (enter fs path (ok (record meta { file_type = kind }), s))
      by_kind file = (tt, ready)
      by_kind device = (tt, ready)
      by_kind directory = (tt, set_cwd-Ready path s text ready)
  enter-Fine path (err e) s text h ready = (tt, ready)
  enter-Fine path panic s text h ready = (h, ready)
  enter-Fine path stuck s text h ready = (h, ready)

  change_dir-Fine :
      (ptr len : ℕ) (s : Machine F H S)
      → IsText (load s.devices.memory ptr len)
      → Ready Good Held s
      → Fine Good Held false (change_dir fs ptr len s)
  unfolding change_dir
  change_dir-Fine ptr len s text ready =
      let path = path_at fs s ptr len in
      let clean = path_at-IsText fs ptr len s text ready in
      let (ends, after) =
        on_mounts-Ready fs (λ a. Unit) fs.metadata path s answers.describes clean ready in
      enter-Fine path _ _ clean ends after

  current_dir-Fine :
      (buf len : ℕ) (s : Machine F H S)
      → Ready Good Held s
      → Fine Good Held false (current_dir fs buf len s)
  unfolding current_dir
  current_dir-Fine buf len s ready = elim (Option-cases (get_cwd s.scheduler)) [
    | inl e ↦ rw (e, current_dir) (tt, ready)
    | inr (cwd, e) ↦
        rw (e, current_dir)
          (
            tt,
            with_devices s _ ready
                (record { housed = ready.devices.housed; keys = ready.devices.keys }),
          )
  ]

  -- Take states of the file systems and of the open files from which every method and every drop
  -- of a handle returns, and leaves such states. Then, from a machine whose current task exists,
  -- with a valid table of such open files, such file systems on sorted distinct mounts, paths that
  -- are UTF-8 at the boundaries of characters, in the task's directory and, where the call takes
  -- one, in the user's memory, mount paths that end in an ASCII character, and a valid keyboard:
  -- every system call but SYS_EXIT, whatever its number and its other arguments, returns a value,
  -- or, if it is SYS_READ, may wait for a key that never comes; none panics, and all leave such a
  -- machine.
  pub syscall_handler_lem :
      (tick num arg1 arg2 arg3 : ℕ) (s : Machine F H S)
      → num ≢ sys_exit
      → (takes_path num ≡ true → IsText (load s.devices.memory arg1 arg2))
      → Ready Good Held s
      → Fine Good Held (num == sys_read) (syscall_handler fs tick num arg1 arg2 arg3 s)
  unfolding syscall_handler
  syscall_handler_lem tick num arg1 arg2 arg3 s goes_on text ready =
      let w = num == sys_read in
      let step = by_test {F = F} {H = H} {S = S} {Good = Good} {Held = Held} w in
      let plain = returned-Fine {F = F} {H = H} {S = S} {Good = Good} {Held = Held} w in
      step (num == sys_exit) _ _ (λ e. absurd (goes_on (ground arith)))
        (step (num == sys_write) _ _ (λ e. plain _ _ (write-Fine arg1 arg2 arg3 s ready))
          (step (num == sys_read) _ _ (λ e. rw e (read-Fine arg1 arg2 arg3 s ready))
            (step (num == sys_open) _ _
              (λ e.
                plain _ _ (open_path-Fine arg1 arg2 (arg3 % 2 ^ 32) s (text (ground arith)) ready))
              (step (num == sys_close) _ _ (λ e. plain _ _ (close_fd-Fine arg1 s ready))
                (step (num == sys_getdents) _ _
                  (λ e. plain _ _ (list_dir-Fine arg1 arg2 arg3 s ready))
                  (step (num == sys_mkdir) _ _
                    (λ e. plain _ _ (
                      change_path-Fine fs.mkdir arg1 arg2 s answers.makes (text (ground arith))
                        ready))
                    (step (num == sys_unlink) _ _
                      (λ e. plain _ _ (
                        change_path-Fine fs.remove arg1 arg2 s answers.removes (text (ground arith))
                          ready))
                      (step (num == sys_rmdir) _ _
                        (λ e. plain _ _ (
                          change_path-Fine fs.rmdir arg1 arg2 s answers.removes_dir
                            (text (ground arith)) ready))
                        (step (num == sys_chdir) _ _
                          (λ e. plain _ _ (change_dir-Fine arg1 arg2 s (text (ground arith)) ready))
                          (step (num == sys_getcwd) _ _
                            (λ e. plain _ _ (current_dir-Fine arg1 arg2 s ready))
                            (
                              tt,
                              with_devices s _ ready (record {
                                housed = ready.devices.housed;
                                keys = ready.devices.keys;
                              }),
                            )))))))))))
