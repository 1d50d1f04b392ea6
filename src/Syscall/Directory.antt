-- ===== src/Syscall/Directory.antt =====
-- SYS_GETCWD of vcore/src/cpu/syscall.rs after SYS_CHDIR.
use vyper.Prelude.{
  sym, ◌∙◌, ℕ, ◌≡◌, ◌≤◌, refl, ap, Bool, true, false, some, ok, err, panic, stuck, get_elem?, arith,
  inl, inr, Option-cases, if◌then◌else◌, Bytes, length, take, min, take_all,
}
use vyper.Vfs.Types.{VfsResult, Metadata, FileType, file, directory, device}
use vyper.Vfs.FilePath.{resolve_path}
use vyper.Vfs.Mounts.{dispatch_bytes}
use vyper.Sched.{Scheduler, get_cwd, set_cwd}
use vyper.Syscall.{on_mounts, enter, change_dir, current_dir, path_at, syscall_handler}
use vyper.Syscall.Memory.{load, load-store}
use vyper.Syscall.State.{
  Filesystem, Machine, Outcome, returned, failure, value, sys_chdir, sys_getcwd,
}
use vyper.Sched.Schedule.{get_elem?-modify}
use vyper.Syscall.Tables.{}

module _ {F S : Type 0} where
  get_cwd-set_cwd :
      (path : Bytes) (sched : Scheduler F S)
      → (set_cwd path sched).0 ≡ true
      → get_cwd (set_cwd path sched).1 ≡ some path
  unfolding get_cwd set_cwd
  get_cwd-set_cwd path sched e = elim (Option-cases (get_elem? sched.tasks sched.current)) [
    | inl absent ↦ ground (arith, absent)
    | inr (t, here) ↦ ground (
      arith,
      here,
      get_elem?-modify (λ u. record u { cwd = path }) sched.tasks sched.current t here,
    )
  ]

module _ {F H S : Type 0} (fs : Filesystem F H) where
  current_dir_lem :
      (buf len : ℕ) (s : Machine F H S) (cwd : Bytes)
      → get_cwd s.scheduler ≡ some cwd
      → length cwd ≤ len
      → ((current_dir fs buf len s).0 ≡ returned (length cwd))
        × (load (current_dir fs buf len s).1.devices.memory buf (length cwd) ≡ cwd)
  unfolding current_dir
  current_dir_lem buf len s cwd e h =
      let all : min (length cwd) len ≡ length cwd = omega arith in
      let whole : take (length cwd) cwd ≡ cwd = take_all (length cwd) cwd (omega arith) in
      rw (e, all, whole, current_dir) (refl, load-store s.devices.memory buf cwd)

  -- What SYS_CHDIR has found and done where it returns 0.
  record Entered (path : Bytes) (r : VfsResult Metadata) (after : Machine F H S) : Type 0 where
    pub meta : Metadata
    pub found : r ≡ ok meta
    pub is_directory : meta.file_type ≡ directory
    pub stands : get_cwd after.scheduler ≡ some path

  found_kind :
      (path : Bytes) (kind : FileType) (size : ℕ) (s : Machine F H S)
      → (enter fs path (ok (record { file_type = kind; size = size }), s)).0 ≡ returned 0
      → Entered path
          (ok (record { file_type = kind; size = size }))
          (enter fs path (ok (record { file_type = kind; size = size }), s)).1
  found_kind path file size s e = absurd (omega (arith, ap value e))
  found_kind path device size s e = absurd (omega (arith, ap value e))
  found_kind path directory size s e = record {
    meta = record { file_type = directory; size = size };
    found = refl;
    is_directory = refl;
    stands = get_cwd-set_cwd path s.scheduler (is_done _ (ap value e));
  }
    where
      is_done : (b : Bool) → (if b then 0 else failure) ≡ 0 → b ≡ true
      is_done true h = refl
      is_done false h = absurd (omega arith)

  entered :
      (path : Bytes) (r : VfsResult Metadata) (s : Machine F H S)
      → (enter fs path (r, s)).0 ≡ returned 0
      → Entered path r (enter fs path (r, s)).1
  entered path (ok meta) s e = found_kind path meta.file_type meta.size s e
  entered path (err x) s e = absurd (omega (arith, ap value e))
  entered path panic s e = cc
  entered path stuck s e = cc

  change_dir_lem :
      (ptr len : ℕ) (s : Machine F H S)
      → (change_dir fs ptr len s).0 ≡ returned 0
      → Entered
          (path_at fs s ptr len)
          (dispatch_bytes s.devices.vfs (path_at fs s ptr len) fs.metadata).0
          (change_dir fs ptr len s).1
  unfolding change_dir on_mounts
  change_dir_lem ptr len s e =
      let path = path_at fs s ptr len in
      let (r, vfs') = dispatch_bytes s.devices.vfs path fs.metadata in
      entered path r (record s { devices = record s.devices { vfs = vfs' } }) e

  path_at_lem :
      (s : Machine F H S) (ptr len : ℕ) (cwd : Bytes)
      → get_cwd s.scheduler ≡ some cwd
      → path_at fs s ptr len ≡ resolve_path (load s.devices.memory ptr len) cwd
  unfolding path_at
  path_at_lem s ptr len cwd e = rw (e, path_at) refl

  -- What the two calls are to leave: the metadata of a directory at the path, and the path in the
  -- buffer, with its length returned.
  pub record Stands (path : Bytes) (found : VfsResult Metadata) (buf : ℕ)
      (end : Outcome × Machine F H S) : Type 0 where
    pub meta : Metadata
    pub known : found ≡ ok meta
    pub is_directory : meta.file_type ≡ directory
    pub size : end.0 ≡ returned (length path)
    pub bytes : load end.1.devices.memory buf (length path) ≡ path

  known_and_returned :
      (ptr len buf room : ℕ) (s : Machine F H S) (path : Bytes)
      → path_at fs s ptr len ≡ path
      → (change_dir fs ptr len s).0 ≡ returned 0
      → length path ≤ room
      → Stands path
          (dispatch_bytes s.devices.vfs path fs.metadata).0
          buf
          (current_dir fs buf room (change_dir fs ptr len s).1)
  known_and_returned ptr len buf room s path at e h =
      let d = change_dir_lem ptr len s e in
      let stands : get_cwd (change_dir fs ptr len s).1.scheduler ≡ some path =
        d.stands ∙ ap some at in
      let (size, bytes) = current_dir_lem buf room (change_dir fs ptr len s).1 path stands h in
      record {
        meta = d.meta;
        known = ap (λ p. (dispatch_bytes s.devices.vfs p fs.metadata).0) (sym at) ∙ d.found;
        is_directory = d.is_directory;
        size = size;
        bytes = bytes;
      }

  -- Let the task stand in a directory, and let SYS_CHDIR return 0. Then the mounts know the path
  -- that `resolve_path` makes of the bytes given in memory and of that directory, and it is a
  -- directory; and SYS_GETCWD with a buffer that is long enough returns the length of that path and
  -- leaves its bytes in the buffer. The unused arguments, and the ticks, are arbitrary.
  pub current_dir-change_dir :
      (tick later ptr len buf room a b : ℕ) (s : Machine F H S) (cwd : Bytes)
      → get_cwd s.scheduler ≡ some cwd
      → (syscall_handler fs tick sys_chdir ptr len a s).0 ≡ returned 0
      → length (resolve_path (load s.devices.memory ptr len) cwd) ≤ room
      → Stands
          (resolve_path (load s.devices.memory ptr len) cwd)
          (dispatch_bytes s.devices.vfs
            (resolve_path (load s.devices.memory ptr len) cwd)
            fs.metadata).0
          buf
          (syscall_handler fs later sys_getcwd buf room b
            (syscall_handler fs tick sys_chdir ptr len a s).1)
  unfolding syscall_handler
  current_dir-change_dir tick later ptr len buf room a b s cwd stood e h =
      known_and_returned ptr len buf room s _ (path_at_lem s ptr len cwd stood) e h
