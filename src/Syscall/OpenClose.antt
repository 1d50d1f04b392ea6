-- ===== src/Syscall/OpenClose.antt =====
-- SYS_CLOSE of vcore/src/cpu/syscall.rs undoes what SYS_OPEN does to the table of open files.
use vyper.Prelude.{
  some, get_elem?, ℕ, ◌%◌, ◌^◌, ◌≡◌, ◌≢◌, ◌≤◌, ◌<◌, refl, ap, sym, ◌∙◌, Bool, true, false, ok, err,
  panic, stuck, if◌then◌else◌,
}
use vyper.Vfs.Types.{VfsResult, contains, o_directory}
use vyper.Vfs.Fd.{FdKind, FdTable, alloc, close, max_fds}
use vyper.Vfs.Fd.Laws.{IsValid}
use vyper.Vfs.Fd.Back.{close-alloc}
use vyper.Vfs.Mounts.{dispatch_bytes}
use vyper.Sched.Task.{Task}
use vyper.Syscall.Files.{closed, close_file, drop_kind}
use vyper.Syscall.{
  refused, on_mounts, alloc_file, alloc_opened, answer, open_path, close_fd, path_at,
  syscall_handler,
}
use vyper.Syscall.State.{
  after_drop, Filesystem, Devices, Machine, returned, outcome, failure, value, sys_open, sys_close,
}
use vyper.Sched.Schedule.{get_elem?-modify}
use vyper.Syscall.Tables.{Runs, put_table, with_table_lem, modify-modify}

-- An error has the value `failure`.
opens_of : (r : VfsResult ℕ) (fd : ℕ) → outcome failure r ≡ returned fd → fd ≢ failure → r ≡ ok fd
opens_of (ok n) fd e ne = ap (λ o. ok (value o)) e
opens_of (err x) fd e ne = absurd (ne (sym (ap value e)))
opens_of panic fd e ne = cc
opens_of stuck fd e ne = cc

module _ {F H S : Type 0} (fs : Filesystem F H) where
  -- What a call that opened `fd` leaves, against what it began with: the file in the table, and
  -- what SYS_CLOSE then does.
  pub record Opened (before after : Machine F H S) (fd : ℕ) : Type 0 where
    pub above : 3 ≤ fd
    pub inside : fd < max_fds
    pub task : Task (FdTable H) S
    pub runs : Runs after task
    pub kind : FdKind H
    pub holds : get_elem? task.fds fd ≡ some (some kind)
    pub closes : close_fd fs fd after ≡ (
      outcome failure (after_drop (ok 0) (drop_kind fs kind after.devices).0),
      record { scheduler = before.scheduler; devices = (drop_kind fs kind after.devices).1 },
    )

  closes_again :
      (s : Machine F H S) (t : Task (FdTable H) S) (fd : ℕ) (table : FdTable H) (kind : FdKind H)
      → Runs s t
      → close table fd ≡ (ok kind, t.fds)
      → close_fd fs fd (record s { scheduler = put_table table s.scheduler }) ≡ (
        outcome failure (after_drop (ok 0) (drop_kind fs kind s.devices).0),
        record s { devices = (drop_kind fs kind s.devices).1 },
      )
  unfolding close_fd
  closes_again s t fd table kind runs back =
      let s1 : Machine F H S = record s { scheduler = put_table table s.scheduler } in
      let runs1 =
        get_elem?-modify (λ u. record u { fds = table }) s.scheduler.tasks s.scheduler.current t
          runs in
      ap (answer fs failure)
        (with_table_lem fs (close_file fs fd) s1 (record t { fds = table }) runs1)
      ∙ ap
          (λ (c : VfsResult ℕ × FdTable H × Devices F).
            (outcome failure c.0, record { scheduler = put_table c.1 s1.scheduler; devices = c.2 }))
          (ap (λ c. closed fs c s.devices) back)
      ∙ ap
          (λ tasks. (
            outcome failure (after_drop (ok 0) (drop_kind fs kind s.devices).0),
            record {
              scheduler = record { tasks = tasks; current = s.scheduler.current };
              devices = (drop_kind fs kind s.devices).1;
            },
          ))
          (modify-modify (λ u. record u { fds = t.fds }) (λ u. record u { fds = table })
            s.scheduler.tasks s.scheduler.current t runs refl)

  refused_lem :
      (kind : FdKind H) (p : VfsResult ℕ × Machine F H S) (fd : ℕ)
      → (refused fs kind p).0 ≡ ok fd
      → refused fs kind p ≡ p
  refused_lem kind (ok n, s) fd e = refl
  refused_lem kind (err x, s) fd e = not_ok (drop_kind fs kind s.devices).0 e
    where
      not_ok :
          (r : VfsResult (Unit {0}))
          → after_drop {A = ℕ} (err x) r ≡ ok fd
          → refused fs kind (err x, s) ≡ (err x, s)
      not_ok (ok u) e = cc
      not_ok (err y) e = cc
      not_ok panic e = cc
      not_ok stuck e = cc
  refused_lem kind (panic, s) fd e = refl
  refused_lem kind (stuck, s) fd e = refl

  alloc_file_lem :
      (kind : FdKind H) (s : Machine F H S) (t : Task (FdTable H) S) (fd : ℕ)
      → Runs s t
      → IsValid t.fds
      → (alloc_file fs kind s).0 ≡ ok fd
      → Opened s (alloc_file fs kind s).1 fd
  alloc_file_lem kind s t fd runs v e =
      let closure : FdTable H → Devices F → VfsResult ℕ × FdTable H × Devices F =
        λ table d. ((alloc table kind).0, (alloc table kind).1, d) in
      let opened = refused_lem kind _ fd e ∙ with_table_lem fs closure s t runs in
      let (above, inside, back, holds) =
        close-alloc t.fds kind fd v (sym (ap (λ r. r.0) opened) ∙ e) in
      let table : FdTable H = (alloc t.fds kind).1 in
      let s1 : Machine F H S = record s { scheduler = put_table table s.scheduler } in
      rw (ap (λ r. r.1) opened) (record {
        above = above;
        inside = inside;
        task = record t { fds = table };
        runs =
            get_elem?-modify (λ u. record u { fds = table }) s.scheduler.tasks s.scheduler.current t
              runs;
        kind = kind;
        holds = holds;
        closes = closes_again s t fd table kind runs back;
      })

  alloc_opened_lem :
      {A : Type 0} (kind : A → FdKind H) (r : VfsResult A) (s before : Machine F H S)
      (t : Task (FdTable H) S) (fd : ℕ)
      → s.scheduler ≡ before.scheduler
      → Runs s t
      → IsValid t.fds
      → (alloc_opened fs kind (r, s)).0 ≡ ok fd
      → Opened before (alloc_opened fs kind (r, s)).1 fd
  alloc_opened_lem kind (ok a) s before t fd same runs v e =
      let o = alloc_file_lem (kind a) s t fd runs v e in
      record {
        above = o.above;
        inside = o.inside;
        task = o.task;
        runs = o.runs;
        kind = o.kind;
        holds = o.holds;
        closes =
            o.closes
            ∙ ap
                (λ sched. (
                  outcome failure (
                      after_drop (ok 0)
                        (drop_kind fs o.kind (alloc_file fs (kind a) s).1.devices).0),
                  record {
                    scheduler = sched;
                    devices = (drop_kind fs o.kind (alloc_file fs (kind a) s).1.devices).1;
                  },
                ))
                same;
      }
  alloc_opened_lem kind (err x) s before t fd same runs v e = cc
  alloc_opened_lem kind panic s before t fd same runs v e = cc
  alloc_opened_lem kind stuck s before t fd same runs v e = cc

  open_path_lem :
      (ptr len flags : ℕ) (s : Machine F H S) (t : Task (FdTable H) S) (fd : ℕ)
      → Runs s t
      → IsValid t.fds
      → (open_path fs ptr len flags s).0 ≡ returned fd
      → fd ≢ failure
      → Opened s (open_path fs ptr len flags s).1 fd
  unfolding open_path on_mounts
  open_path_lem ptr len flags s t fd runs v e ne =
      let path = path_at fs s ptr len in
      let (dirs, vfs_dir) = dispatch_bytes s.devices.vfs path fs.readdir in
      let (handle, vfs_file) = dispatch_bytes s.devices.vfs path (fs.open_file flags) in
      either (contains flags o_directory)
        (alloc_opened_lem (λ entries. FdKind.directory path entries 0) dirs
          (record s { devices = record s.devices { vfs = vfs_dir } }) s t fd refl runs v)
        (alloc_opened_lem FdKind.file handle
          (record s { devices = record s.devices { vfs = vfs_file } }) s t fd refl runs v)
        (opens_of _ fd e ne)
    where
      either :
          (b : Bool) {p q : VfsResult ℕ × Machine F H S}
          → (p.0 ≡ ok fd → Opened s p.1 fd)
          → (q.0 ≡ ok fd → Opened s q.1 fd)
          → (if b then p else q).0 ≡ ok fd
          → Opened s (if b then p else q).1 fd
      either true f g e = f e
      either false f g e = g e

  -- The descriptor that SYS_OPEN returned to a task with a valid table is none of the standard
  -- three and below 64, and the table of the current task now has a file there. SYS_CLOSE of it,
  -- with any other arguments and at any tick, drops that file, which for a handle is what its file
  -- system does on a drop, and changes nothing else among the devices; it leaves the scheduler, with
  -- the table of every task, as it was before SYS_OPEN; and it returns 0, unless the drop panics
  -- or hangs. `u64::MAX` is the value that SYS_OPEN returns on an error.
  pub close_fd-open_path :
      (tick later ptr len flags a b : ℕ) (s : Machine F H S) (t : Task (FdTable H) S) (fd : ℕ)
      → Runs s t
      → IsValid t.fds
      → (syscall_handler fs tick sys_open ptr len flags s).0 ≡ returned fd
      → fd ≢ failure
      → (o : Opened s (syscall_handler fs tick sys_open ptr len flags s).1 fd) × (syscall_handler fs
            later sys_close fd a b
            (syscall_handler fs tick sys_open ptr len flags s).1
          ≡ (
            outcome failure (
                after_drop
                  (ok 0)
                  (drop_kind fs o.kind
                    (syscall_handler fs tick sys_open ptr len flags s).1.devices).0),
            record {
              scheduler = s.scheduler;
              devices =
                  (drop_kind fs o.kind
                    (syscall_handler fs tick sys_open ptr len flags s).1.devices).1;
            },
          ))
  unfolding syscall_handler
  close_fd-open_path tick later ptr len flags a b s t fd runs v e ne =
      let o = open_path_lem ptr len (flags % 2 ^ 32) s t fd runs v e ne in (o, o.closes)
