-- ===== src/Syscall/Kept.antt =====
-- What the system calls of vcore/src/cpu/syscall.rs are composed of keeps the state ready.
use vyper.Prelude.{ℕ, refl, ◌≡◌, Bool, true, false, ok, err, panic, stuck, Bytes, some}
use vyper.Vfs.Types.{VfsResult}
use vyper.Vfs.Fd.{FdTable}
use vyper.Vfs.FilePath.Utf.{IsText, resolve_path-IsText}
use vyper.Sched.{set_cwd, get_cwd}
use vyper.Syscall.{with_table, on_mounts, path_at}
use vyper.Syscall.Memory.{load}
use vyper.Syscall.State.{
  Filesystem, Devices, Machine, Outcome, returned, exited, panicked, hung, outcome,
}
use vyper.Sched.Schedule.{get_elem?-modify}
use vyper.Syscall.Tables.{with_table_lem}
use vyper.Syscall.Ready.{Meets, Ends, Sound, Ready, dispatch_bytes-Housed}
use vyper.Syscall.Closures.{Keeps}

-- A call that is not SYS_EXIT returns; or, if it may, it waits for a key that never comes.
abbrev pub Ended : Bool → Outcome → Type 0
Ended waits (returned n) = Unit
Ended waits (exited switch) = ⊥
Ended waits panicked = ⊥
Ended waits hung = waits ≡ true

pub outcome-Ended :
    (waits : Bool) (default : ℕ) (r : VfsResult ℕ) → Ends waits r → Ended waits (outcome default r)
outcome-Ended waits default (ok n) h = tt
outcome-Ended waits default (err e) h = tt
outcome-Ended waits default panic h = h
outcome-Ended waits default stuck h = h

module _ {F H S : Type 0} (Good : F → Type 0) (Held : H → Type 0) where
  abbrev pub Fine : Bool → Outcome × Machine F H S → Type 0
  Fine waits (o, s) = Ended waits o × Ready Good Held s

module _ {F H S : Type 0} {Good : F → Type 0} {Held : H → Type 0} where
  pub with_devices :
      (s : Machine F H S) (d : Devices F)
      → Ready Good Held s
      → Sound Good d
      → Ready Good Held (record s { devices = d })
  with_devices s d ready sound = record {
    task = ready.task;
    runs = ready.runs;
    table = ready.table;
    stands = ready.stands;
    devices = sound;
  }

  pub set_cwd-Ready :
      (path : Bytes) (s : Machine F H S)
      → IsText path
      → Ready Good Held s
      → Ready Good Held (record s { scheduler = (set_cwd path s.scheduler).1 })
  unfolding set_cwd
  set_cwd-Ready path s text ready =
      rw (ready.runs, set_cwd)
        (record {
          task = record ready.task { cwd = path };
          runs =
              get_elem?-modify (λ u. record u { cwd = path }) s.scheduler.tasks s.scheduler.current
                ready.task ready.runs;
          table = ready.table;
          stands = text;
          devices = ready.devices;
        })

module _ {F H S : Type 0} (fs : Filesystem F H) {Good : F → Type 0} {Held : H → Type 0} where
  pub with_table-Ready :
      (waits : Bool) (f : FdTable H → Devices F → VfsResult ℕ × FdTable H × Devices F)
      (s : Machine F H S)
      → Keeps Good Held waits f
      → Ready Good Held s
      → Ends waits (with_table fs f s).0 × Ready Good Held (with_table fs f s).1
  with_table-Ready waits f s keeps ready =
      let (ends, tidy, sound) = keeps ready.task.fds s.devices ready.table ready.devices in
      let table : FdTable H = (f ready.task.fds s.devices).1 in
      rw (with_table_lem fs f s ready.task ready.runs) (
        ends,
        record {
          task = record ready.task { fds = table };
          runs =
              get_elem?-modify (λ u. record u { fds = table }) s.scheduler.tasks s.scheduler.current
                ready.task ready.runs;
          table = tidy;
          stands = ready.stands;
          devices = sound;
        },
      )

  pub on_mounts-Ready :
      {A : Type 0} (P : A → Type 0) (method : F → Bytes → VfsResult A × F) (path : Bytes)
      (s : Machine F H S)
      → ((f : F) (below : Bytes)
          → Good f
          → Meets false P (method f below).0 × Good (method f below).1)
      → IsText path
      → Ready Good Held s
      → Meets false P (on_mounts fs method path s).0
        × Ready Good Held (on_mounts fs method path s).1
  unfolding on_mounts
  on_mounts-Ready P method path s h text ready =
      let (ends, housed) =
        dispatch_bytes-Housed P s.devices.vfs path method h text ready.devices.housed in
      (ends, with_devices s _ ready (record { housed = housed; keys = ready.devices.keys }))

  stands_in :
      (s : Machine F H S) (ready : Ready Good Held s) → get_cwd s.scheduler ≡ some ready.task.cwd
  unfolding get_cwd
  stands_in s ready = rw (ready.runs, get_cwd) refl

  -- A path from a text and the task's directory is a text.
  pub path_at-IsText :
      (ptr len : ℕ) (s : Machine F H S)
      → IsText (load s.devices.memory ptr len)
      → Ready Good Held s
      → IsText (path_at fs s ptr len)
  unfolding path_at
  path_at-IsText ptr len s text ready =
      rw (stands_in s ready)
        (resolve_path-IsText (load s.devices.memory ptr len) ready.task.cwd text ready.stands)
