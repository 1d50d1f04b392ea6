-- ===== src/Syscall/Tables.antt =====
-- `sched::with_fd_table` as the system calls of vcore/src/cpu/syscall.rs use it: on the table of
-- the current task.
use mathlib.Core.Option.{some-injective}
use vyper.Prelude.{ℕ, zero, suc, ◌≡◌, refl, ap, sym, ◌∙◌, some, List, [], ◌∷◌, get_elem?, ok}
use vyper.Vfs.Types.{VfsResult}
use vyper.Vfs.Fd.{FdTable}
use vyper.Sched.{Scheduler, modify, with_fd_table}
use vyper.Sched.Task.{Task}
use vyper.Syscall.{with_table, table_done}
use vyper.Syscall.State.{Filesystem, Devices, Machine}

module _ {F S : Type 0} where
  -- A change of the table that another undoes.
  pub modify-modify :
      (f g : Task F S → Task F S) (ts : List (Task F S)) (i : ℕ) (t : Task F S)
      → get_elem? ts i ≡ some t
      → f (g t) ≡ t
      → modify f (modify g ts i) i ≡ ts
  modify-modify f g [] i t e h = refl
  modify-modify f g (x ∷ ts) zero t e h =
      let same = some-injective x t e in ap (λ r. r ∷ ts) (ap (λ u. f (g u)) same ∙ h ∙ sym same)
  modify-modify f g (x ∷ ts) (suc i) t e h = ap (λ r. x ∷ r) (modify-modify f g ts i t e h)

module _ {H S : Type 0} where
  abbrev pub put_table : FdTable H → Scheduler (FdTable H) S → Scheduler (FdTable H) S
  put_table fds sched = record sched {
    tasks = modify (λ t. record t { fds = fds }) sched.tasks sched.current;
  }

  with_fd_table_lem :
      {R : Type 0} (f : FdTable H → VfsResult R × FdTable H) (sched : Scheduler (FdTable H) S)
      (t : Task (FdTable H) S)
      → get_elem? sched.tasks sched.current ≡ some t
      → with_fd_table f sched ≡ ((f t.fds).0, put_table (f t.fds).1 sched)
  unfolding with_fd_table
  with_fd_table_lem f sched t e = rw (e, with_fd_table) refl

module _ {F H S : Type 0} where
  -- The current task.
  abbrev pub Runs : Machine F H S → Task (FdTable H) S → Type 0
  Runs s t = get_elem? s.scheduler.tasks s.scheduler.current ≡ some t

  -- The closure gets the table of the current task, and what it leaves is put back.
  pub with_table_lem :
      (fs : Filesystem F H) (f : FdTable H → Devices F → VfsResult ℕ × FdTable H × Devices F)
      (s : Machine F H S) (t : Task (FdTable H) S)
      → Runs s t
      → with_table fs f s ≡ (
        (f t.fds s.devices).0,
        record {
          scheduler = put_table (f t.fds s.devices).1 s.scheduler;
          devices = (f t.fds s.devices).2;
        },
      )
  unfolding with_table
  with_table_lem fs f s t e =
      let closure : FdTable H → VfsResult (VfsResult ℕ × Devices F) × FdTable H =
        λ table. (ok ((f table s.devices).0, (f table s.devices).2), (f table s.devices).1) in
      ap (table_done s) (with_fd_table_lem closure s.scheduler t e)
