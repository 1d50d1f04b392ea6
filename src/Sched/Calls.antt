-- ===== src/Sched/Calls.antt =====
-- `sleep`, `exit`, `add_task` and `init` of sched/mod.rs keep the invariant.
use vyper.Prelude.{ℕ, ◌≡◌, refl, ap, ◌∙◌, false, List, [], ◌∷◌, ◌++◌, length}
use vyper.Sched.{Scheduler, modify, sleep, exit, add_task, new, init}
use vyper.Sched.Task.{Task, is_running, kernel_task}
use vyper.Sched.Inv.{IsValid, modify_behind, idle_append}
use vyper.Sched.Schedule.{schedule-IsValid}

module _ {F S : Type 0} where
  abbrev scheduler : ℕ → List (Task F S) → Scheduler F S
  scheduler c ts = record { tasks = ts; current = c }

  changed_current :
      (f : Task F S → Task F S) (s : Scheduler F S)
      → IsValid s
      → IsValid (record s { tasks = modify f s.tasks s.current })
  changed_current f s v = record {
    front = v.front;
    task = f v.task;
    back = v.back;
    split =
        ap (λ (r : Scheduler F S). record r { tasks = modify f r.tasks r.current }) v.split
        ∙ ap (scheduler (length v.front)) (modify_behind f v.front v.task v.back);
    front_idle = v.front_idle;
    back_idle = v.back_idle;
  }

  -- From a valid scheduler, `sleep` and `exit`, and adding a task that is not running, leave a
  -- valid one; `init` makes one.
  pub calls-IsValid :
      (tick ticks : ℕ) (s : Scheduler F S) (task : Task F S) (fds : F) (next cr3 : ℕ)
      → IsValid s
      → is_running task.state ≡ false
      → IsValid (sleep tick ticks s).1
        × IsValid (exit tick s).1
        × IsValid (add_task s task)
        × IsValid {F = F} {S = S} (init fds next cr3).0
  unfolding sleep exit add_task init new kernel_task
  calls-IsValid tick ticks s task fds next cr3 v idle = (
    schedule-IsValid tick _ (changed_current _ s v),
    schedule-IsValid tick _ (changed_current _ s v),
    record {
      front = v.front;
      task = v.task;
      back = v.back ++ (task ∷ []);
      split =
          ap (λ (r : Scheduler F S). record r { tasks = r.tasks ++ (task ∷ []) }) v.split
          ∙ ap (scheduler (length v.front)) (append_assoc v.front v.task v.back);
      front_idle = v.front_idle;
      back_idle = idle_append v.back (task ∷ []) v.back_idle (idle, tt);
    },
    record { front = []; task = _; back = []; split = refl; front_idle = tt; back_idle = tt },
  )
    where
      append_assoc :
          (xs : List (Task F S)) (t : Task F S) (ys : List (Task F S))
          → (xs ++ (t ∷ ys)) ++ (task ∷ []) ≡ xs ++ (t ∷ (ys ++ (task ∷ [])))
      append_assoc [] t ys = refl
      append_assoc (x ∷ xs) t ys = ap (λ r. x ∷ r) (append_assoc xs t ys)
