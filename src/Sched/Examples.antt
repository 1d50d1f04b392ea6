-- ===== src/Sched/Examples.antt =====
-- A queue of four tasks: one is dead, the second runs, one sleeps until tick 5, one is ready. A
-- number stands for a table of descriptors and for an address space.
use vyper.Prelude.{bytes, ℕ, ◌≡◌, refl, none, some, List, [], ◌∷◌, ◌++◌, length, Option}
use vyper.Sched.{
  Scheduler, schedule, woken, wake, reap_dead, reap_below, next_ready, scan, switched, switch_info,
}
use vyper.Sched.Task.{Task, TaskState, ready, running, sleeping, dead, kernel}
use vyper.Sched.Reap.{alive, reap_dead_lem}
use vyper.Sched.Inv.{IsValid}
use vyper.Sched.Schedule.{schedule-IsValid}
use vyper.Sched.Decide.{Schedules, schedule_lem}

abbrev task_of : ℕ → TaskState → Option ℕ → Task ℕ ℕ
task_of n s w = record {
  id = n;
  name = bytes "t";
  state = s;
  mode = kernel;
  stack_ptr = n;
  cr3 = 4096;
  kernel_stack_top = 0;
  wake_at = w;
  user_entry = 0;
  user_stack = 0;
  fds = 0;
  cwd = bytes "/";
  address_space = none;
  stack_words = [];
}

abbrev before : List (Task ℕ ℕ)
before = task_of 1 dead none ∷ []

abbrev after : List (Task ℕ ℕ)
after = task_of 3 sleeping (some 5) ∷ task_of 4 ready none ∷ []

abbrev queue : Scheduler ℕ ℕ
queue = record { tasks = before ++ (task_of 2 running none ∷ after); current = 1 }

queue-IsValid : IsValid queue
queue-IsValid = record {
  front = before;
  task = task_of 2 running none;
  back = after;
  split = refl;
  front_idle = (refl, tt);
  back_idle = (refl, (refl, tt));
}

-- The sleeper has woken and is the nearest.
to_sleeper :
    (schedule 5 queue).0
    ≡ some (record { old_task = 0; new_sp = 3; cr3_to_load = 0; kernel_stack = 0 })
unfolding schedule reap_dead reap_below woken wake next_ready scan switched switch_info
to_sleeper = refl

-- It has not, and the task behind it is taken.
past_sleeper :
    (schedule 4 queue).0
    ≡ some (record { old_task = 0; new_sp = 4; cr3_to_load = 0; kernel_stack = 0 })
unfolding schedule reap_dead reap_below woken wake next_ready scan switched switch_info
past_sleeper = refl

reap_dead_lem_example : reap_dead queue ≡ record {
  tasks = alive before ++ (task_of 2 running none ∷ alive after);
  current = length (alive before);
}
reap_dead_lem_example = reap_dead_lem before (task_of 2 running none) after

schedule-IsValid_example : IsValid (schedule 5 queue).1
schedule-IsValid_example = schedule-IsValid 5 queue queue-IsValid

schedule_lem_example : Schedules 5 (reap_dead queue) (schedule 5 queue)
schedule_lem_example = schedule_lem 5 queue queue-IsValid
