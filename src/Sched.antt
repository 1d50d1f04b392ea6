-- ===== src/Sched.antt =====
-- vcore/src/sched/mod.rs: the queue of tasks and the scheduler's decisions. The switch of
-- stacks is what `schedule` returns; `SCHEDULER` is the state that is passed.
pub mod Task
pub mod Reap
pub mod Inv
pub mod RoundRobin
pub mod Schedule
pub mod Decide
pub mod Calls
mod Examples
use vyper.Prelude.{
  ℕ, zero, suc, ◌+◌, ◌-◌, ◌%◌, ◌^◌, Bool, true, false, not, ◌&&◌, Option, none, some, List, [], ◌∷◌,
  ◌++◌, map, if◌then◌else◌, ltb, leb, ◌==◌, length, get_elem?, set, erase_idx, Bytes, Result, ok,
  err, panic, stuck, ◌>>=◌, ok_or,
}
use vyper.Vfs.Types.{VfsError, VfsResult, io_error}
use Task.{TaskState, ready, running, sleeping, dead, is_ready, is_running, is_sleeping, is_dead}
use Task.{Task as TaskOf, kernel_task}

module _ {F S : Type 0} where
  -- A task at an index, where there is one, changed.
  abbrev pub modify : (TaskOf F S → TaskOf F S) → List (TaskOf F S) → ℕ → List (TaskOf F S)
  modify f [] i = []
  modify f (t ∷ ts) zero = f t ∷ ts
  modify f (t ∷ ts) (suc i) = t ∷ modify f ts i

  abbrev pub with_state : TaskState → TaskOf F S → TaskOf F S
  with_state s t = record t { state = s }

  -- Whether the task at an index is in a state of a kind.
  abbrev pub state_is : (TaskState → Bool) → List (TaskOf F S) → ℕ → Bool
  state_is test [] i = false
  state_is test (t ∷ ts) zero = test t.state
  state_is test (t ∷ ts) (suc i) = state_is test ts i

pub record Scheduler (F S : Type 0) : Type 0 where
  pub tasks : List (TaskOf F S)
  pub current : ℕ

-- What `switch_context` gets: the task whose stack pointer is stored, the new stack pointer, the
-- table to load (0 for none), and the new kernel stack.
pub record Switch : Type 0 where
  pub old_task : ℕ
  pub new_sp : ℕ
  pub cr3_to_load : ℕ
  pub kernel_stack : ℕ

module _ {F S : Type 0} where
  unfoldable pub new : Scheduler F S
  new = record { tasks = []; current = 0 }

  unfoldable pub add_task : Scheduler F S → TaskOf F S → Scheduler F S
  add_task self task = record self { tasks = self.tasks ++ (task ∷ []) }

  -- The loop of `next_ready`: the `n` candidates from the one at distance `i` on.
  unfoldable pub scan : List (TaskOf F S) → ℕ → ℕ → ℕ → Option ℕ
  scan tasks current i zero = none
  scan tasks current i (suc n) =
      let idx = (current + i) % length tasks in
      let rest = scan tasks current (suc i) n in
      if state_is is_ready tasks idx then some idx else rest

  unfoldable pub next_ready : Scheduler F S → Option ℕ
  next_ready self = scan self.tasks self.current 1 (length self.tasks)

  -- One round of the loop of `reap_dead`; the task that it removes is in `reaped`.
  abbrev pub reap_at : Scheduler F S → ℕ → Scheduler F S
  reap_at self i =
      if not (i == self.current) && state_is is_dead self.tasks i
      then record {
        tasks = erase_idx self.tasks i;
        current = if ltb i self.current then self.current - 1 else self.current;
      }
      else self

  -- The loop, with the `i` first tasks left.
  unfoldable pub reap_below : Scheduler F S → ℕ → Scheduler F S
  reap_below self zero = self
  reap_below self (suc i) = reap_below (reap_at self i) i

  unfoldable pub reap_dead : Scheduler F S → Scheduler F S
  reap_dead self = reap_below self (length self.tasks)

  -- The tasks that the loop removes, in its order: they are dropped, with their files.
  unfoldable pub reaped_below : Scheduler F S → ℕ → List (TaskOf F S)
  reaped_below self zero = []
  reaped_below self (suc i) =
      let rest = reaped_below (reap_at self i) i in
      if not (i == self.current) && state_is is_dead self.tasks i
      then elim (get_elem? self.tasks i) [ none ↦ rest | some t ↦ t ∷ rest ]
      else rest

  unfoldable pub reaped : Scheduler F S → List (TaskOf F S)
  reaped self = reaped_below self (length self.tasks)

  unfoldable pub current_task : Scheduler F S → Option (TaskOf F S)
  current_task self = get_elem? self.tasks self.current

  -- The loop of `schedule` over the sleeping tasks.
  unfoldable pub wake : ℕ → TaskOf F S → TaskOf F S
  wake tick task =
      if is_sleeping task.state
      then elim task.wake_at [
        | none ↦ task
        | some wake_at ↦
            if leb wake_at tick then record task { state = ready; wake_at = none } else task
      ]
      else task

  unfoldable pub woken : ℕ → Scheduler F S → Scheduler F S
  woken tick self = record self { tasks = map (wake tick) self.tasks }

  -- The states after the switch from `current` to `next`.
  unfoldable pub switched : List (TaskOf F S) → ℕ → ℕ → List (TaskOf F S)
  switched tasks current next =
      let tasks' =
        if state_is is_running tasks current
        then modify (with_state ready) tasks current
        else tasks in
      modify (with_state running) tasks' next

  -- The end of the locked part of `schedule`; an index out of range panics.
  unfoldable pub switch_info : List (TaskOf F S) → ℕ → ℕ → Option Switch
  switch_info tasks current next = elim (get_elem? tasks current) [
    | none ↦ none
    | some old ↦ elim (get_elem? tasks next) [
      | none ↦ none
      | some t ↦ some (record {
        old_task = current;
        new_sp = t.stack_ptr;
        cr3_to_load = if old.cr3 == t.cr3 then 0 else t.cr3;
        kernel_stack = t.kernel_stack_top;
      })
    ]
  ]

  -- The locked part of `schedule`: the switch to make, where a task is ready.
  unfoldable pub schedule : ℕ → Scheduler F S → Option Switch × Scheduler F S
  schedule tick self =
      let s = woken tick (reap_dead self) in
      elim (next_ready s) [
        | none ↦ (none, s)
        | some next ↦
            (let tasks = switched s.tasks s.current next in
              (switch_info tasks s.current next, record { tasks = tasks; current = next }))
      ]

  -- The locked part of `sleep`, which then calls `schedule`.
  unfoldable pub sleep : ℕ → ℕ → Scheduler F S → Option Switch × Scheduler F S
  sleep tick ticks self = schedule tick (record self {
    tasks =
        modify (λ t. record t { wake_at = some ((tick + ticks) % 2 ^ 64); state = sleeping })
          self.tasks self.current;
  })

  -- The current task marked as dead.
  abbrev pub dying : Scheduler F S → Scheduler F S
  dying self = record self { tasks = modify (with_state dead) self.tasks self.current }

  -- The locked part of `exit`, which then calls `schedule` and halts.
  unfoldable pub exit : ℕ → Scheduler F S → Option Switch × Scheduler F S
  exit tick self = schedule tick (dying self)

  -- `with_fd_table`, once the scheduler is there
  unfoldable pub with_fd_table :
      {R : Type 0} → (F → VfsResult R × F) → Scheduler F S → VfsResult R × Scheduler F S
  with_fd_table f self = elim (get_elem? self.tasks self.current) [
    | none ↦ (err io_error, self)
    | some t ↦
        (let (r, fds') = f t.fds in
          (
            r,
            record self { tasks = modify (λ t. record t { fds = fds' }) self.tasks self.current },
          ))
  ]

  unfoldable pub get_cwd : Scheduler F S → Option Bytes
  get_cwd self = elim (get_elem? self.tasks self.current) [ none ↦ none | some t ↦ some t.cwd ]

  unfoldable pub set_cwd : Bytes → Scheduler F S → Bool × Scheduler F S
  set_cwd path self = elim (get_elem? self.tasks self.current) [
    | none ↦ (false, self)
    | some t ↦ (
      true,
      record self { tasks = modify (λ t. record t { cwd = path }) self.tasks self.current },
    )
  ]

  -- `init`, with the kernel's task
  unfoldable pub init : F → ℕ → ℕ → Scheduler F S × ℕ
  init fds next cr3 = let (task, next') = kernel_task fds next cr3 in (add_task new task, next')
