-- ===== src/Sched/Decide.antt =====
-- What `schedule` of sched/mod.rs decides: which sleepers wake, which task is next, and the switch.
use mathlib.Core.Option.{some-injective}
use vyper.Prelude.{
  ℕ, zero, suc, ◌≡◌, ◌≢◌, ◌≤◌, ◌<◌, refl, ap, sym, ◌∙◌, ◌⊎◌, Bool, true, false, Option, none, some,
  List, [], ◌∷◌, map, if◌then◌else◌, ◌==◌, leb, length, get_elem?, get_elem?_total, get_elem?_lt,
  arith, inl, inr, Bool-cases,
}
use vyper.Sched.{
  Scheduler, Switch, reap_dead, state_is, modify, with_state, wake, woken, switched, switch_info,
  schedule, next_ready,
}
use vyper.Sched.Task.{
  Task, TaskState, ready, running, sleeping, dead, is_running, is_ready, is_sleeping,
}
use vyper.Sched.Inv.{IsValid, woken-IsValid}
use vyper.Sched.RoundRobin.{Nearest, next_ready-some, next_ready-none}
use vyper.Sched.Schedule.{
  current_below, length-modify, state_below, get-modify_ne, get_elem?-modify,
}

is_ready_only : (s : TaskState) → is_ready s ≡ true → s ≡ ready
is_ready_only ready e = refl
is_ready_only running e = cc
is_ready_only sleeping e = cc
is_ready_only dead e = cc

module _ {F S : Type 0} where
  -- At a tick, a task that sleeps until then or earlier becomes ready and forgets the time; any
  -- other task stays as it is.
  abbrev pub Wakes : ℕ → Task F S → Task F S → Type 0
  Wakes tick t u =
      ((at : ℕ) × (t.state ≡ sleeping)
        × (t.wake_at ≡ some at)
        × (at ≤ tick)
        × (u ≡ record t { state = ready; wake_at = none }))
      ⊎ (((at : ℕ) → t.state ≡ sleeping → t.wake_at ≡ some at → tick < at) × (u ≡ t))

  abbrev pub AllWake : ℕ → List (Task F S) → List (Task F S) → Type 0
  AllWake tick [] [] = Unit
  AllWake tick [] (u ∷ us) = ⊥
  AllWake tick (t ∷ ts) [] = ⊥
  AllWake tick (t ∷ ts) (u ∷ us) = Wakes tick t u × AllWake tick ts us

  -- `wake`, of the two fields that it tests.
  abbrev tested : ℕ → Task F S → TaskState → Option ℕ → Task F S
  tested tick t s w =
      if is_sleeping s
      then elim w [
        | none ↦ t
        | some at ↦ if leb at tick then record t { state = ready; wake_at = none } else t
      ]
      else t

  woken_in_time :
      (tick : ℕ) (t : Task F S) (s : TaskState) (w : Option ℕ)
      → t.state ≡ s
      → t.wake_at ≡ w
      → wake tick t ≡ tested tick t s w
  unfolding wake
  woken_in_time tick t s w e f = ap (λ a. tested tick t a t.wake_at) e ∙ ap (tested tick t s) f

  by_state :
      (tick : ℕ) (t : Task F S) (s : TaskState) (w : Option ℕ)
      → t.state ≡ s
      → t.wake_at ≡ w
      → Wakes tick t (wake tick t)
  by_state tick t ready w e f = inr (λ at g. cc, woken_in_time tick t ready w e f)
  by_state tick t running w e f = inr (λ at g. cc, woken_in_time tick t running w e f)
  by_state tick t dead w e f = inr (λ at g. cc, woken_in_time tick t dead w e f)
  by_state tick t sleeping none e f = inr (λ at g h. cc, woken_in_time tick t sleeping none e f)
  by_state tick t sleeping (some at) e f =
      let tested_here = woken_in_time tick t sleeping (some at) e f in
      elim (Bool-cases (leb at tick)) [
        | inl due ↦ inl (
          at,
          e,
          f,
          ground arith,
          tested_here
              ∙ ap (λ (b : Bool). if b then record t { state = ready; wake_at = none } else t) due,
        )
        | inr later ↦ inr (
          λ at' g h.
              let same : at ≡ at' = some-injective at at' (sym f ∙ h) in
              let after : tick < at = ground arith in rw (← same) after,
          tested_here
              ∙ ap (λ (b : Bool). if b then record t { state = ready; wake_at = none } else t)
                  later,
        )
      ]

  wake-Wakes : (tick : ℕ) (t : Task F S) → Wakes tick t (wake tick t)
  wake-Wakes tick t = by_state tick t t.state t.wake_at refl refl

  woken-AllWake : (tick : ℕ) (ts : List (Task F S)) → AllWake tick ts (map (wake tick) ts)
  woken-AllWake tick [] = tt
  woken-AllWake tick (t ∷ ts) = (wake-Wakes tick t, woken-AllWake tick ts)

  -- The state `s` that the wake-ups leave, against the result of the call: the tasks `old`, which
  -- was current, and `task`, which is next.
  pub record Switches (s : Scheduler F S) (result : Option Switch × Scheduler F S) : Type 0 where
    pub next : ℕ
    pub old : Task F S
    pub task : Task F S
    pub nearest : Nearest s.tasks s.current 1 next
    pub old_at : get_elem? s.tasks s.current ≡ some old
    pub task_at : get_elem? s.tasks next ≡ some task
    pub was_ready : task.state ≡ ready
    pub becomes_current : result.1.current ≡ next
    pub switches :
        result.0
        ≡ some (record {
          old_task = s.current;
          new_sp = task.stack_ptr;
          cr3_to_load = if old.cr3 == task.cr3 then 0 else task.cr3;
          kernel_stack = task.kernel_stack_top;
        })
    pub same_length : length result.1.tasks ≡ length s.tasks
    pub runs : get_elem? result.1.tasks next ≡ some (record task { state = running })
    pub yields :
        next ≢ s.current
        → (old.state ≡ running
            → get_elem? result.1.tasks s.current ≡ some (record old { state = ready }))
          × (old.state ≢ running → get_elem? result.1.tasks s.current ≡ some old)
    pub others :
        (j : ℕ) → j ≢ s.current → j ≢ next → get_elem? result.1.tasks j ≡ get_elem? s.tasks j

  state-get :
      (test : TaskState → Bool) (ts : List (Task F S)) (i : ℕ) (t : Task F S)
      → get_elem? ts i ≡ some t
      → state_is test ts i ≡ test t.state
  state-get test [] i t e = cc
  state-get test (x ∷ ts) zero t e = ap (λ u. test u.state) (some-injective x t e)
  state-get test (x ∷ ts) (suc i) t e = state-get test ts i t e

  -- A change of a task's state leaves the rest of it.
  abbrev Keeps : List (Task F S) → List (Task F S) → Type 0
  Keeps ts us =
      (j : ℕ) (t : Task F S)
      → get_elem? ts j ≡ some t
      → (s : TaskState) × (get_elem? us j ≡ some (with_state s t))

  modify-Keeps :
      (s : TaskState) (ts : List (Task F S)) (i : ℕ) → Keeps ts (modify (with_state s) ts i)
  modify-Keeps s ts i j t e = elim (Bool-cases (i == j)) [
    | inl hit ↦
        let same : i ≡ j = ground arith in (s, rw same (get_elem?-modify (with_state s) ts j t e))
    | inr other ↦ (t.state, get-modify_ne (with_state s) ts i j (ground arith) ∙ e)
  ]

  -- The tasks once the current one has yielded.
  abbrev stopped : List (Task F S) → ℕ → List (Task F S)
  stopped ts current =
      if state_is is_running ts current then modify (with_state ready) ts current else ts

  stopped-Keeps : (ts : List (Task F S)) (current : ℕ) → Keeps ts (stopped ts current)
  stopped-Keeps ts current j t e = elim (Bool-cases (state_is is_running ts current)) [
    | inl r ↦ rw r (modify-Keeps ready ts current j t e)
    | inr r ↦ rw r (t.state, e)
  ]

  stopped_at :
      (ts : List (Task F S)) (current : ℕ) (old : Task F S)
      → get_elem? ts current ≡ some old
      → (old.state ≡ running
          → get_elem? (stopped ts current) current ≡ some (record old { state = ready }))
        × (old.state ≢ running → get_elem? (stopped ts current) current ≡ some old)
  stopped_at ts current old e = (
    λ r.
        let now : state_is is_running ts current ≡ true =
          state-get is_running ts current old e ∙ ap is_running r in
        rw now (get_elem?-modify (with_state ready) ts current old e),
    λ r.
        let now : state_is is_running ts current ≡ false =
          state-get is_running ts current old e ∙ not_running old.state r in
        rw now e,
  )
    where
      not_running : (s : TaskState) → s ≢ running → is_running s ≡ false
      not_running ready r = refl
      not_running running r = absurd (r refl)
      not_running sleeping r = refl
      not_running dead r = refl

  length-stopped : (ts : List (Task F S)) (current : ℕ) → length (stopped ts current) ≡ length ts
  length-stopped ts current = ground (arith, length-modify (with_state ready) ts current)

  switch_info_lem :
      (ts : List (Task F S)) (current next : ℕ) (old task : Task F S) (s : TaskState)
      → get_elem? ts current ≡ some (with_state s old)
      → get_elem? ts next ≡ some (with_state running task)
      → switch_info ts current next
        ≡ some (record {
          old_task = current;
          new_sp = task.stack_ptr;
          cr3_to_load = if old.cr3 == task.cr3 then 0 else task.cr3;
          kernel_stack = task.kernel_stack_top;
        })
  unfolding switch_info
  switch_info_lem ts current next old task s a b = rw (a, b, switch_info) refl

  switch_lem :
      (s : Scheduler F S) (next : ℕ)
      → IsValid s
      → Nearest s.tasks s.current 1 next
      → Switches s (
        switch_info (switched s.tasks s.current next) s.current next,
        record { tasks = switched s.tasks s.current next; current = next },
      )
  unfolding switched
  switch_lem s next v near =
      let (old, old_at) = get_elem?_total s.tasks s.current (current_below s v) in
      let (task, task_at) =
        get_elem?_total s.tasks next (state_below is_ready s.tasks next near.found) in
      let yielded = stopped s.tasks s.current in
      let (s1, task1) = stopped-Keeps s.tasks s.current next task task_at in
      let running_at : get_elem? (modify (with_state running) yielded next) next
          ≡ some (with_state running task) =
        get_elem?-modify (with_state running) yielded next (with_state s1 task) task1 in
      let (s2, old1) = stopped-Keeps s.tasks s.current s.current old old_at in
      let (s3, old2) = modify-Keeps running yielded next s.current (with_state s2 old) old1 in
      let (was_running, was_not) = stopped_at s.tasks s.current old old_at in
      record {
        next = next;
        old = old;
        task = task;
        nearest = near;
        old_at = old_at;
        task_at = task_at;
        was_ready =
            is_ready_only task.state
              (sym (state-get is_ready s.tasks next task task_at) ∙ near.found);
        becomes_current = refl;
        switches =
            switch_info_lem (modify (with_state running) yielded next) s.current next old task s3
              old2 running_at;
        same_length =
            length-modify (with_state running) yielded next ∙ length-stopped s.tasks s.current;
        runs = running_at;
        yields = λ other. (
          λ r. get-modify_ne (with_state running) yielded next s.current other ∙ was_running r,
          λ r. get-modify_ne (with_state running) yielded next s.current other ∙ was_not r,
        );
        others = λ j a b.
            get-modify_ne (with_state running) yielded next j (λ e. b (sym e))
            ∙ ground (arith, get-modify_ne (with_state ready) s.tasks s.current j (λ e. a (sym e)));
      }

  -- What `schedule` does with the queue that `reap_dead` leaves.
  pub record Schedules (tick : ℕ) (s : Scheduler F S) (result : Option Switch × Scheduler F S)
      : Type 0 where
    pub awake : List (Task F S)
    pub wakes : AllWake tick s.tasks awake
    pub decides :
        Switches (record s { tasks = awake }) result
        ⊎ ((result ≡ (none, record s { tasks = awake }))
            × ((j : ℕ) (t : Task F S) → get_elem? awake j ≡ some t → t.state ≢ ready))

  -- From a valid scheduler, `schedule` reaps the dead tasks, and of the others wakes those that
  -- sleep until its tick or earlier. Then it switches to the nearest ready task behind the current
  -- one in the cyclic order of the queue: that one runs and is current, the one that ran is ready,
  -- and no other task and no other field changes; the switch stores the stack pointer of the task
  -- that was current, and loads the stack pointer, the kernel stack, and, where they differ, the
  -- page table of the next. Where no task is ready it switches to none.
  pub schedule_lem :
      (tick : ℕ) (s : Scheduler F S) → IsValid s → Schedules tick (reap_dead s) (schedule tick s)
  unfolding schedule woken
  schedule_lem tick s v = record {
    awake = map (wake tick) (reap_dead s).tasks;
    wakes = woken-AllWake tick (reap_dead s).tasks;
    decides = decide (next_ready (woken tick (reap_dead s))) refl;
  }
    where
      decide :
          (o : Option ℕ)
          → next_ready (woken tick (reap_dead s)) ≡ o
          → Switches (woken tick (reap_dead s)) (schedule tick s)
            ⊎ ((schedule tick s ≡ (none, woken tick (reap_dead s)))
                × ((j : ℕ) (t : Task F S)
                    → get_elem? (woken tick (reap_dead s)).tasks j ≡ some t
                    → t.state ≢ ready))
      decide none e = inr (
        rw (e, schedule) refl,
        λ j t at is.
            let busy =
              next_ready-none (woken tick (reap_dead s)) j e
                (current_below (woken tick (reap_dead s)) (woken-IsValid tick s v))
                (get_elem?_lt (woken tick (reap_dead s)).tasks j at) in
            cc (
              sym (state-get is_ready (woken tick (reap_dead s)).tasks j t at) ∙ busy,
              ap is_ready is,
            ),
      )
      decide (some next) e = inl (
          rw (e, schedule)
            (switch_lem (woken tick (reap_dead s)) next (woken-IsValid tick s v)
              (next_ready-some (woken tick (reap_dead s)) next e)))
