-- ===== src/Sched/Schedule.antt =====
-- `schedule` of sched/mod.rs: what it decides, and that it keeps the invariant.
use vyper.Prelude.{
  ℕ, zero, suc, ◌≡◌, ◌≢◌, ◌<◌, refl, ap, sym, Bool, true, Option, none, some, List, [], ◌∷◌,
  if◌then◌else◌, length, get_elem?, arith, length-append,
}
use mathlib.Core.Path.{subst}
use mathlib.Core.Option.{some-injective}
use vyper.Sched.{
  Scheduler, reap_dead, state_is, modify, with_state, woken, switched, schedule, next_ready,
}
use vyper.Sched.Task.{Task, TaskState, ready, is_running, is_ready}
use vyper.Sched.Inv.{IsValid, NoneRunning, woken-IsValid, run_one, stopped}
use vyper.Sched.RoundRobin.{next_ready-some}

module _ {F S : Type 0} where
  abbrev at_time : ℕ → Scheduler F S → Scheduler F S
  at_time tick s = woken tick (reap_dead s)

  pub current_below : (s : Scheduler F S) → IsValid s → s.current < length s.tasks
  current_below s v = ground (
    arith,
    ap (λ r. r.current) v.split,
    ap (λ r. length r.tasks) v.split,
    length-append v.front (v.task ∷ v.back),
  )

  pub length-modify :
      (f : Task F S → Task F S) (ts : List (Task F S)) (i : ℕ) → length (modify f ts i) ≡ length ts
  length-modify f [] i = refl
  length-modify f (t ∷ ts) zero = refl
  length-modify f (t ∷ ts) (suc i) = ap suc (length-modify f ts i)

  pub state_below :
      (test : TaskState → Bool) (ts : List (Task F S)) (i : ℕ)
      → state_is test ts i ≡ true
      → i < length ts
  state_below test [] i e = absurd cc
  state_below test (t ∷ ts) zero e = omega arith
  state_below test (t ∷ ts) (suc i) e = omega (arith, state_below test ts i e)

  state-modify_ne :
      (test : TaskState → Bool) (f : Task F S → Task F S) (ts : List (Task F S)) (i j : ℕ)
      → i ≢ j
      → state_is test (modify f ts i) j ≡ state_is test ts j
  state-modify_ne test f [] i j h = refl
  state-modify_ne test f (t ∷ ts) zero zero h = absurd (h refl)
  state-modify_ne test f (t ∷ ts) zero (suc j) h = refl
  state-modify_ne test f (t ∷ ts) (suc i) zero h = refl
  state-modify_ne test f (t ∷ ts) (suc i) (suc j) h =
      state-modify_ne test f ts i j (λ e. h (ap suc e))

  pub get_elem?-modify :
      (f : Task F S → Task F S) (ts : List (Task F S)) (i : ℕ) (t : Task F S)
      → get_elem? ts i ≡ some t
      → get_elem? (modify f ts i) i ≡ some (f t)
  get_elem?-modify f [] i t e = cc
  get_elem?-modify f (x ∷ ts) zero t e = ap (λ u. some (f u)) (some-injective x t e)
  get_elem?-modify f (x ∷ ts) (suc i) t e = get_elem?-modify f ts i t e

  pub get-modify_ne :
      (f : Task F S → Task F S) (ts : List (Task F S)) (i j : ℕ)
      → i ≢ j
      → get_elem? (modify f ts i) j ≡ get_elem? ts j
  get-modify_ne f [] i j h = refl
  get-modify_ne f (t ∷ ts) zero zero h = absurd (h refl)
  get-modify_ne f (t ∷ ts) zero (suc j) h = refl
  get-modify_ne f (t ∷ ts) (suc i) zero h = refl
  get-modify_ne f (t ∷ ts) (suc i) (suc j) h = get-modify_ne f ts i j (λ e. h (ap suc e))

  state-modify_self :
      (test : TaskState → Bool) (s : TaskState) (ts : List (Task F S)) (i : ℕ)
      → i < length ts
      → state_is test (modify (with_state s) ts i) i ≡ test s
  state-modify_self test s [] i h = absurd (omega arith)
  state-modify_self test s (t ∷ ts) zero h = refl
  state-modify_self test s (t ∷ ts) (suc i) h = state-modify_self test s ts i (omega arith)

  -- The tasks after a switch: the next one runs, and no other does.
  switched-IsValid :
      (s : Scheduler F S) (next : ℕ)
      → IsValid s
      → next < length s.tasks
      → IsValid (record { tasks = switched s.tasks s.current next; current = next })
  unfolding switched
  switched-IsValid s next v h =
      run_one _ next (ground_stopped s v)
        (ground (arith, length-modify (with_state ready) s.tasks s.current))
    where
      ground_stopped :
          (s : Scheduler F S)
          → IsValid s
          → NoneRunning (
              if state_is is_running s.tasks s.current
              then modify (with_state ready) s.tasks s.current
              else s.tasks)
      ground_stopped s v =
          subst
            (λ r. NoneRunning (
              if state_is is_running r.tasks r.current
              then modify (with_state ready) r.tasks r.current
              else r.tasks))
            (sym v.split) (stopped v.front v.task v.back v.front_idle v.back_idle)

  -- From a valid scheduler, `schedule` leaves a valid one: there is a current task, and no other
  -- is running.
  pub schedule-IsValid : (tick : ℕ) (s : Scheduler F S) → IsValid s → IsValid (schedule tick s).1
  unfolding schedule
  schedule-IsValid tick s v = go (next_ready (at_time tick s)) refl
    where
      go : (o : Option ℕ) → next_ready (at_time tick s) ≡ o → IsValid (schedule tick s).1
      go none e = rw (e, schedule) (woken-IsValid tick s v)
      go (some next) e =
          let near = next_ready-some (at_time tick s) next e in
          rw (e, schedule)
            (switched-IsValid (at_time tick s) next (woken-IsValid tick s v)
              (state_below is_ready (at_time tick s).tasks next near.found))
