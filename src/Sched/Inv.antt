-- ===== src/Sched/Inv.antt =====
-- The invariant of the scheduler of sched/mod.rs: there is a current task, and no other is running.
use vyper.Prelude.{
  ℕ, zero, suc, ◌≡◌, ◌<◌, refl, ap, sym, ◌∙◌, Bool, false, List, [], ◌∷◌, ◌++◌, map, if◌then◌else◌,
  length, arith, inl, inr, Bool-cases,
}
use mathlib.Core.Path.{subst}
use vyper.Sched.{Scheduler, reap_dead, state_is, modify, with_state, wake, woken}
use vyper.Sched.Task.{Task, TaskState, ready, running, is_dead, is_running}
use vyper.Sched.Reap.{alive, reap_dead_lem}

module _ {F S : Type 0} where
  abbrev pub NoneRunning : List (Task F S) → Type 0
  NoneRunning [] = Unit
  NoneRunning (t ∷ ts) = (is_running t.state ≡ false) × NoneRunning ts

pub record IsValid {F S : Type 0} (self : Scheduler F S) : Type 0 where
  pub front : List (Task F S)
  pub task : Task F S
  pub back : List (Task F S)
  pub split : self ≡ record { tasks = front ++ (task ∷ back); current = length front }
  pub front_idle : NoneRunning front
  pub back_idle : NoneRunning back

module _ {F S : Type 0} where
  idle_alive : (ts : List (Task F S)) → NoneRunning ts → NoneRunning (alive ts)
  idle_alive [] h = tt
  idle_alive (t ∷ ts) h = elim (Bool-cases (is_dead t.state)) [
    | inl d ↦ rw (d, alive) (idle_alive ts h.1)
    | inr d ↦ rw (d, alive) (h.0, idle_alive ts h.1)
  ]

  idle_wake :
      (tick : ℕ) (t : Task F S)
      → is_running t.state ≡ false
      → is_running (wake tick t).state ≡ false
  unfolding wake
  idle_wake tick t h = ground arith

  idle_woken : (tick : ℕ) (ts : List (Task F S)) → NoneRunning ts → NoneRunning (map (wake tick) ts)
  idle_woken tick [] h = tt
  idle_woken tick (t ∷ ts) h = (idle_wake tick t h.0, idle_woken tick ts h.1)

  pub idle_append :
      (xs ys : List (Task F S)) → NoneRunning xs → NoneRunning ys → NoneRunning (xs ++ ys)
  idle_append [] ys h k = k
  idle_append (x ∷ xs) ys h k = (h.0, idle_append xs ys h.1 k)

  map_append :
      (f : Task F S → Task F S) (xs ys : List (Task F S)) → map f (xs ++ ys) ≡ map f xs ++ map f ys
  map_append f [] ys = refl
  map_append f (x ∷ xs) ys = ap (λ r. f x ∷ r) (map_append f xs ys)

  length-map : (f : Task F S → Task F S) (xs : List (Task F S)) → length (map f xs) ≡ length xs
  length-map f [] = refl
  length-map f (x ∷ xs) = ap suc (length-map f xs)

  -- What `reap_dead` and the wake-ups leave.
  pub woken-IsValid :
      (tick : ℕ) (s : Scheduler F S) → IsValid s → IsValid (woken tick (reap_dead s))
  unfolding woken
  woken-IsValid tick s v = record {
    front = map (wake tick) (alive v.front);
    task = wake tick v.task;
    back = map (wake tick) (alive v.back);
    split =
        ap (λ r. woken tick (reap_dead r)) v.split
        ∙ (ap (woken tick) (reap_dead_lem v.front v.task v.back) ∙ parts v.front v.back);
    front_idle = idle_woken tick (alive v.front) (idle_alive v.front v.front_idle);
    back_idle = idle_woken tick (alive v.back) (idle_alive v.back v.back_idle);
  }
    where
      parts :
          (front back : List (Task F S))
          → woken tick (record {
            tasks = alive front ++ (v.task ∷ alive back);
            current = length (alive front);
          })
            ≡ record {
              tasks =
                  map (wake tick) (alive front)
                  ++ (wake tick v.task ∷ map (wake tick) (alive back));
              current = length (map (wake tick) (alive front));
            }
      parts front back =
          ap (λ ts. record { tasks = ts; current = length (alive front) })
            (map_append (wake tick) (alive front) (v.task ∷ alive back))
          ∙ ap
              (λ n. record {
                tasks =
                    map (wake tick) (alive front)
                    ++ (wake tick v.task ∷ map (wake tick) (alive back));
                current = n;
              })
              (sym (length-map (wake tick) (alive front)))

  pub modify_behind :
      (f : Task F S → Task F S) (xs : List (Task F S)) (t : Task F S) (ys : List (Task F S))
      → modify f (xs ++ (t ∷ ys)) (length xs) ≡ xs ++ (f t ∷ ys)
  modify_behind f [] t ys = refl
  modify_behind f (x ∷ xs) t ys = ap (λ r. x ∷ r) (modify_behind f xs t ys)

  pub state_behind :
      (test : TaskState → Bool) (xs : List (Task F S)) (t : Task F S) (ys : List (Task F S))
      → state_is test (xs ++ (t ∷ ys)) (length xs) ≡ test t.state
  state_behind test [] t ys = refl
  state_behind test (x ∷ xs) t ys = state_behind test xs t ys

  -- A list around an index.
  pub record Around (ts : List (Task F S)) (i : ℕ) : Type 0 where
    pub before : List (Task F S)
    pub at : Task F S
    pub after : List (Task F S)
    pub whole : ts ≡ before ++ (at ∷ after)
    pub index : length before ≡ i

  pub around : (ts : List (Task F S)) (i : ℕ) → i < length ts → Around ts i
  around [] i h = absurd (omega arith)
  around (t ∷ ts) zero h = record { before = []; at = t; after = ts; whole = refl; index = refl }
  around (t ∷ ts) (suc i) h =
      let r = around ts i (omega arith) in
      record {
        before = t ∷ r.before;
        at = r.at;
        after = r.after;
        whole = ap (λ q. t ∷ q) r.whole;
        index = ap suc r.index;
      }

  idle_parts :
      (xs : List (Task F S)) (t : Task F S) (ys : List (Task F S))
      → NoneRunning (xs ++ (t ∷ ys))
      → NoneRunning xs × NoneRunning ys
  idle_parts [] t ys h = (tt, h.1)
  idle_parts (x ∷ xs) t ys h = let r = idle_parts xs t ys h.1 in ((h.0, r.0), r.1)

  -- Running the task at an index of a queue in which none is running.
  pub run_one :
      (ts : List (Task F S)) (next : ℕ)
      → NoneRunning ts
      → next < length ts
      → IsValid (record { tasks = modify (with_state running) ts next; current = next })
  run_one ts next idle h =
      let a = around ts next h in
      let (b, c) = idle_parts a.before a.at a.after (subst NoneRunning a.whole idle) in
      record {
        front = a.before;
        task = with_state running a.at;
        back = a.after;
        split =
            ap (λ q. record { tasks = modify (with_state running) q next; current = next }) a.whole
            ∙ (ap
                  (λ n. record {
                    tasks = modify (with_state running) (a.before ++ (a.at ∷ a.after)) n;
                    current = n;
                  })
                  (sym a.index)
                ∙ ap (λ q. record { tasks = q; current = length a.before })
                    (modify_behind (with_state running) a.before a.at a.after));
        front_idle = b;
        back_idle = c;
      }

  -- Stopping the current task.
  pub stopped :
      (front : List (Task F S)) (t : Task F S) (back : List (Task F S))
      → NoneRunning front
      → NoneRunning back
      → NoneRunning (
          if state_is is_running (front ++ (t ∷ back)) (length front)
          then modify (with_state ready) (front ++ (t ∷ back)) (length front)
          else front ++ (t ∷ back))
  stopped front t back f b =
      rw (state_behind is_running front t back, modify_behind (with_state ready) front t back)
        (elim (Bool-cases (is_running t.state)) [
          | inl r ↦ rw r (idle_append front (with_state ready t ∷ back) f (refl, b))
          | inr r ↦ rw r (idle_append front (t ∷ back) f (r, b))
        ])
