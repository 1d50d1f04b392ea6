-- ===== src/Sched/RoundRobin.antt =====
-- `next_ready` of sched/mod.rs takes the next ready task in the order of the queue.
use vyper.Prelude.{
  ℕ, zero, suc, ◌+◌, ◌-◌, ◌%◌, ◌≡◌, ◌<◌, ◌≤◌, ap, sym, ◌∙◌, true, false, none, some, List, ◌==◌,
  leb, length, arith, inl, inr, Bool-cases,
}
use native.Mathlib.Nat.{mod-eq_of_lt, add-mod_left}
use vyper.Sched.{Scheduler, state_is, next_ready, scan}
use vyper.Sched.Task.{Task, is_ready}

-- Every place of the queue is at a distance.
distance_of :
    (current n j : ℕ) → current < n → j < n → (d : ℕ) × (1 ≤ d) × (d ≤ n) × ((current + d) % n ≡ j)
distance_of current n j h k = elim (Bool-cases (leb (suc current) j)) [
  | inl later ↦
      (j - current, ground arith, ground arith, ap (λ m. m % n) (forward later) ∙ mod-eq_of_lt k)
  | inr earlier ↦ (
    n + j - current,
    ground arith,
    ground arith,
    ap (λ m. m % n) (around earlier) ∙ (add-mod_left n j ∙ mod-eq_of_lt k),
  )
]
  where
    forward : leb (suc current) j ≡ true → current + (j - current) ≡ j
    forward later = ground arith

    around : leb (suc current) j ≡ false → current + (n + j - current) ≡ n + j
    around earlier = ground arith

module _ {F S : Type 0} where
  -- The first ready task at a distance from `from` on.
  pub record Nearest (tasks : List (Task F S)) (current from next : ℕ) : Type 0 where
    pub distance : ℕ
    pub far : from ≤ distance
    pub near : distance ≤ length tasks
    pub place : next ≡ (current + distance) % length tasks
    pub found : state_is is_ready tasks next ≡ true
    pub skipped :
        (k : ℕ)
        → from ≤ k
        → k < distance
        → state_is is_ready tasks ((current + k) % length tasks) ≡ false

  scan-some :
      (tasks : List (Task F S)) (current i n next : ℕ)
      → i + n ≡ suc (length tasks)
      → scan tasks current i n ≡ some next
      → Nearest tasks current i next
  unfolding scan
  scan-some tasks current i zero next l e = absurd cc
  scan-some tasks current i (suc n) next l e =
      elim (Bool-cases (state_is is_ready tasks ((current + i) % length tasks))) [
        | inl is ↦
            let here : (current + i) % length tasks ≡ next = ground arith in
            record {
              distance = i;
              far = omega arith;
              near = omega arith;
              place = sym here;
              found = ap (state_is is_ready tasks) (sym here) ∙ is;
              skipped = λ k a b. absurd (omega arith);
            }
        | inr busy ↦
            let r = scan-some tasks current (suc i) n next (omega arith) (ground arith) in
            record {
              distance = r.distance;
              far = omega (arith, r.far);
              near = r.near;
              place = r.place;
              found = r.found;
              skipped = λ k a b. elim (Bool-cases (k == i)) [
                | inl same ↦
                    ap (λ m. state_is is_ready tasks ((current + m) % length tasks)) (ground arith)
                    ∙ busy
                | inr other ↦ r.skipped k (ground arith) b
              ];
            }
      ]

  scan-none :
      (tasks : List (Task F S)) (current i n k : ℕ)
      → scan tasks current i n ≡ none
      → i ≤ k
      → k < i + n
      → state_is is_ready tasks ((current + k) % length tasks) ≡ false
  unfolding scan
  scan-none tasks current i zero k e a b = absurd (omega arith)
  scan-none tasks current i (suc n) k e a b =
      elim (Bool-cases (state_is is_ready tasks ((current + i) % length tasks))) [
        | inl is ↦ ground arith
        | inr busy ↦ elim (Bool-cases (k == i)) [
          | inl same ↦
              ap (λ m. state_is is_ready tasks ((current + m) % length tasks)) (ground arith) ∙ busy
          | inr other ↦
              scan-none tasks current (suc i) n k (ground arith) (ground arith) (omega arith)
        ]
      ]

  pub next_ready-some :
      (s : Scheduler F S) (next : ℕ) → next_ready s ≡ some next → Nearest s.tasks s.current 1 next
  unfolding next_ready
  next_ready-some s next e = scan-some s.tasks s.current 1 (length s.tasks) next (omega arith) e

  pub next_ready-none :
      (s : Scheduler F S) (j : ℕ)
      → next_ready s ≡ none
      → s.current < length s.tasks
      → j < length s.tasks
      → state_is is_ready s.tasks j ≡ false
  unfolding next_ready
  next_ready-none s j e h k =
      let (d, one, far, at) = distance_of s.current (length s.tasks) j h k in
      ap (state_is is_ready s.tasks) (sym at)
      ∙ scan-none s.tasks s.current 1 (length s.tasks) d e one (omega arith)
