-- ===== src/Sched/Reap.antt =====
-- `reap_dead` of sched/mod.rs removes while it walks down; here it is a filter.
use vyper.Prelude.{
  ℕ, suc, ◌+◌, ◌-◌, ◌≡◌, ◌≢◌, ◌<◌, refl, ap, sym, ◌∙◌, Bool, false, List, [], ◌∷◌, ◌++◌,
  if◌then◌else◌, ltb, ◌==◌, length, erase_idx, arith, inl, inr, Bool-cases, length-append, ==_self,
}
use vyper.Sched.{Scheduler, reap_at, reap_below, reap_dead, state_is}
use vyper.Sched.Task.{Task, TaskState, is_dead}

-- The current index after a round at `i` that removes the task there.
abbrev moved : ℕ → ℕ → ℕ
moved current i = if ltb i current then current - 1 else current

module _ {F S : Type 0} where
  -- The tasks that are not dead, in their order.
  abbrev pub alive : List (Task F S) → List (Task F S)
  alive [] = []
  alive (t ∷ ts) = let rest = alive ts in if is_dead t.state then rest else t ∷ rest

  snoc-append :
      (p : List (Task F S)) (t : Task F S) (zs : List (Task F S))
      → (p ++ (t ∷ [])) ++ zs ≡ p ++ (t ∷ zs)
  snoc-append [] t zs = refl
  snoc-append (q ∷ p) t zs = ap (λ r. q ∷ r) (snoc-append p t zs)

  erase_behind :
      (p : List (Task F S)) (t : Task F S) (zs : List (Task F S))
      → erase_idx (p ++ (t ∷ zs)) (length p) ≡ p ++ zs
  erase_behind [] t zs = refl
  erase_behind (q ∷ p) t zs = ap (λ r. q ∷ r) (erase_behind p t zs)

  state_behind :
      (test : TaskState → Bool) (p : List (Task F S)) (t : Task F S) (zs : List (Task F S))
      → state_is test (p ++ (t ∷ zs)) (length p) ≡ test t.state
  state_behind test [] t zs = refl
  state_behind test (q ∷ p) t zs = state_behind test p t zs

  -- A round at a task other than the current one.
  reap_at_lem :
      (p : List (Task F S)) (t : Task F S) (zs : List (Task F S)) (c : ℕ)
      → c ≢ length p
      → reap_at (record { tasks = p ++ (t ∷ zs); current = c }) (length p) ≡ (
          if is_dead t.state
          then record { tasks = p ++ zs; current = moved c (length p) }
          else record { tasks = p ++ (t ∷ zs); current = c })
  reap_at_lem p t zs c other =
      rw (differs other, state_behind is_dead p t zs, erase_behind p t zs) refl
    where
      differs : c ≢ length p → (length p == c) ≡ false
      differs h = ground arith

  abbrev run : List (Task F S) → ℕ → ℕ → Scheduler F S
  run tasks c n = reap_below (record { tasks = tasks; current = c }) n

  run_eq : (ts : List (Task F S)) (c c' n n' : ℕ) → c ≡ c' → n ≡ n' → run ts c n ≡ run ts c' n'
  run_eq ts c c' n n' h k = ap (λ c. run ts c n) h ∙ ap (λ n. run ts c' n) k

  next_length :
      (p : List (Task F S)) (t : Task F S) (n : ℕ) → length (p ++ (t ∷ [])) + n ≡ length p + suc n
  next_length p t n = omega (arith, length-append p (t ∷ []))

  -- The round at the first task of a region.
  run_first :
      (p : List (Task F S)) (t : Task F S) (zs : List (Task F S)) (c : ℕ)
      → c ≢ length p
      → run (p ++ (t ∷ zs)) c (suc (length p)) ≡ (
          if is_dead t.state
          then run (p ++ zs) (moved c (length p)) (length p)
          else run (p ++ (t ∷ zs)) c (length p))
  unfolding reap_below
  run_first p t zs c other =
      ap (λ s. reap_below s (length p)) (reap_at_lem p t zs c other) ∙ ground arith

  -- The rounds before it.
  run_rest :
      (p xs : List (Task F S)) (t : Task F S) (ys zs : List (Task F S)) (c c' : ℕ)
      → run ((p ++ (t ∷ [])) ++ (xs ++ ys)) c (length (p ++ (t ∷ [])) + length xs)
        ≡ run ((p ++ (t ∷ [])) ++ zs) c' (length (p ++ (t ∷ [])) + 0)
      → run (p ++ (t ∷ (xs ++ ys))) c (length p + suc (length xs))
        ≡ run (p ++ (t ∷ zs)) c' (suc (length p))
  run_rest p xs t ys zs c c' h =
      ap (λ n. run (p ++ (t ∷ (xs ++ ys))) c n) (sym (next_length p t (length xs)))
      ∙ (ap (λ ts. run ts c (length (p ++ (t ∷ [])) + length xs)) (sym (snoc-append p t (xs ++ ys)))
          ∙ (h
              ∙ (ap (λ ts. run ts c' (length (p ++ (t ∷ [])) + 0)) (snoc-append p t zs)
                  ∙ ap (λ n. run (p ++ (t ∷ zs)) c' n) (next_length p t 0 ∙ omega arith))))

  -- The rounds over a region behind the current task.
  reap_back :
      (p xs ys : List (Task F S)) (c : ℕ)
      → c < length p
      → run (p ++ (xs ++ ys)) c (length p + length xs)
        ≡ run (p ++ (alive xs ++ ys)) c (length p + 0)
  reap_back p [] ys c h = refl
  reap_back p (t ∷ xs) ys c h =
      run_rest p xs t ys (alive xs ++ ys) c c
        (reap_back (p ++ (t ∷ [])) xs ys c (omega (arith, length-append p (t ∷ []))))
      ∙ (run_first p t (alive xs ++ ys) c (omega arith) ∙ elim (Bool-cases (is_dead t.state)) [
        | inl d ↦ rw d (run_eq (p ++ (alive xs ++ ys)) _ _ _ _ (ground arith) (omega arith))
        | inr d ↦ rw d (run_eq (p ++ (t ∷ (alive xs ++ ys))) _ _ _ _ refl (omega arith))
      ])

  -- The rounds over a region before the current task, which is `k` behind its end.
  reap_front :
      (p xs ys : List (Task F S)) (k c : ℕ)
      → c ≡ length p + length xs + k
      → run (p ++ (xs ++ ys)) c (length p + length xs)
        ≡ run (p ++ (alive xs ++ ys)) (length p + length (alive xs) + k) (length p + 0)
  reap_front p [] ys k c h = ap (λ c. run (p ++ ys) c (length p + 0)) h
  reap_front p (t ∷ xs) ys k c h =
      run_rest p xs t ys (alive xs ++ ys) c (length (p ++ (t ∷ [])) + length (alive xs) + k)
        (reap_front (p ++ (t ∷ [])) xs ys k c (omega (arith, length-append p (t ∷ []))))
      ∙ (run_first p t (alive xs ++ ys) _ (omega (arith, length-append p (t ∷ [])))
          ∙ elim (Bool-cases (is_dead t.state)) [
            | inl d ↦ rw d (
                run_eq (p ++ (alive xs ++ ys)) _ _ _ _ (ground (arith, length-append p (t ∷ [])))
                  (omega arith))
            | inr d ↦ rw d (
                run_eq (p ++ (t ∷ (alive xs ++ ys))) _ _ _ _
                  (omega (arith, length-append p (t ∷ []))) (omega arith))
          ])

  append-nil : (xs : List (Task F S)) → xs ++ [] ≡ xs
  append-nil [] = refl
  append-nil (x ∷ xs) = ap (λ r. x ∷ r) (append-nil xs)

  reap_stays :
      (ts : List (Task F S)) (c : ℕ)
      → reap_at (record { tasks = ts; current = c }) c ≡ record { tasks = ts; current = c }
  reap_stays ts c = rw (==_self c) refl

  -- The current task stays where it is.
  run_current : (ts : List (Task F S)) (c : ℕ) → run ts c (suc c) ≡ run ts c c
  unfolding reap_below
  run_current ts c = ap (λ s. reap_below s c) (reap_stays ts c)

  run_done :
      (ts : List (Task F S)) (c c' n : ℕ)
      → c ≡ c'
      → n ≡ 0
      → run ts c n ≡ record { tasks = ts; current = c' }
  unfolding reap_below
  run_done ts c c' n h e = run_eq ts c c' n 0 h e

  -- The tasks behind the current one.
  run_back :
      (front : List (Task F S)) (task : Task F S) (back : List (Task F S))
      → run (front ++ (task ∷ back)) (length front) (length (front ++ (task ∷ back)))
        ≡ run (front ++ (task ∷ alive back)) (length front) (suc (length front))
  run_back front task back =
      let p = front ++ (task ∷ []) in
      let c = length front in
      let tasks : (xs : List (Task F S)) → p ++ (xs ++ []) ≡ front ++ (task ∷ xs) =
        λ xs. ap (λ r. p ++ r) (append-nil xs) ∙ snoc-append front task xs in
      let behind : c < length p = omega (arith, length-append front (task ∷ [])) in
      run_eq (front ++ (task ∷ back)) c c _ (length p + length back) refl
        (omega (arith, length-append front (task ∷ []), length-append front (task ∷ back)))
      ∙ (ap (λ ts. run ts c (length p + length back)) (sym (tasks back))
          ∙ (reap_back p back [] c behind
              ∙ (ap (λ ts. run ts c (length p + 0)) (tasks (alive back))
                  ∙ run_eq _ c c _ _ refl (omega (arith, length-append front (task ∷ []))))))

  -- `reap_dead` removes all and only the dead tasks other than the current one, in one pass that
  -- keeps their order, and the index of the current task follows it.
  pub reap_dead_lem :
      (front : List (Task F S)) (task : Task F S) (back : List (Task F S))
      → reap_dead (record { tasks = front ++ (task ∷ back); current = length front })
        ≡ record { tasks = alive front ++ (task ∷ alive back); current = length (alive front) }
  unfolding reap_dead
  reap_dead_lem front task back =
      run_back front task back
      ∙ (run_current (front ++ (task ∷ alive back)) (length front)
          ∙ (run_eq (front ++ (task ∷ alive back)) _ _ _ (0 + length front) refl (omega arith)
              ∙ (reap_front [] front (task ∷ alive back) 0 (length front) (omega arith)
                  ∙ run_done (alive front ++ (task ∷ alive back)) _ _ _ (omega arith)
                      (omega arith))))
