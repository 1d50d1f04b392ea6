-- ===== src/Syscall/Line.antt =====
-- What a read of standard input gives: the wait and the loop of vcore/src/cpu/syscall.rs against
-- the queue of waiting characters.
use vyper.Prelude.{
  ℕ, zero, suc, ◌<◌, ◌≤◌, ◌≡◌, ◌≢◌, ◌⊎◌, inl, inr, refl, ap, sym, ◌∙◌, none, some, List, [], ◌∷◌,
  ◌++◌, Bytes, arith, length, get_or, Bool-cases, Option-cases, ◌==◌,
}
use vyper.Keyboard.{Keyboard, read_char}
use vyper.Keyboard.Inv.{IsValid}
use vyper.Keyboard.Refine.{contents, dequeue}
use vyper.Keyboard.Spec.{read_char-IsValid}
use vyper.Keyboard.Waiting.{read_char_lem}
use vyper.Syscall.Input.{Batches, newline, arrived, read_keys, read_stdin}
use vyper.Syscall.Arrive.{arrive-IsValid, arrive_nonempty, Silent, FirstKey, wait_lem}

-- What the loop reads from a keyboard at which a character waits.
pub record Reads (len : ℕ) (kb : Keyboard) (batches : Batches) (line : Bytes) (kb' : Keyboard)
    : Type 0 where
  pub valid : IsValid kb'
  pub bounded : length line ≤ len
  pub some_read : len ≢ 0 → contents kb ≢ [] → line ≢ []
  -- Only its last character can end a line.
  pub one_line : (i : ℕ) → suc i < length line → get_or line i 0 ≢ newline
  -- It is short only at the end of a line, or with no character left.
  pub complete :
      length line < len
      → ((i : ℕ) × (length line ≡ suc i) × (get_or line i 0 ≡ newline)) ⊎ (contents kb' ≡ [])
  -- With no key in between, the line is taken off the front of the queue.
  pub taken : batches ≡ [] → contents kb ≡ line ++ contents kb'

nothing_dequeued : (q q' : List ℕ) → (none, q') ≡ dequeue q → (q ≡ []) × (q' ≡ [])
nothing_dequeued [] q' e = (refl, ap (λ t. t.1) e)
nothing_dequeued (c ∷ q) q' e = cc

one_dequeued : (q q' : List ℕ) (c : ℕ) → (some c, q') ≡ dequeue q → q ≡ c ∷ q'
one_dequeued [] q' c e = cc
one_dequeued (d ∷ q) q' c e = cc

arrived-IsValid : (kb : Keyboard) (batches : Batches) → IsValid kb → IsValid (arrived kb batches).0
arrived-IsValid kb [] v = v
arrived-IsValid kb (batch ∷ batches) v = arrive-IsValid kb batch v

arrived_nonempty :
    (kb : Keyboard) (batches : Batches)
    → IsValid kb
    → contents kb ≢ []
    → contents (arrived kb batches).0 ≢ []
arrived_nonempty kb [] v h = h
arrived_nonempty kb (batch ∷ batches) v h = arrive_nonempty kb batch v h

-- With no batch left the keyboard is as it was.
arrived_none :
    (kb : Keyboard) (batches : Batches)
    → batches ≡ []
    → ((arrived kb batches).0 ≡ kb) × ((arrived kb batches).1 ≡ [])
arrived_none kb [] e = (refl, refl)
arrived_none kb (batch ∷ batches) e = cc

abbrev ReadsResult : ℕ → Keyboard → Batches → Bytes × Keyboard × Batches → Type 0
ReadsResult len kb batches (line, kb', later) = Reads len kb batches line kb'

stops_empty :
    (n : ℕ) (kb kb' : Keyboard) (batches : Batches)
    → IsValid kb
    → IsValid kb'
    → contents (arrived kb batches).0 ≡ []
    → contents kb' ≡ []
    → Reads (suc n) kb batches [] kb'
stops_empty n kb kb' batches v v' before after = record {
  valid = v';
  bounded = omega arith;
  some_read = λ pos waiting. absurd (arrived_nonempty kb batches v waiting before);
  one_line = λ i h. absurd (omega arith);
  complete = λ short. inr after;
  taken = λ none_left. ap contents (sym (arrived_none kb batches none_left).0) ∙ before ∙ sym after;
}

stops_line :
    (n c : ℕ) (kb kb' : Keyboard) (batches : Batches)
    → IsValid kb'
    → c ≡ newline
    → contents (arrived kb batches).0 ≡ c ∷ contents kb'
    → Reads (suc n) kb batches (c ∷ []) kb'
stops_line n c kb kb' batches v' end before = record {
  valid = v';
  bounded = omega arith;
  some_read = λ pos waiting e. cc;
  one_line = λ i h. absurd (omega arith);
  complete = λ short. inl (0, refl, end);
  taken = λ none_left. ap contents (sym (arrived_none kb batches none_left).0) ∙ before;
}

goes_on :
    (n c : ℕ) (kb kb' kb'' : Keyboard) (batches : Batches) (rest : Bytes)
    → c ≢ newline
    → contents (arrived kb batches).0 ≡ c ∷ contents kb'
    → Reads n kb' (arrived kb batches).1 rest kb''
    → Reads (suc n) kb batches (c ∷ rest) kb''
goes_on n c kb kb' kb'' batches rest inner before r = record {
  valid = r.valid;
  bounded = omega (arith, r.bounded);
  some_read = λ pos waiting e. cc;
  one_line = lines;
  complete = done;
  taken = λ none_left.
      ap contents (sym (arrived_none kb batches none_left).0)
      ∙ before
      ∙ ap (λ q. c ∷ q) (r.taken (arrived_none kb batches none_left).1);
}
  where
    lines : (i : ℕ) → suc i < length (c ∷ rest) → get_or (c ∷ rest) i 0 ≢ newline
    lines zero h = inner
    lines (suc i) h = r.one_line i (omega arith)

    done :
        length (c ∷ rest) < suc n
        → ((i : ℕ) × (length (c ∷ rest) ≡ suc i) × (get_or (c ∷ rest) i 0 ≡ newline))
          ⊎ (contents kb'' ≡ [])
    done short = elim (r.complete (omega arith)) [
      | inl (i, size, end) ↦ inl (suc i, ap suc size, end)
      | inr empty ↦ inr empty
    ]

read_keys_lem :
    (len : ℕ) (kb : Keyboard) (batches : Batches)
    → IsValid kb
    → ReadsResult len kb batches (read_keys len kb batches)
unfolding read_keys
read_keys_lem zero kb batches v = record {
  valid = v;
  bounded = omega arith;
  some_read = λ pos waiting e. pos refl;
  one_line = λ i h. absurd (omega arith);
  complete = λ short. absurd (omega arith);
  taken = λ none_left. refl;
}
read_keys_lem (suc n) kb batches v =
    let now = (arrived kb batches).0 in
    let vnow : IsValid now = arrived-IsValid kb batches v in
    let after = (read_char now).1 in
    let vafter : IsValid after = read_char-IsValid now vnow in
    let took = read_char_lem now vnow in
    elim (Option-cases (read_char now).0) [
      | inl e ↦
          let (before, empty) =
            nothing_dequeued (contents now) (contents after)
              (ap (λ o. (o, contents after)) (sym e) ∙ took) in
          rw (e, read_keys) (stops_empty n kb after batches v vafter before empty)
      | inr (c, e) ↦
          let before =
            one_dequeued (contents now) (contents after) c
              (ap (λ o. (o, contents after)) (sym e) ∙ took) in
          elim (Bool-cases (c == newline)) [
            | inl end ↦
                rw (e, end, read_keys)
                  (stops_line n c kb after batches vafter (ground arith) before)
            | inr inner ↦
                rw (e, inner, read_keys)
                  (goes_on n c kb after (read_keys n after (arrived kb batches).1).1 batches
                    (read_keys n after (arrived kb batches).1).0 (ground arith) before
                    (read_keys_lem n after (arrived kb batches).1 vafter))
          ]
    ]

-- A read of standard input either waits for ever, and then the keyboard never gets a character; or
-- it waits for the first character, and then returns a part of one line of at most `len` bytes:
-- some byte where `len` is not 0, no byte behind the end of the line, and fewer than `len` only at
-- the end of the line or once no character waits. With no key in between, these bytes are taken
-- off the front of the queue. The keyboard stays valid.
pub read_stdin_lem :
    (len : ℕ) (kb : Keyboard) (batches : Batches)
    → IsValid kb
    → (Silent kb batches × (read_stdin len kb batches ≡ none))
      ⊎ ((at : Keyboard) × (later : Batches) × FirstKey kb batches at later
          × (line : Bytes) × (kb' : Keyboard) × (rest : Batches) × (read_stdin len kb batches
              ≡ some (line, kb', rest))
          × Reads len at later line kb')
unfolding read_stdin
read_stdin_lem len kb batches v = elim (wait_lem kb batches v) [
  | inl (silent, e) ↦ inl (silent, rw (e, read_stdin) refl)
  | inr (at, later, first, valid, e) ↦ inr (
    at,
    later,
    first,
    (read_keys len at later).0,
    (read_keys len at later).1,
    (read_keys len at later).2,
    rw (e, read_stdin) refl,
    read_keys_lem len at later valid,
  )
]
