-- ===== src/Syscall/Arrive.antt =====
-- The scan codes that arrive, and the wait for the first character, in the reads of standard input
-- of vcore/src/cpu/syscall.rs.
use vyper.Prelude.{ℕ, ◌≡◌, ◌≢◌, ◌⊎◌, inl, inr, refl, Option, none, some, List, [], ◌∷◌, Bool-cases}
use vyper.Keyboard.{Keyboard, handle_scancode, has_input}
use vyper.Keyboard.Inv.{IsValid, handle_scancode-IsValid}
use vyper.Keyboard.Refine.{contents}
use vyper.Keyboard.Waiting.{has_input-contents, no_input-contents, handle_scancode_nonempty}
use vyper.Syscall.Input.{Batches, arrive, wait}

pub arrive-IsValid : (kb : Keyboard) (codes : List ℕ) → IsValid kb → IsValid (arrive kb codes)
unfolding arrive
arrive-IsValid kb [] v = v
arrive-IsValid kb (sc ∷ codes) v =
    arrive-IsValid (handle_scancode kb sc) codes (handle_scancode-IsValid kb sc v)

pub arrive_nonempty :
    (kb : Keyboard) (codes : List ℕ)
    → IsValid kb
    → contents kb ≢ []
    → contents (arrive kb codes) ≢ []
unfolding arrive
arrive_nonempty kb [] v h = h
arrive_nonempty kb (sc ∷ codes) v h =
    arrive_nonempty (handle_scancode kb sc) codes (handle_scancode-IsValid kb sc v)
      (handle_scancode_nonempty kb sc v h)

-- No batch ever brings a character.
abbrev pub Silent : Keyboard → Batches → Type 0
Silent kb [] = contents kb ≡ []
Silent kb (batch ∷ batches) = (contents (arrive kb batch) ≡ []) × Silent (arrive kb batch) batches

-- The first access of the keyboard at which a character waits, and the batches after it.
abbrev pub FirstKey : Keyboard → Batches → Keyboard → Batches → Type 0
FirstKey kb [] at later = (at ≡ kb) × (later ≡ []) × (contents at ≢ [])
FirstKey kb (batch ∷ batches) at later =
    ((at ≡ arrive kb batch) × (later ≡ batches) × (contents at ≢ []))
    ⊎ ((contents (arrive kb batch) ≡ []) × FirstKey (arrive kb batch) batches at later)

abbrev pub Waits : Keyboard → Batches → Option (Keyboard × Batches) → Type 0
Waits kb batches r =
    (Silent kb batches × (r ≡ none))
    ⊎ ((at : Keyboard) × (later : Batches) × FirstKey kb batches at later
        × IsValid at
        × (r ≡ some (at, later)))

-- The wait ends at the first waiting character, and only a silent keyboard keeps it for ever.
pub wait_lem : (kb : Keyboard) (batches : Batches) → IsValid kb → Waits kb batches (wait kb batches)
unfolding wait
wait_lem kb [] v = elim (Bool-cases (has_input kb)) [
  | inl e ↦ inr (kb, [], (refl, refl, has_input-contents kb v e), v, rw e refl)
  | inr e ↦ inl (no_input-contents kb v e, rw e refl)
]
wait_lem kb (batch ∷ batches) v =
    let kb' = arrive kb batch in
    let v' = arrive-IsValid kb batch v in
    elim (Bool-cases (has_input kb')) [
      | inl e ↦ inr (kb', batches, inl (refl, refl, has_input-contents kb' v' e), v', rw e refl)
      | inr e ↦
          let empty = no_input-contents kb' v' e in
          elim (wait_lem kb' batches v') [
            | inl (silent, none_comes) ↦ inl ((empty, silent), rw e none_comes)
            | inr (at, later, first, valid, comes) ↦
                inr (at, later, inr (empty, first), valid, rw e comes)
          ]
    ]
