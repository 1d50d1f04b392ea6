-- ===== src/Keyboard/Examples.antt =====
-- Runs of the keyboard driver at concrete scan codes.
use vyper.Prelude.{◌≡◌, refl, none, some, List, [], ◌∷◌}
use vyper.Keyboard.{new, push, pop, press, read_char, scancode_to_ascii, handle_scancode, find_arm}
use vyper.Keyboard.Inv.{new-IsValid}
use vyper.Keyboard.Spec.{Event, scan, read, run, spec_run, view, run_refines}

-- Shift down, A, shift up, A, caps lock, A, and four reads.
abbrev typed : List Event
typed =
    scan 0x12
    ∷ scan 0x1C
    ∷ scan 0xF0
    ∷ scan 0x12
    ∷ scan 0x1C
    ∷ scan 0x58
    ∷ scan 0x1C
    ∷ read
    ∷ read
    ∷ read
    ∷ read
    ∷ []

typed_reads : run new typed ≡ some b'A' ∷ some b'a' ∷ some b'A' ∷ none ∷ []
unfolding run handle_scancode press scancode_to_ascii find_arm push pop read_char new
typed_reads = refl

run_refines_example : run new typed ≡ spec_run (view new) typed
run_refines_example = run_refines typed new new-IsValid
