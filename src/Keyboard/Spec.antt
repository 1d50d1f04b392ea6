-- ===== src/Keyboard/Spec.antt =====
-- The keyboard as a client sees it, with no ring: a queue of at most 255 characters beside the
-- modifier keys, and that the driver implements it.
use vyper.Prelude.{
  ℕ, ◌≡◌, refl, Bool, true, false, not, Option, none, some, List, [], ◌∷◌, arith, ◌==◌,
  if◌then◌else◌,
}
use mathlib.Core.Path.{ap}
use vyper.Keyboard.{
  Keyboard, push, pop, press, scancode_to_ascii, handle_scancode, push_char, is_shift,
  scancode_release, scancode_caps_lock, read_char,
}
use vyper.Keyboard.Inv.{IsValid, handle_scancode-IsValid, pop-IsValid}
use vyper.Keyboard.Refine.{contents, enqueue, dequeue, contents-push, pop_lem}

pub record View : Type 0 where
  pub queue : List ℕ
  pub shift : Bool
  pub caps : Bool
  pub releasing : Bool

abbrev pub view : Keyboard → View
view kb = record {
  queue = contents kb;
  shift = kb.shift_pressed;
  caps = kb.caps_lock;
  releasing = kb.release_next;
}

abbrev pub enqueue_char : List ℕ → Option ℕ → List ℕ
enqueue_char q none = q
enqueue_char q (some c) = enqueue q c

-- One scan code: 0xF0 announces a release, the code after it releases its key, any other presses.
abbrev pub see : View → ℕ → View
see s scancode =
    if scancode == scancode_release
    then record s { releasing = true }
    else if s.releasing
    then (if is_shift scancode
        then record s { releasing = false; shift = false }
        else record s { releasing = false })
    else if is_shift scancode
    then record s { shift = true }
    else if scancode == scancode_caps_lock
    then record s { caps = not s.caps }
    else record s { queue = enqueue_char s.queue (scancode_to_ascii scancode s.shift s.caps) }

-- What happens at the keyboard, in order: the interrupt hands over a scan code, or a task reads.
pub data Event : Type 0 where
  scan : ℕ → Event
  read : Event

unfoldable pub run : Keyboard → List Event → List (Option ℕ)
run kb [] = []
run kb (scan sc ∷ es) = run (handle_scancode kb sc) es
run kb (read ∷ es) = let (o, kb') = read_char kb in o ∷ run kb' es

pub spec_run : View → List Event → List (Option ℕ)
spec_run s [] = []
spec_run s (scan sc ∷ es) = spec_run (see s sc) es
spec_run s (read ∷ es) = let (o, q) = dequeue s.queue in o ∷ spec_run (record s { queue = q }) es

push_keeps :
    (kb : Keyboard) (c : ℕ)
    → ((push kb c).shift_pressed ≡ kb.shift_pressed)
      × ((push kb c).caps_lock ≡ kb.caps_lock)
      × ((push kb c).release_next ≡ kb.release_next)
unfolding push
push_keeps kb c = ground arith

pop_keeps :
    (kb : Keyboard)
    → ((pop kb).1.shift_pressed ≡ kb.shift_pressed)
      × ((pop kb).1.caps_lock ≡ kb.caps_lock)
      × ((pop kb).1.release_next ≡ kb.release_next)
unfolding pop
pop_keeps kb = ground arith

view-push_char :
    (kb : Keyboard) (o : Option ℕ)
    → IsValid kb
    → view (push_char kb o) ≡ record (view kb) { queue = enqueue_char (contents kb) o }
view-push_char kb none v = refl
view-push_char kb (some c) v = ground (arith, contents-push kb c v, push_keeps kb c)

pub read_char-IsValid : (kb : Keyboard) → IsValid kb → IsValid (read_char kb).1
unfolding read_char
read_char-IsValid kb v = pop-IsValid kb v

-- One scan code changes what a client sees exactly as `see` says.
pub view-handle_scancode :
    (kb : Keyboard) (sc : ℕ) → IsValid kb → view (handle_scancode kb sc) ≡ see (view kb) sc
unfolding handle_scancode press
view-handle_scancode kb sc v =
    ground (arith, view-push_char kb (scancode_to_ascii sc kb.shift_pressed kb.caps_lock) v)

pub view-read_char :
    (kb : Keyboard)
    → IsValid kb
    → ((read_char kb).0 ≡ (dequeue (contents kb)).0)
      × (view (read_char kb).1 ≡ record (view kb) { queue = (dequeue (contents kb)).1 })
unfolding read_char
view-read_char kb v = (ap (λ t. t.0) (pop_lem kb v), ground (arith, pop_lem kb v, pop_keeps kb))

-- From any valid keyboard, whatever the interleaving of scan codes and reads, the characters that
-- the reads return are those of a queue of at most 255 characters that drops what does not fit,
-- fed by the decoder: shift held between its make and break codes, caps lock toggled by each make
-- code, and nothing typed by a released key.
pub run_refines : (es : List Event) (kb : Keyboard) → IsValid kb → run kb es ≡ spec_run (view kb) es
unfolding run spec_run
run_refines [] kb v = refl
run_refines (scan sc ∷ es) kb v = rw (
  run_refines es (handle_scancode kb sc) (handle_scancode-IsValid kb sc v),
  view-handle_scancode kb sc v,
)
run_refines (read ∷ es) kb v =
    let (o, kept) = view-read_char kb v in
    rw (o, ← kept)
      (ap (◌∷◌ (dequeue (contents kb)).0)
        (run_refines es (read_char kb).1 (read_char-IsValid kb v)))
