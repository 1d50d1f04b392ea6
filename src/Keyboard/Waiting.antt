-- ===== src/Keyboard/Waiting.antt =====
-- When a character waits in the keyboard of vcore/src/drivers/keyboard.rs.
use vyper.Prelude.{
  ℕ, ◌≡◌, ◌≢◌, refl, ap, sym, ◌∙◌, true, false, Option, none, some, List, [], ◌∷◌, arith, length,
}
use vyper.Keyboard.{Keyboard, handle_scancode, has_input, is_empty, read_char, scancode_to_ascii}
use vyper.Keyboard.Inv.{IsValid}
use vyper.Keyboard.Refine.{contents, pending, ring_from, length-ring_from, dequeue, pop_lem}
use vyper.Keyboard.Spec.{View, view, see, enqueue_char, view-handle_scancode}

-- A key waits exactly where the queue holds a character.
pub has_input-contents : (kb : Keyboard) → IsValid kb → has_input kb ≡ true → contents kb ≢ []
unfolding has_input is_empty
has_input-contents kb v e none_left =
    let none_pending : pending kb ≡ 0 =
      sym (length-ring_from kb.buffer kb.read_pos (pending kb)) ∙ ap length none_left in
    ground arith

pub no_input-contents : (kb : Keyboard) → IsValid kb → has_input kb ≡ false → contents kb ≡ []
unfolding has_input is_empty
no_input-contents kb v e =
    let none_pending : pending kb ≡ 0 = ground arith in
    ap (ring_from kb.buffer kb.read_pos) none_pending

enqueue_char_nonempty : (q : List ℕ) (o : Option ℕ) → q ≢ [] → enqueue_char q o ≢ []
enqueue_char_nonempty [] o h = absurd (h refl)
enqueue_char_nonempty (c ∷ q) none h = h
enqueue_char_nonempty (c ∷ q) (some d) h = ground arith

see_nonempty : (w : View) (sc : ℕ) → w.queue ≢ [] → (see w sc).queue ≢ []
see_nonempty w sc h =
    ground (arith, enqueue_char_nonempty w.queue (scancode_to_ascii sc w.shift w.caps) h)

pub handle_scancode_nonempty :
    (kb : Keyboard) (sc : ℕ) → IsValid kb → contents kb ≢ [] → contents (handle_scancode kb sc) ≢ []
handle_scancode_nonempty kb sc v h = λ empty.
    see_nonempty (view kb) sc h
      (sym (ap (λ (w : View). w.queue) (view-handle_scancode kb sc v)) ∙ empty)

pub read_char_lem :
    (kb : Keyboard)
    → IsValid kb
    → ((read_char kb).0, contents (read_char kb).1) ≡ dequeue (contents kb)
unfolding read_char
read_char_lem kb v = pop_lem kb v
