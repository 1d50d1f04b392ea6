-- ===== src/Keyboard/Inv.antt =====
-- The invariant of the keyboard: both positions lie inside the buffer, and what it holds is
-- 7-bit ASCII.
use vyper.Prelude.{
  ℕ, zero, suc, ◌<◌, ◌≡◌, refl, Bool, Option, none, some, List, [], ◌∷◌, arith, length, set,
  length-set,
}
use vyper.Keyboard.{
  Keyboard, Arm, new, push, pop, layout, find_arm, select, scancode_to_ascii, press,
  handle_scancode, push_char, buffer_size,
}

abbrev pub AllAscii : List ℕ → Type 0
AllAscii [] = Unit
AllAscii (c ∷ cs) = (c < 128) × AllAscii cs

abbrev pub IsAscii : Option ℕ → Type 0
IsAscii none = Unit
IsAscii (some c) = c < 128

pub record IsValid (kb : Keyboard) : Type 0 where
  pub sized : length kb.buffer ≡ buffer_size
  pub read_in : kb.read_pos < buffer_size
  pub write_in : kb.write_pos < buffer_size
  pub ascii : AllAscii kb.buffer

AllAscii-set : (cs : List ℕ) (i c : ℕ) → c < 128 → AllAscii cs → AllAscii (set cs i c)
AllAscii-set [] i c h a = tt
AllAscii-set (x ∷ cs) zero c h a = (h, a.1)
AllAscii-set (x ∷ cs) (suc i) c h a = (a.0, AllAscii-set cs i c h a.1)

abbrev AllArms : List Arm → Type 0
AllArms [] = Unit
AllArms (a ∷ arms) = (a.1 < 128) × (a.2 < 128) × AllArms arms

find_arm-IsAscii :
    (sc : ℕ) (shift caps : Bool) (arms : List Arm)
    → AllArms arms
    → IsAscii (elim (find_arm sc arms) [ none ↦ none | some a ↦ some (select shift caps a) ])
unfolding find_arm
find_arm-IsAscii sc shift caps [] h = tt
find_arm-IsAscii sc shift caps (a ∷ arms) h = ground (arith, find_arm-IsAscii sc shift caps arms)

layout_ascii : AllArms layout
layout_ascii = omega arith

-- Every key the table knows gives a character below 128.
pub scancode_to_ascii-IsAscii :
    (sc : ℕ) (shift caps : Bool) → IsAscii (scancode_to_ascii sc shift caps)
unfolding scancode_to_ascii
scancode_to_ascii-IsAscii sc shift caps = find_arm-IsAscii sc shift caps layout layout_ascii

pub new-IsValid : IsValid new
unfolding new
new-IsValid = record {
  sized = refl;
  read_in = omega arith;
  write_in = omega arith;
  ascii = omega arith;
}

pub push-IsValid : (kb : Keyboard) (c : ℕ) → c < 128 → IsValid kb → IsValid (push kb c)
unfolding push
push-IsValid kb c h v =
    ground (arith, length-set kb.buffer kb.write_pos c, AllAscii-set kb.buffer kb.write_pos c)

pub pop-IsValid : (kb : Keyboard) → IsValid kb → IsValid (pop kb).1
unfolding pop
pop-IsValid kb v = ground arith

push_char-IsValid :
    (kb : Keyboard) (o : Option ℕ) → IsAscii o → IsValid kb → IsValid (push_char kb o)
push_char-IsValid kb none h v = v
push_char-IsValid kb (some c) h v = push-IsValid kb c h v

-- No scan code breaks the invariant of the keyboard.
pub handle_scancode-IsValid :
    (kb : Keyboard) (scancode : ℕ) → IsValid kb → IsValid (handle_scancode kb scancode)
unfolding handle_scancode press
handle_scancode-IsValid kb scancode v = ground (
  arith,
  push_char-IsValid kb (scancode_to_ascii scancode kb.shift_pressed kb.caps_lock)
      (scancode_to_ascii-IsAscii scancode kb.shift_pressed kb.caps_lock),
)
