-- ===== src/Keyboard.antt =====
-- vcore/src/drivers/keyboard.rs: the scan-code decoder and its ring buffer. A function that
-- locks KEYBOARD takes the keyboard and returns the new one.
pub mod Inv
pub mod Refine
pub mod Spec
pub mod Waiting
mod Examples
use vyper.Prelude.{
  ℕ, ◌+◌, ◌%◌, Bool, true, false, not, ◌&&◌, ◌||◌, Option, none, some, List, [], ◌∷◌, ◌==◌, leb,
  if◌then◌else◌, get_or, set, replicate,
}

abbrev pub buffer_size : ℕ
buffer_size = 256

pub record Keyboard : Type 0 where
  pub buffer : List ℕ
  pub read_pos : ℕ
  pub write_pos : ℕ
  pub shift_pressed : Bool
  pub caps_lock : Bool
  pub release_next : Bool

pub new : Keyboard
new = record {
  buffer = replicate buffer_size 0;
  read_pos = 0;
  write_pos = 0;
  shift_pressed = false;
  caps_lock = false;
  release_next = false;
}

-- A key that does not fit is dropped.
pub push : Keyboard → ℕ → Keyboard
push kb c =
    let next_write = (kb.write_pos + 1) % buffer_size in
    if next_write == kb.read_pos
    then kb
    else record kb { buffer = set kb.buffer kb.write_pos c; write_pos = next_write }

pub pop : Keyboard → Option ℕ × Keyboard
pop kb = if kb.read_pos == kb.write_pos then (none, kb) else (
  some (get_or kb.buffer kb.read_pos 0),
  record kb { read_pos = (kb.read_pos + 1) % buffer_size },
)

pub is_empty : Keyboard → Bool
is_empty kb = kb.read_pos == kb.write_pos

abbrev pub scancode_release : ℕ
scancode_release = 0xF0

abbrev pub scancode_left_shift : ℕ
scancode_left_shift = 0x12

abbrev pub scancode_right_shift : ℕ
scancode_right_shift = 0x59

abbrev pub scancode_caps_lock : ℕ
scancode_caps_lock = 0x58

-- The arms of the `match`: a scan code, its character, and its character under shift.
abbrev pub Arm : Type 0
Arm = ℕ × ℕ × ℕ

abbrev layout : List Arm
layout =
    (0x16, b'1', b'!')
    ∷ (0x1E, b'2', b'@')
    ∷ (0x26, b'3', b'#')
    ∷ (0x25, b'4', b'$')
    ∷ (0x2E, b'5', b'%')
    ∷ (0x36, b'6', b'^')
    ∷ (0x3D, b'7', b'&')
    ∷ (0x3E, b'8', b'*')
    ∷ (0x46, b'9', b'(')
    ∷ (0x45, b'0', b')')
    ∷ (0x4E, b'-', b'_')
    ∷ (0x55, b'=', b'+')
    ∷ (0x66, 8, 8)
    ∷ (0x0D, 9, 9)
    ∷ (0x15, b'q', b'Q')
    ∷ (0x1D, b'w', b'W')
    ∷ (0x24, b'e', b'E')
    ∷ (0x2D, b'r', b'R')
    ∷ (0x2C, b't', b'T')
    ∷ (0x35, b'y', b'Y')
    ∷ (0x3C, b'u', b'U')
    ∷ (0x43, b'i', b'I')
    ∷ (0x44, b'o', b'O')
    ∷ (0x4D, b'p', b'P')
    ∷ (0x54, b'[', b'{')
    ∷ (0x5B, b']', b'}')
    ∷ (0x5A, 10, 10)
    ∷ (0x1C, b'a', b'A')
    ∷ (0x1B, b's', b'S')
    ∷ (0x23, b'd', b'D')
    ∷ (0x2B, b'f', b'F')
    ∷ (0x34, b'g', b'G')
    ∷ (0x33, b'h', b'H')
    ∷ (0x3B, b'j', b'J')
    ∷ (0x42, b'k', b'K')
    ∷ (0x4B, b'l', b'L')
    ∷ (0x4C, b';', b':')
    ∷ (0x52, 39, 34)
    ∷ (0x0E, b'`', b'~')
    ∷ (0x5D, 92, b'|')
    ∷ (0x1A, b'z', b'Z')
    ∷ (0x22, b'x', b'X')
    ∷ (0x21, b'c', b'C')
    ∷ (0x2A, b'v', b'V')
    ∷ (0x32, b'b', b'B')
    ∷ (0x31, b'n', b'N')
    ∷ (0x3A, b'm', b'M')
    ∷ (0x41, b',', b'<')
    ∷ (0x49, b'.', b'>')
    ∷ (0x4A, b'/', b'?')
    ∷ (0x29, b' ', b' ')
    ∷ []

find_arm : ℕ → List Arm → Option Arm
find_arm scancode [] = none
find_arm scancode (a ∷ arms) = if a.0 == scancode then some a else find_arm scancode arms

abbrev pub is_ascii_lowercase : ℕ → Bool
is_ascii_lowercase c = leb b'a' c && leb c b'z'

abbrev pub xor : Bool → Bool → Bool
xor a b = if a then not b else b

-- The character of an arm, with its test for letters.
abbrev pub select : Bool → Bool → Arm → ℕ
select shift caps (scancode, unshifted, shifted) =
    if (if is_ascii_lowercase unshifted then xor shift caps else shift) then shifted else unshifted

pub scancode_to_ascii : ℕ → Bool → Bool → Option ℕ
unfolding find_arm
scancode_to_ascii scancode shift caps = elim (find_arm scancode layout) [
  | none ↦ none
  | some a ↦ some (select shift caps a)
]

abbrev pub is_shift : ℕ → Bool
is_shift scancode = (scancode == scancode_left_shift) || (scancode == scancode_right_shift)

abbrev pub push_char : Keyboard → Option ℕ → Keyboard
push_char kb none = kb
push_char kb (some ascii) = push kb ascii

-- The arms of the last `match`, where no release is pending.
press : Keyboard → ℕ → Keyboard
press kb scancode =
    if is_shift scancode
    then record kb { shift_pressed = true }
    else if scancode == scancode_caps_lock
    then record kb { caps_lock = not kb.caps_lock }
    else push_char kb (scancode_to_ascii scancode kb.shift_pressed kb.caps_lock)

pub handle_scancode : Keyboard → ℕ → Keyboard
unfolding press
handle_scancode kb scancode =
    if scancode == scancode_release
    then record kb { release_next = true }
    else if kb.release_next
    then (if is_shift scancode
        then record kb { release_next = false; shift_pressed = false }
        else record kb { release_next = false })
    else press kb scancode

pub read_char : Keyboard → Option ℕ × Keyboard
unfolding pop
read_char kb = pop kb

unfoldable pub has_input : Keyboard → Bool
unfolding is_empty
has_input kb = not (is_empty kb)
