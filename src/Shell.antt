-- ===== src/Shell.antt =====
-- user/shell/src/input.rs: the words of a line, and the editing of the line as it is typed.
pub mod Args
pub mod Editing
mod Examples
use vyper.Prelude.{
  Bool, ℕ, zero, suc, ◌+◌, ◌-◌, List, [], ◌∷◌, ◌++◌, Bytes, ◌==◌, leb, ltb, ◌&&◌, ◌||◌,
  if◌then◌else◌, Result, ok, err, panic, stuck, length, set,
}

abbrev pub space : ℕ
space = b' '

-- The loop that passes over spaces: what is left of the line.
unfoldable pub skip_spaces : Bytes → Bytes
skip_spaces [] = []
skip_spaces (c ∷ line) = let rest = skip_spaces line in if c == space then rest else c ∷ line

-- The loop up to the next space: `line[start..i]`, and what is left of the line.
unfoldable pub take_word : Bytes → Bytes × Bytes
take_word [] = ([], [])
take_word (c ∷ line) =
    let (word, rest) = take_word line in if c == space then ([], c ∷ line) else (c ∷ word, rest)

-- The first word of a line that does not begin with a space, and the arguments behind it.
unfoldable pub parse_args : Bytes → ℕ → List Bytes
parse_args line zero = []
parse_args line (suc slots) = elim (skip_spaces line) [
  | [] ↦ []
  | c ∷ cs ↦ (let (word, rest) = take_word (c ∷ cs) in word ∷ parse_args rest slots)
]

-- What `read_line` holds: its buffer, `pos`, and what it has written to the terminal.
pub record Editor : Type 0 where
  pub buf : Bytes
  pub pos : ℕ
  pub out : Bytes

abbrev pub is_erase : ℕ → Bool
is_erase c = (c == 8) || (c == 127)

abbrev pub is_printable : ℕ → Bool
is_printable c = leb 32 c && leb c 126

abbrev pub erase : Editor → Editor
erase ed = record ed { pos = ed.pos - 1; out = ed.out ++ (8 ∷ b' ' ∷ 8 ∷ []) }

abbrev pub put : Editor → ℕ → Editor
put ed c = record ed { buf = set ed.buf ed.pos c; pos = ed.pos + 1; out = ed.out ++ (c ∷ []) }

-- One round of the loop of `read_line`, for a key that does not end the line. An empty buffer
-- panics at a printable key: `buf.len() - 1` overflows.
unfoldable pub press : Editor → ℕ → Result (Unit {0}) Editor
press ed c =
    if is_erase c
    then ok (if ltb 0 ed.pos then erase ed else ed)
    else if is_printable c
    then (if length ed.buf == 0
        then panic
        else ok (if ltb ed.pos (length ed.buf - 1) then put ed c else ed))
    else ok ed

-- The loop over the keys that `getch` gives; it waits for ever where they run out.
unfoldable pub read_from : Editor → Bytes → Result (Unit {0}) Editor
read_from ed [] = stuck
read_from ed (c ∷ keys) =
    let later : Result (Unit {0}) Editor = elim (press ed c) [
      | ok ed' ↦ read_from ed' keys
      | err e ↦ err e
      | panic ↦ panic
      | stuck ↦ stuck
    ] in
    if c == 10 then ok (record ed { out = ed.out ++ (10 ∷ []) }) else later

-- `read_line`, with the editor that it ends with: it returns `pos`.
unfoldable pub read_line : Bytes → Bytes → Result (Unit {0}) Editor
read_line buf keys = read_from (record { buf = buf; pos = 0; out = [] }) keys
