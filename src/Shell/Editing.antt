-- ===== src/Shell/Editing.antt =====
-- `read_line` of user/shell/src/input.rs against a line that is edited at its end.
use vyper.Prelude.{
  ℕ, zero, suc, ◌+◌, ◌-◌, ◌≡◌, ◌≤◌, ◌<◌, refl, ap, sym, ◌∙◌, true, false, Option, some, none, [],
  ◌∷◌, ◌++◌, Bytes, ◌==◌, ltb, if◌then◌else◌, take, set, length, length-set, length-take, arith,
  inl, inr, Bool-cases, Result, ok, stuck,
}
use vyper.Shell.{Editor, is_erase, is_printable, erase, put, press, read_from, read_line}

abbrev pub drop_last : Bytes → Bytes
drop_last [] = []
drop_last (c ∷ []) = []
drop_last (c ∷ d ∷ cs) = c ∷ drop_last (d ∷ cs)

-- What a key does to a line of at most `room` characters.
pub edit : ℕ → Bytes → ℕ → Bytes
edit room line c =
    if is_erase c
    then drop_last line
    else if is_printable c
    then (if ltb (length line) room then line ++ (c ∷ []) else line)
    else line

-- The line at the first end of a line.
pub edited : ℕ → Bytes → Bytes → Option Bytes
edited room line [] = none
edited room line (c ∷ keys) =
    let later = edited room (edit room line c) keys in if c == 10 then some line else later

take-set :
    (buf : Bytes) (pos c : ℕ)
    → pos < length buf
    → take (pos + 1) (set buf pos c) ≡ take pos buf ++ (c ∷ [])
take-set [] pos c h = absurd (omega arith)
take-set (b ∷ buf) zero c h = refl
take-set (b ∷ buf) (suc pos) c h =
    let n : suc pos + 1 ≡ suc (pos + 1) = omega arith in
    rw n (ap (λ r. b ∷ r) (take-set buf pos c (omega arith)))

take_back :
    (buf : Bytes) (pos : ℕ) → suc pos ≤ length buf → take pos buf ≡ drop_last (take (suc pos) buf)
take_back [] pos h = absurd (omega arith)
take_back (b ∷ []) zero h = refl
take_back (b ∷ c ∷ buf) zero h = refl
take_back (b ∷ []) (suc pos) h = absurd (omega arith)
take_back (b ∷ c ∷ buf) (suc pos) h = ap (λ r. b ∷ r) (take_back (c ∷ buf) pos (omega arith))

-- The editor holds a line: it is before `pos`, and there is room for it.
record Holds (size : ℕ) (ed : Editor) (line : Bytes) : Type 0 where
  pub sized : length ed.buf ≡ suc size
  pub inside : ed.pos ≤ size
  pub before : take ed.pos ed.buf ≡ line
  pub counted : length line ≡ ed.pos

erase_held :
    (size : ℕ) (ed : Editor) (line : Bytes)
    → Holds size ed line
    → 0 < ed.pos
    → Holds size (erase ed) (drop_last line)
erase_held size ed line h pos =
    let at : suc (ed.pos - 1) ≡ ed.pos = omega arith in
    let shorter : take (ed.pos - 1) ed.buf ≡ drop_last line =
      take_back ed.buf (ed.pos - 1) (omega (arith, h.sized, h.inside))
      ∙ ap (λ n. drop_last (take n ed.buf)) at
      ∙ ap drop_last h.before in
    record {
      sized = h.sized;
      inside = omega (arith, h.inside);
      before = shorter;
      counted =
          ap length (sym shorter)
          ∙ length-take (ed.pos - 1) ed.buf
          ∙ omega (arith, h.sized, h.inside);
    }

type_held :
    (size : ℕ) (ed : Editor) (line : Bytes) (c : ℕ)
    → Holds size ed line
    → ed.pos < size
    → Holds size (put ed c) (line ++ (c ∷ []))
type_held size ed line c h room =
    let longer : take (ed.pos + 1) (set ed.buf ed.pos c) ≡ line ++ (c ∷ []) =
      take-set ed.buf ed.pos c (omega (arith, h.sized)) ∙ ap (λ l. l ++ (c ∷ [])) h.before in
    record {
      sized = length-set ed.buf ed.pos c ∙ h.sized;
      inside = omega arith;
      before = longer;
      counted =
          ap length (sym longer)
          ∙ length-take (ed.pos + 1) (set ed.buf ed.pos c)
          ∙ omega (arith, length-set ed.buf ed.pos c, h.sized);
    }

no_prefix : (xs : Bytes) → take 0 xs ≡ []
no_prefix [] = refl
no_prefix (x ∷ xs) = refl

nothing_held : (size : ℕ) (ed : Editor) (line : Bytes) → Holds size ed line → ed.pos ≡ 0 → line ≡ []
nothing_held size ed line h none_typed =
    sym h.before ∙ ap (λ n. take n ed.buf) none_typed ∙ no_prefix ed.buf

press_lem :
    (size : ℕ) (ed : Editor) (line : Bytes) (c : ℕ)
    → Holds size ed line
    → (ed' : Editor) × (press ed c ≡ ok ed') × Holds size ed' (edit size line c)
unfolding press edit
press_lem size ed line c h = elim (Bool-cases (is_erase c)) [
  | inl e ↦ elim (Bool-cases (ltb 0 ed.pos)) [
    | inl some_typed ↦ (
      erase ed,
      rw (e, some_typed, press) refl,
      rw (e, edit) (erase_held size ed line h (ground arith)),
    )
    | inr none_typed ↦
        let empty = nothing_held size ed line h (ground arith) in
        (
          ed,
          rw (e, none_typed, press) refl,
          rw (e, edit)
              (let stays : line ≡ drop_last line = empty ∙ sym (ap drop_last empty) in
                rw (← stays) h),
        )
  ]
  | inr e ↦ elim (Bool-cases (is_printable c)) [
    | inl p ↦
        let size_of : (length ed.buf == 0) ≡ false = ground (arith, h.sized) in
        elim (Bool-cases (ltb ed.pos (length ed.buf - 1))) [
          | inl room ↦
              let fits : ltb (length line) size ≡ true = ground (arith, h.sized, h.counted) in
              (
                put ed c,
                rw (e, p, size_of, room, press) refl,
                rw (e, p, fits, edit) (type_held size ed line c h (ground (arith, h.counted))),
              )
          | inr full ↦
              let fits : ltb (length line) size ≡ false = ground (arith, h.sized, h.counted) in
              (ed, rw (e, p, size_of, full, press) refl, rw (e, p, fits, edit) h)
        ]
    | inr p ↦ (ed, rw (e, p, press) refl, rw (e, p, edit) h)
  ]
]

-- What `read_line` returns, against the edited line.
abbrev pub Agrees : ℕ → Option Bytes → Result (Unit {0}) Editor → Type 0
Agrees size none r = r ≡ stuck
Agrees size (some line) r =
    (ed : Editor) × (r ≡ ok ed)
    × (ed.pos ≤ size)
    × (length ed.buf ≡ suc size)
    × (take ed.pos ed.buf ≡ line)

read_from_lem :
    (size : ℕ) (ed : Editor) (line keys : Bytes)
    → Holds size ed line
    → Agrees size (edited size line keys) (read_from ed keys)
unfolding read_from edited
read_from_lem size ed line [] h = refl
read_from_lem size ed line (c ∷ keys) h = elim (Bool-cases (c == 10)) [
  | inl e ↦ rw (e, edited, read_from) (_, refl, h.inside, h.sized, h.before)
  | inr e ↦
      let (ed', pressed, held) = press_lem size ed line c h in
      rw (e, pressed, edited, read_from) (read_from_lem size ed' (edit size line c) keys held)
]

-- With a buffer of one byte or more, `read_line` never panics, and stays inside its buffer. Where
-- the keys have an end of a line, it returns how long the line is that the keys before it edit, and
-- that line stands at the start of the buffer: printable characters are appended as long as there
-- is room for one more byte behind them, a backspace or a delete takes off the last, and other keys
-- do nothing. Where the keys have none, it waits for ever.
pub read_line_lem :
    (size : ℕ) (buf keys : Bytes)
    → length buf ≡ suc size
    → Agrees size (edited size [] keys) (read_line buf keys)
unfolding read_line
read_line_lem size buf keys h =
    read_from_lem size (record { buf = buf; pos = 0; out = [] }) [] keys
      (record { sized = h; inside = omega arith; before = no_prefix buf; counted = refl })
