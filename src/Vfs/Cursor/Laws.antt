-- ===== src/Vfs/Cursor/Laws.antt =====
-- What reading, writing and seeking do, on every branch.
use native.Mathlib.Decide.{dec_lt}
use vyper.Prelude.{
  get_or_beyond, get_or-take, get_or-drop, get_or-append, get_or-replicate, ℕ, ◌+◌, ◌-◌, ◌≤◌, ◌<◌,
  ◌≡◌, ◌⊎◌, inl, inr, min, max, ap, ◌∙◌, ◌++◌, ltb, if◌then◌else◌, Bytes, ok, panic, length, take,
  drop, replicate, arith, length-take, length-drop, length-append, length-replicate, get_or,
  take_append, drop_append, take_all,
}
use vyper.Vfs.Cursor.{slice, resize, copy_at, read_at, write_at}

-- Up to the end of the content a read returns the next bytes, as many as there are and as fit, and
-- moves past them; past the end it panics, whatever the buffer.
pub read_at_lem :
    (content : Bytes) (position len : ℕ)
    → ((position ≤ length content)
        × (read_at content position len
            ≡ ok (
              take (min len (length content - position)) (drop position content),
              position + min len (length content - position),
            )))
      ⊎ ((length content < position) × (read_at content position len ≡ panic))
unfolding read_at slice
read_at_lem content position len = elim (dec_lt (length content) position) [
  | yes past ↦ inr (past, ground arith)
  | no within ↦
      let n : position + min len (length content - position) - position
          ≡ min len (length content - position) =
        omega arith in
      inl (omega arith, ground arith)
]

abbrev pub grow : Bytes → ℕ → Bytes
grow content n = if ltb (length content) n then resize content n else content

get_or-grow : (content : Bytes) (n i : ℕ) → get_or (grow content n) i 0 ≡ get_or content i 0
unfolding resize
get_or-grow content n i = ground (
  arith,
  take_all n content,
  get_or-append content (replicate (n - length content) 0) i 0,
  get_or-replicate {A = ℕ} (n - length content) (i - length content) 0,
  get_or_beyond content i 0,
)

length-grow :
    (content : Bytes) (n : ℕ)
    → length (grow content n) ≡ (if ltb (length content) n then n else length content)
unfolding resize
length-grow content n = ground (
  arith,
  take_all n content,
  length-append content (replicate (n - length content) 0),
  length-replicate {A = ℕ} (n - length content) 0,
)

-- The content after a write.
pub written : Bytes → ℕ → Bytes → Bytes
written content position buf =
    let grown = grow content (position + length buf) in
    take position grown ++ (buf ++ drop (position + length buf) grown)

write_at-ok :
    (content : Bytes) (position : ℕ) (buf : Bytes)
    → write_at content position buf ≡ ok (written content position buf, position + length buf)
unfolding write_at copy_at written
write_at-ok content position buf = ground (arith, length-grow content (position + length buf))

length-written :
    (content : Bytes) (position : ℕ) (buf : Bytes)
    → length (written content position buf) ≡ max (length content) (position + length buf)
unfolding written
length-written content position buf =
    let grown = grow content (position + length buf) in
    ground (
      arith,
      length-grow content (position + length buf),
      length-append (take position grown) (buf ++ drop (position + length buf) grown),
      length-append buf (drop (position + length buf) grown),
      length-take position grown,
      length-drop (position + length buf) grown,
    )

get_or-written :
    (content : Bytes) (position : ℕ) (buf : Bytes) (i : ℕ)
    → get_or (written content position buf) i 0 ≡ (
        if ltb i position
        then get_or content i 0
        else if ltb i (position + length buf)
        then get_or buf (i - position) 0
        else get_or content i 0)
unfolding written
get_or-written content position buf i =
    let stop = position + length buf in
    let grown = grow content stop in
    let front : length (take position grown) ≡ position =
      ground (arith, length-take position grown, length-grow content stop) in
    let back : stop + (i - position - length buf) ≡ (if ltb i stop then stop else i) =
      ground arith in
    ground (
      arith,
      get_or-append (take position grown) (buf ++ drop stop grown) i 0,
      get_or-append buf (drop stop grown) (i - position) 0,
      get_or-take position i grown 0,
      get_or-drop stop (i - position - length buf) grown 0,
      get_or-grow content stop i,
    )

-- A write never panics, wherever the position is: it returns the position behind the bytes
-- written; the file is then as long as needed; at the bytes written it reads as the buffer, and
-- everywhere else as before, with zeros between the old end and the position.
pub write_at_lem :
    (content : Bytes) (position : ℕ) (buf : Bytes)
    → (after : Bytes) × (write_at content position buf ≡ ok (after, position + length buf))
      × (length after ≡ max (length content) (position + length buf))
      × ((i : ℕ)
          → get_or after i 0 ≡ (
              if ltb i position
              then get_or content i 0
              else if ltb i (position + length buf)
              then get_or buf (i - position) 0
              else get_or content i 0))
write_at_lem content position buf = (
  written content position buf,
  write_at-ok content position buf,
  length-written content position buf,
  get_or-written content position buf,
)

drop-written :
    (content : Bytes) (position : ℕ) (buf : Bytes)
    → take (length buf) (drop position (written content position buf)) ≡ buf
unfolding written
drop-written content position buf =
    let grown = grow content (position + length buf) in
    let front : position ≡ length (take position grown) =
      ground (arith, length-take position grown, length-grow content (position + length buf)) in
    ap (take (length buf)) (
      ap (λ k. drop k (take position grown ++ (buf ++ drop (position + length buf) grown))) front
      ∙ drop_append (take position grown) (buf ++ drop (position + length buf) grown))
    ∙ take_append buf (drop (position + length buf) grown)

read-written :
    (content : Bytes) (position : ℕ) (buf : Bytes)
    → read_at (written content position buf) position (length buf) ≡ ok (buf, position + length buf)
unfolding read_at slice
read-written content position buf =
    let whole : min (length buf) (length (written content position buf) - position) ≡ length buf =
      omega (arith, length-written content position buf) in
    ground (arith, length-written content position buf, drop-written content position buf)

-- After a write, a read of as many bytes at its position gives what was written, and ends where the
-- write ended.
pub read_at-write_at :
    (content : Bytes) (position : ℕ) (buf : Bytes) {after : Bytes} {stop : ℕ}
    → write_at content position buf ≡ ok (after, stop)
    → read_at after position (length buf) ≡ ok (buf, stop)
read_at-write_at content position buf {after} {stop} e =
    ground (arith, write_at-ok content position buf, read-written content position buf)
