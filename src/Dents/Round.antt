-- ===== src/Dents/Round.antt =====
-- What the kernel writes for a directory is what the user's iterator reads.
use Prim.Native.Nat.{bit_and, bit_or}
use vyper.Prelude.{
  ℕ, zero, suc, ◌+◌, ◌*◌, ◌/◌, ◌%◌, ◌^◌, ◌≤◌, ◌<◌, ◌≡◌, ◌≢◌, refl, ap, ◌∙◌, none, some, List, [],
  ◌∷◌, ◌++◌, map, arith, Bytes, length, take, drop, length-append, bit_or-field, bit_or_comm,
  bit_and-mask, take_append, get_or_skip, drop_skip,
}
use mathlib.Core.List.{append-nil, append_assoc}
use native.Mathlib.Numerals.{add-one}
use vyper.Vfs.Types.{DirEntry}
use vyper.Dents.{type_code, record_bytes, fill, UserEntry, DirEntryIter, next, collect, iter}

-- An entry as the user sees it.
abbrev pub user_entry : DirEntry → UserEntry
user_entry e = record { file_type = type_code e.file_type; name_len = length e.name; name = e.name }

abbrev pub ShortNames : List DirEntry → Type 0
ShortNames [] = Unit
ShortNames (e ∷ es) = (length e.name ≤ 256) × ShortNames es

name_len_bytes :
    (n : ℕ) → n ≤ 256 → bit_or (bit_and (n % 2 ^ 16) 0xFF) (n % 2 ^ 16 / 2 ^ 8 * 2 ^ 8) ≡ n
name_len_bytes n h = omega (
  arith,
  bit_and-mask 8 (n % 2 ^ 16),
  bit_or_comm (bit_and (n % 2 ^ 16) 0xFF) (n % 2 ^ 16 / 2 ^ 8 * 2 ^ 8),
  bit_or-field 8 (n % 2 ^ 16 / 2 ^ 8) (bit_and (n % 2 ^ 16) 0xFF)
      (omega (arith, bit_and-mask 8 (n % 2 ^ 16))),
)

-- The iterator at the start of a record, with the bytes before it and after it.
next_record :
    (before rest : Bytes) (e : DirEntry)
    → length e.name ≤ 256
    → next (record { buf = before ++ (record_bytes e ++ rest); offset = length before }) ≡ (
      some (user_entry e),
      record {
        buf = before ++ (record_bytes e ++ rest);
        offset = length before + 3 + length e.name;
      },
    )
unfolding next
next_record before rest e h = ground (
  arith,
  name_len_bytes (length e.name) h,
  get_or_skip before (record_bytes e ++ rest) 0 0,
  get_or_skip before (record_bytes e ++ rest) 1 0,
  get_or_skip before (record_bytes e ++ rest) 2 0,
  drop_skip before (record_bytes e ++ rest) 3,
  take_append e.name rest,
  length-append before (record_bytes e ++ rest),
  length-append e.name rest,
)

-- The records of a list of entries.
abbrev pub records : List DirEntry → Bytes
records [] = []
records (e ∷ es) = record_bytes e ++ records es

next_end :
    (buf : Bytes)
    → next (record { buf = buf; offset = length buf })
      ≡ (none, record { buf = buf; offset = length buf })
unfolding next
next_end buf = ground arith

collect_step :
    (fuel : ℕ) (it : DirEntryIter) (e : UserEntry) (it' : DirEntryIter)
    → next it ≡ (some e, it')
    → collect (suc fuel) it ≡ e ∷ collect fuel it'
unfolding collect
collect_step fuel it e it' h = ground arith

collect-records :
    (es : List DirEntry) (before : Bytes) (fuel : ℕ)
    → ShortNames es
    → length es < fuel
    → collect fuel (record { buf = before ++ records es; offset = length before })
      ≡ map user_entry es
unfolding collect
collect-records es before zero short h = absurd (omega arith)
collect-records [] before (suc fuel) short h = rw (append-nil, next_end before, collect)
collect-records (e ∷ es) before (suc fuel) short h =
    let pre = before ++ record_bytes e in
    let ih : collect fuel (record { buf = pre ++ records es; offset = length pre })
        ≡ map user_entry es =
      collect-records es pre fuel short.1 (omega arith) in
    let at : length pre ≡ length before + 3 + length e.name =
      omega (arith, length-append before (record_bytes e)) in
    collect_step fuel _ _ _ (next_record before (records es) e short.0)
    ∙ ap (◌∷◌ (user_entry e)) (rw (← at, ← append_assoc before (record_bytes e) (records es)) ih)

take-suc : (n : ℕ) (e : DirEntry) (es : List DirEntry) → take (n + 1) (e ∷ es) ≡ e ∷ take n es
take-suc n e es = rw add-one

pub fill_lem :
    (buf_len offset : ℕ) (es : List DirEntry)
    → let (out, n) = fill buf_len offset es in (out ≡ records (take n es)) × (n ≤ length es)
unfolding fill
fill_lem buf_len offset [] = (refl, omega arith)
fill_lem buf_len offset (e ∷ es) = ground (
  arith,
  fill_lem buf_len (offset + (3 + length e.name)) es,
  take-suc (fill buf_len (offset + (3 + length e.name)) es).1 e es,
)

pub ShortNames-drop : (n : ℕ) (es : List DirEntry) → ShortNames es → ShortNames (drop n es)
ShortNames-drop zero es h = h
ShortNames-drop (suc n) [] h = tt
ShortNames-drop (suc n) (e ∷ es) h = ShortNames-drop n es h.1

pub ShortNames-take : (n : ℕ) (es : List DirEntry) → ShortNames es → ShortNames (take n es)
ShortNames-take zero es h = tt
ShortNames-take (suc n) [] h = tt
ShortNames-take (suc n) (e ∷ es) h = (h.0, ShortNames-take n es h.1)

length-records : (es : List DirEntry) → length es ≤ length (records es)
length-records [] = omega arith
length-records (e ∷ es) =
    omega (arith, length-append (record_bytes e) (records es), length-records es)

-- The iterator over what one call wrote.
pub read_call :
    (es : List DirEntry) (junk : Bytes)
    → ShortNames es
    → es ≢ []
    → collect (length (records es)) (iter (records es ++ junk) (length (records es)))
      ≡ map user_entry es
read_call es junk short ne =
    rw (take_append (records es) junk)
      (collect-records es [] (length (records es)) short (more es ne))
  where
    more : (es : List DirEntry) → es ≢ [] → length es < length (records es)
    more [] ne = absurd (ne refl)
    more (e ∷ es) ne = omega (arith, length-append (record_bytes e) (records es), length-records es)

-- A buffer of 259 bytes holds at least the next entry.
pub fill_progress :
    (buf_len : ℕ) (e : DirEntry) (es : List DirEntry)
    → 259 ≤ buf_len
    → length e.name ≤ 256
    → 0 < (fill buf_len 0 (e ∷ es)).1
unfolding fill
fill_progress buf_len e es h short = ground arith
