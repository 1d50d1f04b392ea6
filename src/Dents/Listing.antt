-- ===== src/Dents/Listing.antt =====
-- The whole listing of a directory by repeated calls.
use mathlib.Core.List.{map-append}
use vyper.Prelude.{
  ℕ, zero, suc, ◌+◌, ◌≤◌, ◌<◌, ◌≡◌, ◌≢◌, refl, ap, ◌∙◌, List, [], ◌∷◌, ◌++◌, map, arith, Bytes,
  length, take, drop, ok, length-drop, take-append-drop, drop-drop,
}
use vyper.Vfs.Types.{DirEntry}
use vyper.Vfs.Fd.{FdKind}
use vyper.Dents.{fill, getdents, list_all}
use vyper.Dents.Round.{
  user_entry, ShortNames, records, fill_lem, fill_progress, read_call, ShortNames-drop,
  ShortNames-take,
}

-- How many entries one call hands over.
abbrev pub listed : List DirEntry → ℕ → ℕ → ℕ
listed entries buf_len position = (fill buf_len 0 (drop position entries)).1

take-nil : (A : Type 0) (n : ℕ) → take {A = A} n [] ≡ []
take-nil A zero = refl
take-nil A (suc n) = refl

take_pos : (n : ℕ) (d : DirEntry) (es : List DirEntry) → 0 < n → take n (d ∷ es) ≢ []
take_pos zero d es h = absurd (omega arith)
take_pos (suc n) d es h = λ e. cc

glue :
    (n : ℕ) (es : List DirEntry)
    → map user_entry (take n es) ++ map user_entry (drop n es) ≡ map user_entry es
glue n es = rw (← map-append, take-append-drop)

-- A directory as `open` leaves it, at a position.
abbrev pub opened_dir : (H : Type 0) → Bytes → List DirEntry → ℕ → FdKind H
opened_dir H path entries position = FdKind.directory path entries position

module _ (H : Type 0) (path : Bytes) (entries : List DirEntry) (buf_len : ℕ) where
  -- One call hands over the records of the next entries, as many as fit, and moves past them.
  pub getdents_lem :
      (position : ℕ)
      → getdents (opened_dir H path entries position) buf_len
        ≡ ok (
          records (take (listed entries buf_len position) (drop position entries)),
          opened_dir H path entries (position + listed entries buf_len position),
        )
  unfolding getdents
  getdents_lem position = rw (fill_lem buf_len 0 (drop position entries)).0

  listing_end :
      (fuel position : ℕ) (buf : Bytes)
      → drop position entries ≡ []
      → list_all (suc fuel) buf_len buf (opened_dir H path entries position) ≡ []
  unfolding list_all
  listing_end fuel position buf e =
      let front : take (listed entries buf_len position) (drop position entries) ≡ [] =
        rw e (take-nil DirEntry (listed entries buf_len position)) in
      rw (getdents_lem position, list_all, front)

  listing_step :
      (fuel position : ℕ) (buf : Bytes) (es : List DirEntry)
      → take (listed entries buf_len position) (drop position entries) ≡ es
      → es ≢ []
      → ShortNames es
      → list_all (suc fuel) buf_len buf (opened_dir H path entries position)
        ≡ map user_entry es
          ++ list_all fuel buf_len buf
              (opened_dir H path entries (position + listed entries buf_len position))
  unfolding list_all
  listing_step fuel position buf [] e ne short = absurd (ne refl)
  listing_step fuel position buf (d ∷ es) e ne short =
      rw
        (
          getdents_lem position,
          list_all,
          e,
          read_call (d ∷ es) (drop (length (records (d ∷ es))) buf) short ne,
        )
        (ground arith)

  -- What is left of the directory from a position on.
  listing :
      (fuel position : ℕ) (buf : Bytes) (es : List DirEntry)
      → drop position entries ≡ es
      → 259 ≤ buf_len
      → ShortNames es
      → length es < fuel
      → list_all fuel buf_len buf (opened_dir H path entries position) ≡ map user_entry es
  listing zero position buf es e big short h = absurd (omega arith)
  listing (suc fuel) position buf [] e big short h = listing_end fuel position buf e
  listing (suc fuel) position buf (d ∷ es) e big short h =
      let n = (fill buf_len 0 (d ∷ es)).1 in
      let some_listed : 0 < n = fill_progress buf_len d es big short.0 in
      let same : listed entries buf_len position ≡ n = ap (λ l. (fill buf_len 0 l).1) e in
      let front : take (listed entries buf_len position) (drop position entries) ≡ take n (d ∷ es) =
        rw (same, e) in
      let back : drop (position + listed entries buf_len position) entries ≡ drop n (d ∷ es) =
        rw (same, drop-drop, e) in
      listing_step fuel position buf (take n (d ∷ es)) front (take_pos n d es some_listed)
        (ShortNames-take n (d ∷ es) short)
      ∙ (ap (◌++◌ (map user_entry (take n (d ∷ es)))) (
            listing fuel (position + listed entries buf_len position) buf (drop n (d ∷ es)) back big
              (ShortNames-drop n (d ∷ es) short) (omega (arith, length-drop n (d ∷ es))))
          ∙ glue n (d ∷ es))

-- With a buffer of at least 259 bytes, the calls of `ls` and `ps` list every entry of the opened
-- directory once, in order and with its type, whatever its number of entries, where no name is
-- longer than 256 bytes: so many rounds as entries, and one more, are enough.
pub list_all_lem :
    (H : Type 0) (path : Bytes) (entries : List DirEntry) (buf_len : ℕ) (buf : Bytes) (fuel : ℕ)
    → 259 ≤ buf_len
    → ShortNames entries
    → length entries < fuel
    → list_all fuel buf_len buf (opened_dir H path entries 0) ≡ map user_entry entries
list_all_lem H path entries buf_len buf fuel big short h =
    listing H path entries buf_len fuel 0 buf entries refl big short h
