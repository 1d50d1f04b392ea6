-- ===== src/Fat/Name.antt =====
-- Short names in fat32.rs: `make_short_name` and `needs_lfn`. A name is the list of its characters.
-- The case mapping of Unicode that `str::to_uppercase` has is a parameter.
use vyper.Prelude.{
  ℕ, ◌+◌, ◌-◌, Bool, true, false, not, ◌||◌, ◌&&◌, Option, none, some, List, [], ◌∷◌, ◌++◌, map,
  if◌then◌else◌, ◌==◌, ltb, leb, Bytes, length, take, replicate,
}

abbrev pub full_stop : ℕ
full_stop = b'.'

-- `str::rsplitn(2, c)` where the character occurs: what stands before its last place, and behind it.
unfoldable pub rsplit : ℕ → List ℕ → Option (List ℕ × List ℕ)
rsplit c [] = none
rsplit c (x ∷ xs) = elim (rsplit c xs) [
  | some (before, behind) ↦ some (x ∷ before, behind)
  | none ↦ if x == c then some ([], xs) else none
]

abbrev pub is_lowercase : ℕ → Bool
is_lowercase c = leb b'a' c && leb c b'z'

-- `is_ascii_alphanumeric`
abbrev pub is_alphanumeric : ℕ → Bool
is_alphanumeric c = (leb b'0' c && leb c b'9') || ((leb b'A' c && leb c b'Z') || is_lowercase c)

-- A character of a short name.
abbrev pub short_char : ℕ → ℕ
short_char c = if is_alphanumeric c || ((c == b'_') || (c == b'-')) then c else b'_'

-- `n` bytes of spaces with the characters written over them.
unfoldable pub fill_short : ℕ → List ℕ → Bytes
fill_short n cs = map short_char (take n cs) ++ replicate (n - length cs) 0x20

abbrev pub has_char : ℕ → List ℕ → Bool
has_char c [] = false
has_char c (x ∷ xs) = (x == c) || has_char c xs

-- The base and the extension that are written.
unfoldable pub base_and_ext : List ℕ → List ℕ → List ℕ × List ℕ
base_and_ext name name_upper = elim (rsplit full_stop name_upper) [
  | none ↦ if has_char full_stop name then (name_upper, name_upper) else (name_upper, [])
  | some (base, ext) ↦ if has_char full_stop name then (base, ext) else (ext, [])
]

unfoldable pub make_short_name : (List ℕ → List ℕ) → List ℕ → Bytes
make_short_name upper name =
    let parts = base_and_ext name (upper name) in fill_short 8 parts.0 ++ fill_short 3 parts.1

-- `str::len`, of the bytes in UTF-8
abbrev pub utf8_len : List ℕ → ℕ
utf8_len [] = 0
utf8_len (c ∷ cs) =
    (if ltb c 0x80 then 1 else if ltb c 0x800 then 2 else if ltb c 0x10000 then 3 else 4)
    + utf8_len cs

-- A character that a short name cannot hold.
abbrev pub needs_long : ℕ → Bool
needs_long c =
    is_lowercase c
    || (not (is_alphanumeric c) && (not (c == full_stop) && (not (c == b'_') && not (c == b'-'))))

abbrev pub any_char : (ℕ → Bool) → List ℕ → Bool
any_char p [] = false
any_char p (c ∷ cs) = p c || any_char p cs

unfoldable pub too_long : List ℕ → Bool
too_long name = elim (rsplit full_stop name) [
  | some (base, ext) ↦ ltb 8 (utf8_len base) || ltb 3 (utf8_len ext)
  | none ↦ ltb 8 (utf8_len name)
]

unfoldable pub needs_lfn : List ℕ → Bool
needs_lfn name =
    if ltb 12 (utf8_len name)
    then true
    else if too_long name
    then true
    else any_char needs_long name
