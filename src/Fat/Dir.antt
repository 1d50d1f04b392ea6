-- ===== src/Fat/Dir.antt =====
-- Directories in fat32.rs: what `read_directory` makes of the bytes of a chain, and the places that
-- entries are written to.
pub mod Slots
pub mod Items
pub mod Read
pub mod Image
pub mod Delete
pub mod Examples
use vyper.Prelude.{
  ℕ, zero, suc, ◌+◌, ◌-◌, ◌*◌, ◌/◌, Bool, true, ◌||◌, ◌&&◌, Option, none, some, List, [], ◌∷◌, ◌++◌,
  if◌then◌else◌, ◌==◌, ltb, leb, Bytes, bytes_eq, Result, ok, err, panic, stuck, length, get_or,
  set, take, drop,
}
use vyper.Block.Device.{Message, invalid_entry_offset}
use vyper.Fat.Entry
use vyper.Fat.Entry.{ShortDirEntry}
use vyper.Fat.Long
use vyper.Fat.Long.{LfnEntry, lfn_checksum, assemble_lfn}
use vyper.Fat.Name.{full_stop}

pub record FatDirEntry : Type 0 where
  pub name : List ℕ
  pub short_entry : ShortDirEntry
  pub lfn_entries : List LfnEntry
  pub entry_offset : ℕ
  pub entry_count : ℕ

-- `take_while(|c| c != ' ')`, and `to_ascii_lowercase` of each
unfoldable pub until_space : Bytes → List ℕ
until_space [] = []
until_space (c ∷ cs) =
    let rest = until_space cs in
    if c == 0x20 then [] else (if leb b'A' c && leb c b'Z' then c + 32 else c) ∷ rest

unfoldable pub short_name : ShortDirEntry → List ℕ
short_name self =
    let ext_part = until_space (drop 8 self.name) in
    let name_part = until_space (take 8 self.name) in
    if bytes_eq ext_part [] then name_part else name_part ++ (full_stop ∷ ext_part)

-- `e.checksum == expected_checksum` for all
unfoldable pub all_checksums : ℕ → List LfnEntry → Bool
all_checksums expected [] = true
all_checksums expected (e ∷ es) = (e.checksum == expected) && all_checksums expected es

unfoldable pub entry_name : ShortDirEntry → List LfnEntry → List ℕ
entry_name short [] = short_name short
entry_name short (l ∷ ls) =
    if all_checksums (lfn_checksum short.name) (l ∷ ls)
    then assemble_lfn (l ∷ ls)
    else short_name short

-- The entry that is pushed: not for `.` and `..`.
unfoldable pub listed : ShortDirEntry → List LfnEntry → ℕ → ℕ → List FatDirEntry
listed short lfn_parts lfn_start_offset i =
    let own = short_name short in
    if bytes_eq own (full_stop ∷ []) || bytes_eq own (full_stop ∷ full_stop ∷ [])
    then []
    else (record {
      name = entry_name short lfn_parts;
      short_entry = short;
      lfn_entries = lfn_parts;
      entry_offset = if leb 1 (length lfn_parts) then lfn_start_offset else i;
      entry_count = length lfn_parts + 1;
    })
      ∷ []

-- What a round of the loop leaves: the entries that it pushed, `lfn_parts` and `lfn_start_offset`.
abbrev pub Round : Type 0
Round = List FatDirEntry × List LfnEntry × ℕ

unfoldable pub long_round : Option LfnEntry → List LfnEntry → ℕ → ℕ → Round
long_round none lfn_parts start i = ([], lfn_parts, start)
long_round (some lfn) lfn_parts start i =
    if Long.is_last lfn then ([], lfn ∷ [], i) else ([], lfn_parts ++ (lfn ∷ []), start)

unfoldable pub short_round : Option ShortDirEntry → List LfnEntry → ℕ → ℕ → Round
short_round none lfn_parts start i = ([], lfn_parts, start)
short_round (some short) lfn_parts start i =
    if Entry.is_volume_label short
    then ([], [], start)
    else (listed short lfn_parts start i, [], start)

-- A round of the loop of `read_directory` at offset `i`; `none` is its `break`.
unfoldable pub round : Bytes → List LfnEntry → ℕ → ℕ → Option Round
round entry_data lfn_parts start i =
    if get_or entry_data 0 0 == 0
    then none
    else if get_or entry_data 0 0 == 0xE5
    then some ([], [], start)
    else if get_or entry_data 11 0 == 0x0F
    then some (long_round (Long.parse entry_data) lfn_parts start i)
    else some (short_round (Entry.parse entry_data) lfn_parts start i)

-- The loop, with `n` whole slots left.
unfoldable pub scan : ℕ → ℕ → List LfnEntry → ℕ → Bytes → List FatDirEntry
scan zero i lfn_parts start bytes = []
scan (suc n) i lfn_parts start bytes = elim (round (take 32 (drop i bytes)) lfn_parts start i) [
  | none ↦ []
  | some (pushed, lfn_parts', start') ↦ pushed ++ scan n (i + 32) lfn_parts' start' bytes
]

unfoldable pub read_entries : Bytes → List FatDirEntry
read_entries bytes = scan (length bytes / 32) 0 [] 0 bytes

-- The loop of `find_free_dir_slots`: the offset of enough free slots, or how many free slots stand at
-- the end and where they start.
unfoldable pub find_slots : ℕ → ℕ → ℕ → ℕ → ℕ → Bytes → Option ℕ × ℕ × ℕ
find_slots zero i needed free start bytes = (none, free, start)
find_slots (suc n) i needed free start bytes =
    let is_free = (get_or bytes i 0 == 0) || (get_or bytes i 0 == 0xE5) in
    let free' = if is_free then free + 1 else 0 in
    let start' = if is_free && (free == 0) then i else start in
    let rest = find_slots n (i + 32) needed free' start' bytes in
    if is_free && leb needed free' then (some start', free', start') else rest

-- `data[offset..offset + 32].copy_from_slice(entry)`
abbrev pub put_slot : Bytes → ℕ → Bytes → Result Message Bytes
put_slot bytes offset entry =
    if leb (offset + 32) (length bytes)
    then ok (take offset bytes ++ (entry ++ drop (offset + 32) bytes))
    else panic

-- The writes of `add_dir_entry`: the entries of the long name, then the short one.
unfoldable pub put_slots : Bytes → ℕ → List Bytes → Result Message Bytes
put_slots bytes offset [] = ok bytes
put_slots bytes offset (slot ∷ slots) = elim (put_slot bytes offset slot) [
  | ok bytes' ↦ put_slots bytes' (offset + 32) slots
  | err e ↦ err e
  | panic ↦ panic
  | stuck ↦ stuck
]

-- The loop of `remove_dir_entry`.
unfoldable pub delete_slots : ℕ → ℕ → Bytes → Bytes
delete_slots zero offset bytes = bytes
delete_slots (suc n) offset bytes = delete_slots n (offset + 32) (set bytes offset 0xE5)

-- The change of `update_dir_entry`.
unfoldable pub updated : Bytes → FatDirEntry → Result Message Bytes
updated bytes entry =
    let short_offset = entry.entry_offset + (entry.entry_count - 1) * 32 in
    if ltb (length bytes) (short_offset + 32)
    then err invalid_entry_offset
    else put_slot bytes short_offset (Entry.serialize entry.short_entry)

-- The first entry whose name is the same in lower case. `lower` is `str::to_lowercase`.
unfoldable pub find_entry : (List ℕ → List ℕ) → List ℕ → List FatDirEntry → Option FatDirEntry
find_entry lower name_lower [] = none
find_entry lower name_lower (e ∷ es) =
    if bytes_eq (lower e.name) name_lower then some e else find_entry lower name_lower es
