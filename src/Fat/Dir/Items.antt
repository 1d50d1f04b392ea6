-- ===== src/Fat/Dir/Items.antt =====
-- A directory as a list of items, the slots that they fill, and the entries that they are read as.
use vyper.Prelude.{
  ℕ, ◌+◌, ◌*◌, ◌≡◌, ◌≢◌, ◌≤◌, refl, ap, ◌∙◌, false, some, List, [], ◌∷◌, ◌++◌, map, ◌==◌, Bytes,
  bytes_eq, length, get_or, arith,
}
use vyper.Fat.Entry
use vyper.Fat.Entry.{ShortDirEntry, IsEntry}
use vyper.Fat.Long
use vyper.Fat.Long.{LfnEntry, lfn_checksum, lfn_entries, create_lfn_entries, assemble_lfn}
use vyper.Fat.Long.Fill.{IsName}
use vyper.Fat.Name.{full_stop}
use vyper.Fat.Dir.{FatDirEntry, short_name, listed, short_round, round}

-- A file or directory with a short name or with a long one, or a slot that is free again.
pub data Item : Type 0 where
  short_item : ShortDirEntry → Item
  long_item : List ℕ → ShortDirEntry → Item
  deleted : Bytes → Item

abbrev pub slots_of : Item → List Bytes
slots_of (short_item short) = Entry.serialize short ∷ []
slots_of (long_item name short) =
    map Long.serialize (create_lfn_entries name short.name) ++ (Entry.serialize short ∷ [])
slots_of (deleted slot) = slot ∷ []

abbrev pub slots_of_all : List Item → List Bytes
slots_of_all [] = []
slots_of_all (t ∷ ts) = slots_of t ++ slots_of_all ts

-- What an item at an offset is read as.
abbrev pub entry_of_item : Item → ℕ → List FatDirEntry
entry_of_item (short_item short) i =
    record {
      name = short_name short;
      short_entry = short;
      lfn_entries = [];
      entry_offset = i;
      entry_count = 1;
    }
    ∷ []
entry_of_item (long_item name short) i =
    record {
      name = name;
      short_entry = short;
      lfn_entries = create_lfn_entries name short.name;
      entry_offset = i;
      entry_count = length (create_lfn_entries name short.name) + 1;
    }
    ∷ []
entry_of_item (deleted slot) i = []

abbrev pub entries_of_all : List Item → ℕ → List FatDirEntry
entries_of_all [] i = []
entries_of_all (t ∷ ts) i = entry_of_item t i ++ entries_of_all ts (i + length (slots_of t) * 32)

-- A short entry of a file or directory but `.` and `..`.
pub record IsFile (short : ShortDirEntry) : Type 0 where
  pub fields : IsEntry short
  pub used : get_or short.name 0 0 ≢ 0xE5
  pub kind : (short.attr == 0x0F) ≡ false
  pub no_label : Entry.is_volume_label short ≡ false
  pub no_dots :
      (bytes_eq (short_name short) (full_stop ∷ []) ≡ false)
      × (bytes_eq (short_name short) (full_stop ∷ full_stop ∷ []) ≡ false)

abbrev pub IsItem : Item → Type 0
IsItem (short_item short) = IsFile short
IsItem (long_item name short) = IsFile short × IsName name × (1 ≤ length name) × (length name ≤ 255)
IsItem (deleted slot) = (length slot ≡ 32) × (get_or slot 0 0 ≡ 0xE5)

abbrev pub AllItems : List Item → Type 0
AllItems [] = Unit
AllItems (t ∷ ts) = IsItem t × AllItems ts

-- The slot of a short entry.
short_parts :
    (name : Bytes) (self : ShortDirEntry)
    → length name ≡ 11
    → (length (name ++ Entry.tail self) ≡ 32)
      × (get_or (name ++ Entry.tail self) 0 0 ≡ get_or name 0 0)
      × (get_or (name ++ Entry.tail self) 11 0 ≡ self.attr)
short_parts (a ∷ b ∷ c ∷ d ∷ e ∷ f ∷ g ∷ h ∷ i ∷ j ∷ k ∷ []) self l = (refl, refl, refl)
short_parts name self l = absurd (omega arith)

pub short_slot :
    (short : ShortDirEntry)
    → IsFile short
    → (length (Entry.serialize short) ≡ 32)
      × (get_or (Entry.serialize short) 0 0 ≡ get_or short.name 0 0)
      × (get_or (Entry.serialize short) 11 0 ≡ short.attr)
unfolding Entry.serialize
short_slot short h = short_parts short.name short h.fields.name_length

pub round-short :
    (short : ShortDirEntry) (lfn_parts : List LfnEntry) (start i : ℕ)
    → IsFile short
    → round (Entry.serialize short) lfn_parts start i
      ≡ some (listed short lfn_parts start i, [], start)
unfolding round short_round
round-short short lfn_parts start i h =
    let (size, first, attr) = short_slot short h in
    let in_use = h.fields.in_use in
    let used = h.used in
    let kind = h.kind in
    let a : (get_or (Entry.serialize short) 0 0 == 0) ≡ false = ground arith in
    let b : (get_or (Entry.serialize short) 0 0 == 0xE5) ≡ false = ground arith in
    let c : (get_or (Entry.serialize short) 11 0 == 0x0F) ≡ false =
      ap (λ n. n == 0x0F) attr ∙ kind in
    rw (a, b, c, Entry.parse-serialize short h.fields, h.no_label) refl
