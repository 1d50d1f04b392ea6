-- ===== src/Fat/Dir/Examples.antt =====
-- A directory of a file with a short name, a free slot and a file with a long name.
use vyper.Prelude.{
  bytes, ℕ, zero, suc, ◌+◌, ◌≡◌, refl, Bool, true, not, ◌&&◌, ltb, ◌==◌, Bytes, List, [], ◌∷◌, ◌++◌,
  length, replicate, arith,
}
use vyper.Fat.Entry
use vyper.Fat.Entry.{ShortDirEntry, IsEntry}
use vyper.Fat.Long.{create_lfn_entries, is_char}
use vyper.Fat.Long.Fill.{IsName}
use vyper.Fat.Dir.{FatDirEntry, read_entries, short_name, until_space}
use vyper.Fat.Dir.Slots.{AllSlots}
use vyper.Fat.Dir.Items.{
  Item, short_item, long_item, deleted, entry_of_item, entries_of_all, IsFile, IsItem, AllItems,
}
use vyper.Fat.Dir.Image.{image, read_entries-image}
use vyper.Fat.Dir.Delete.{offset_behind}

abbrev pub short_a : ShortDirEntry
short_a = Entry.new (bytes "A       TXT") 0x20 5 12

abbrev pub short_b : ShortDirEntry
short_b = Entry.new (bytes "A_LONG_FTXT") 0x20 6 40

abbrev pub long_name : List ℕ
long_name = bytes "a long file.txt"

abbrev pub empty_slot : Bytes
empty_slot = replicate 32 0

abbrev pub before : List Item
before = short_item short_a ∷ deleted (0xE5 ∷ replicate 31 1) ∷ []

abbrev pub target : Item
target = long_item long_name short_b

abbrev pub empty_slots : List Bytes
empty_slots = replicate 27 empty_slot

short_a-IsFile : IsFile short_a
unfolding Entry.new Entry.is_volume_label short_name until_space
short_a-IsFile = record {
  fields = record {
    name_length = refl;
    in_use = omega arith;
    words = omega arith;
    size_bits = omega arith;
  };
  used = omega arith;
  kind = refl;
  no_label = refl;
  no_dots = (refl, refl);
}

short_b-IsFile : IsFile short_b
unfolding Entry.new Entry.is_volume_label short_name until_space
short_b-IsFile = record {
  fields = record {
    name_length = refl;
    in_use = omega arith;
    words = omega arith;
    size_bits = omega arith;
  };
  used = omega arith;
  kind = refl;
  no_label = refl;
  no_dots = (refl, refl);
}

abbrev good : List ℕ → Bool
good [] = true
good (c ∷ cs) = not (c == 0) && ltb c 0xFFFF && is_char c && good cs

names : (cs : List ℕ) → good cs ≡ true → IsName cs
names [] h = tt
names (c ∷ cs) h = ((ground arith, ground arith, ground arith), names cs (ground arith))

pub before-AllItems : AllItems before
before-AllItems = (short_a-IsFile, ((refl, refl), tt))

pub target-IsItem : IsItem target
target-IsItem = (short_b-IsFile, names long_name refl, omega arith, omega arith)

slots : (n : ℕ) → AllSlots (replicate n empty_slot)
slots zero = tt
slots (suc n) = (refl, slots n)

pub empty-AllSlots : AllSlots empty_slots
empty-AllSlots = slots 27

abbrev pub target_entry : FatDirEntry
target_entry = record {
  name = long_name;
  short_entry = short_b;
  lfn_entries = create_lfn_entries long_name short_b.name;
  entry_offset = 64;
  entry_count = length (create_lfn_entries long_name short_b.name) + 1;
}

pub target_entry_lem : entry_of_item target (offset_behind before) ≡ target_entry ∷ []
target_entry_lem = refl

read_entries-image_example :
    read_entries (image (before ++ (target ∷ [])) empty_slots)
    ≡ entries_of_all (before ++ (target ∷ [])) 0
read_entries-image_example =
    read_entries-image (before ++ (target ∷ [])) empty_slots
      (short_a-IsFile, ((refl, refl), (target-IsItem, tt))) empty-AllSlots refl
