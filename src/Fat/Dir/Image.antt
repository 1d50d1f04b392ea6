-- ===== src/Fat/Dir/Image.antt =====
-- Reading the image of a directory.
use vyper.Prelude.{
  ℕ, ◌+◌, ◌*◌, ◌≡◌, refl, ap, ◌∙◌, true, List, [], ◌∷◌, ◌++◌, map, ◌==◌, Bytes, length, get_or,
}
use mathlib.Core.List.{append_assoc}
use vyper.Fat.Entry
use vyper.Fat.Entry.{ShortDirEntry}
use vyper.Fat.Long
use vyper.Fat.Long.{LfnEntry, create_lfn_entries}
use vyper.Fat.Long.Slots.{serialize_slot}
use vyper.Fat.Dir.{round, read_entries}
use vyper.Fat.Dir.Slots.{AllSlots, flat, scan_slots, read_entries-flat}
use vyper.Fat.Dir.Items.{
  Item, short_item, long_item, deleted, slots_of, slots_of_all, entry_of_item, entries_of_all,
  IsItem, AllItems, short_slot,
}
use vyper.Fat.Dir.Read.{scan-item, start_after, long_parts, AllParts}

-- Nothing, or a slot that ends the directory, and any others behind it.
abbrev pub IsEnd : List Bytes → Type 0
IsEnd [] = Unit
IsEnd (slot ∷ slots) = get_or slot 0 0 ≡ 0

scan-items :
    (ts : List Item) (tail : List Bytes) (i start : ℕ)
    → AllItems ts
    → IsEnd tail
    → scan_slots (slots_of_all ts ++ tail) i [] start ≡ entries_of_all ts i
unfolding scan_slots round
scan-items [] [] i start h last = refl
scan-items [] (slot ∷ slots) i start h last =
    let a : (get_or slot 0 0 == 0) ≡ true = ap (λ n. n == 0) last in rw (a, scan_slots) refl
scan-items (t ∷ ts) tail i start (h, hs) last =
    ap (λ l. scan_slots l i [] start) (append_assoc (slots_of t) (slots_of_all ts) tail)
    ∙ (scan-item t i start (slots_of_all ts ++ tail) h
        ∙ ap (◌++◌ (entry_of_item t i))
            (scan-items ts tail (i + length (slots_of t) * 32) (start_after t i start) hs last))

pub AllSlots-append : (xs ys : List Bytes) → AllSlots xs → AllSlots ys → AllSlots (xs ++ ys)
AllSlots-append [] ys h k = k
AllSlots-append (x ∷ xs) ys h k = (h.0, AllSlots-append xs ys h.1 k)

parts-AllSlots :
    (checksum : ℕ) (es : List LfnEntry) → AllParts checksum es → AllSlots (map Long.serialize es)
parts-AllSlots checksum [] h = tt
parts-AllSlots checksum (e ∷ es) h =
    let part = h.0 in ((serialize_slot e part.long).0, parts-AllSlots checksum es h.1)

pub item-AllSlots : (t : Item) → IsItem t → AllSlots (slots_of t)
item-AllSlots (short_item short) h = ((short_slot short h).0, tt)
item-AllSlots (deleted slot) h = (h.0, tt)
item-AllSlots (long_item name short) (h, good, some_chars, short_enough) =
    let (e, es, parts) = long_parts short name some_chars short_enough in
    let first = parts.first in
    rw parts.made (
      (serialize_slot e first.long).0,
      AllSlots-append (map Long.serialize es) (Entry.serialize short ∷ [])
          (parts-AllSlots _ es parts.others) ((short_slot short h).0, tt),
    )

pub items-AllSlots : (ts : List Item) → AllItems ts → AllSlots (slots_of_all ts)
items-AllSlots [] h = tt
items-AllSlots (t ∷ ts) h =
    AllSlots-append (slots_of t) (slots_of_all ts) (item-AllSlots t h.0) (items-AllSlots ts h.1)

-- The bytes of a directory.
abbrev pub image : List Item → List Bytes → Bytes
image ts tail = flat (slots_of_all ts ++ tail)

-- Of the slots of items, which are files and directories with short or long names and slots that are
-- free again, and of an end of the directory, `read_directory` makes the entries of the items in order:
-- each with its name, its short entry, the entries of its long name, and its offset and count of slots.
pub read_entries-image :
    (ts : List Item) (tail : List Bytes)
    → AllItems ts
    → AllSlots tail
    → IsEnd tail
    → read_entries (image ts tail) ≡ entries_of_all ts 0
read_entries-image ts tail h k last =
    read_entries-flat (slots_of_all ts ++ tail)
      (AllSlots-append (slots_of_all ts) tail (items-AllSlots ts h) k)
    ∙ scan-items ts tail 0 0 h last
