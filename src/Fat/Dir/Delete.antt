-- ===== src/Fat/Dir/Delete.antt =====
-- Removing an entry from the image of a directory.
use vyper.Prelude.{
  ℕ, suc, ◌+◌, ◌*◌, ◌≡◌, ◌≤◌, refl, ap, sym, ◌∙◌, List, [], ◌∷◌, ◌++◌, map, Bytes, length, get_or,
  set, arith, length-append, length-map, length-set,
}
use mathlib.Core.List.{append_assoc}
use vyper.Fat.Entry
use vyper.Fat.Entry.{ShortDirEntry}
use vyper.Fat.Long
use vyper.Fat.Long.{LfnEntry, create_lfn_entries}
use vyper.Fat.Dir.{FatDirEntry, read_entries, delete_slots}
use vyper.Fat.Dir.Slots.{AllSlots, flat, length-flat}
use vyper.Fat.Dir.Items.{
  Item, short_item, long_item, deleted, slots_of, slots_of_all, entry_of_item, entries_of_all,
  IsItem, AllItems,
}
use vyper.Fat.Dir.Image.{IsEnd, items-AllSlots, item-AllSlots, image, read_entries-image}

-- The slots of an item, each marked as free.
abbrev gone : List Bytes → List Item
gone [] = []
gone (slot ∷ slots) = deleted (set slot 0 0xE5) ∷ gone slots

pub flat-append : (xs ys : List Bytes) → flat (xs ++ ys) ≡ flat xs ++ flat ys
flat-append [] ys = refl
flat-append (x ∷ xs) ys = ap (◌++◌ x) (flat-append xs ys) ∙ sym (append_assoc x (flat xs) (flat ys))

abbrev mark : Bytes → Bytes
mark slot = set slot 0 0xE5

set-first : (slot rest : Bytes) → 1 ≤ length slot → set (slot ++ rest) 0 0xE5 ≡ mark slot ++ rest
set-first [] rest h = absurd (omega arith)
set-first (b ∷ bs) rest h = refl

set-behind :
    (before rest : Bytes) → set (before ++ rest) (length before) 0xE5 ≡ before ++ set rest 0 0xE5
set-behind [] rest = refl
set-behind (b ∷ bs) rest = ap (◌∷◌ b) (set-behind bs rest)

delete_slots-flat :
    (before : Bytes) (slots : List Bytes) (after : Bytes) (offset : ℕ)
    → AllSlots slots
    → offset ≡ length before
    → delete_slots (length slots) offset (before ++ (flat slots ++ after))
      ≡ before ++ (flat (map mark slots) ++ after)
unfolding delete_slots
delete_slots-flat before [] after offset h at = refl
delete_slots-flat before (slot ∷ slots) after offset (size, h) at =
    let rest = flat slots ++ after in
    let grouped : before ++ ((slot ++ flat slots) ++ after) ≡ before ++ (slot ++ rest) =
      ap (◌++◌ before) (append_assoc slot (flat slots) after) in
    let marked : set (before ++ (slot ++ rest)) offset 0xE5 ≡ (before ++ mark slot) ++ rest =
      ap (λ k. set (before ++ (slot ++ rest)) k 0xE5) at
      ∙ (set-behind before (slot ++ rest)
          ∙ (ap (◌++◌ before) (set-first slot rest (omega arith))
              ∙ sym (append_assoc before (mark slot) rest))) in
    let len = length-append before (mark slot) in
    let more =
      delete_slots-flat (before ++ mark slot) slots after (offset + 32) h
        (omega (arith, len, length-set slot 0 0xE5)) in
    ap (λ b. delete_slots (length slots) (offset + 32) (set b offset 0xE5)) grouped
    ∙ (ap (delete_slots (length slots) (offset + 32)) marked
        ∙ (more
            ∙ (append_assoc before (mark slot) (flat (map mark slots) ++ after)
                ∙ ap (◌++◌ before) (sym (append_assoc (mark slot) (flat (map mark slots)) after)))))

mark-get_or : (slot : Bytes) → length slot ≡ 32 → get_or (mark slot) 0 0 ≡ 0xE5
mark-get_or [] h = absurd (omega arith)
mark-get_or (b ∷ bs) h = refl

gone-AllItems : (slots : List Bytes) → AllSlots slots → AllItems (gone slots)
gone-AllItems [] h = tt
gone-AllItems (slot ∷ slots) h =
    ((length-set slot 0 0xE5 ∙ h.0, mark-get_or slot h.0), gone-AllItems slots h.1)

gone-slots : (slots : List Bytes) → slots_of_all (gone slots) ≡ map mark slots
gone-slots [] = refl
gone-slots (slot ∷ slots) = ap (◌∷◌ (mark slot)) (gone-slots slots)

gone-entries :
    (slots : List Bytes) (i : ℕ) (ts : List Item)
    → entries_of_all (gone slots ++ ts) i ≡ entries_of_all ts (i + length slots * 32)
gone-entries [] i ts = ap (entries_of_all ts) (let e : i ≡ i + 0 * 32 = omega arith in e)
gone-entries (slot ∷ slots) i ts = gone-entries slots (i + 1 * 32) ts ∙ ap (entries_of_all ts) next
  where
    next : i + 1 * 32 + length slots * 32 ≡ i + suc (length slots) * 32
    next = omega arith

slots_of_all-append :
    (xs ys : List Item) → slots_of_all (xs ++ ys) ≡ slots_of_all xs ++ slots_of_all ys
slots_of_all-append [] ys = refl
slots_of_all-append (x ∷ xs) ys =
    ap (◌++◌ (slots_of x)) (slots_of_all-append xs ys)
    ∙ sym (append_assoc (slots_of x) (slots_of_all xs) (slots_of_all ys))

-- Where the item behind others stands.
abbrev pub offset_behind : List Item → ℕ
offset_behind ts = length (slots_of_all ts) * 32

entries-append :
    (xs ys : List Item) (i : ℕ)
    → entries_of_all (xs ++ ys) i ≡ entries_of_all xs i ++ entries_of_all ys (i + offset_behind xs)
entries-append [] ys i = ap (entries_of_all ys) (let e : i ≡ i + 0 * 32 = omega arith in e)
entries-append (x ∷ xs) ys i =
    ap (◌++◌ (entry_of_item x i)) (
      entries-append xs ys (i + length (slots_of x) * 32)
      ∙ ap (λ k. entries_of_all xs (i + length (slots_of x) * 32) ++ entries_of_all ys k) next)
    ∙ sym (
        append_assoc (entry_of_item x i) (entries_of_all xs (i + length (slots_of x) * 32))
          (entries_of_all ys (i + offset_behind (x ∷ xs))))
  where
    next : i + length (slots_of x) * 32 + offset_behind xs ≡ i + offset_behind (x ∷ xs)
    next = omega (arith, length-append (slots_of x) (slots_of_all xs))

AllItems-append : (xs ys : List Item) → AllItems xs → AllItems ys → AllItems (xs ++ ys)
AllItems-append [] ys h k = k
AllItems-append (x ∷ xs) ys h k = (h.0, AllItems-append xs ys h.1 k)

abbrev first_place : List FatDirEntry → ℕ × ℕ
first_place [] = (0, 0)
first_place (e ∷ es) = (e.entry_offset, e.entry_count)

one_entry :
    (t : Item) (i : ℕ) (e : FatDirEntry)
    → entry_of_item t i ≡ e ∷ []
    → (e.entry_offset ≡ i) × (e.entry_count ≡ length (slots_of t))
one_entry (short_item short) i e q =
    let places = ap first_place (sym q) in (ap (λ p. p.0) places, ap (λ p. p.1) places)
one_entry (long_item name short) i e q =
    let places = ap first_place (sym q) in
    let es = create_lfn_entries name short.name in
    let size = length-append (map Long.serialize es) (Entry.serialize short ∷ []) in
    (ap (λ p. p.0) places, ap (λ p. p.1) places ∙ omega (arith, size, length-map Long.serialize es))
one_entry (deleted slot) i e q = cc

module _ (before after : List Item) (t : Item) (tail : List Bytes) (h : AllItems before)
    (it : IsItem t) (k : AllItems after) (size : AllSlots tail) (last : IsEnd tail) where
  -- The slots of the item behind `before` become free.
  delete_slots-image :
      delete_slots (length (slots_of t)) (offset_behind before) (image (before ++ (t ∷ after)) tail)
      ≡ image (before ++ (gone (slots_of t) ++ after)) tail
  delete_slots-image =
      let front = slots_of_all before in
      let back = slots_of_all after ++ tail in
      let opened : image (before ++ (t ∷ after)) tail
          ≡ flat front ++ (flat (slots_of t) ++ flat back) =
        parts (t ∷ after) (slots_of t) (append_assoc (slots_of t) (slots_of_all after) tail) in
      let closed : image (before ++ (gone (slots_of t) ++ after)) tail
          ≡ flat front ++ (flat (map mark (slots_of t)) ++ flat back) =
        parts (gone (slots_of t) ++ after) (map mark (slots_of t)) (
          ap (λ l. l ++ tail)
            (slots_of_all-append (gone (slots_of t)) after
              ∙ ap (λ l. l ++ slots_of_all after) (gone-slots (slots_of t)))
          ∙ append_assoc (map mark (slots_of t)) (slots_of_all after) tail) in
      ap (delete_slots (length (slots_of t)) (offset_behind before)) opened
      ∙ (delete_slots-flat (flat front) (slots_of t) (flat back) (offset_behind before)
            (item-AllSlots t it) (sym (length-flat front (items-AllSlots before h)))
          ∙ sym closed)
    where
      parts :
          (ts : List Item) (middle : List Bytes)
          → slots_of_all ts ++ tail ≡ middle ++ (slots_of_all after ++ tail)
          → image (before ++ ts) tail
            ≡ flat (slots_of_all before) ++ (flat middle ++ flat (slots_of_all after ++ tail))
      parts ts middle e =
          ap (λ l. flat (l ++ tail)) (slots_of_all-append before ts)
          ∙ (ap flat (append_assoc (slots_of_all before) (slots_of_all ts) tail)
              ∙ (flat-append (slots_of_all before) (slots_of_all ts ++ tail)
                  ∙ ap (◌++◌ (flat (slots_of_all before)))
                      (ap flat e ∙ flat-append middle (slots_of_all after ++ tail))))

  -- Marking the slots of an entry removes it from what `read_directory` makes of the directory, and
  -- no other entry: the others are read as before, in their order and at their offsets.
  pub read_entries-delete_slots :
      (e : FatDirEntry)
      → entry_of_item t (offset_behind before) ≡ e ∷ []
      → (read_entries (image (before ++ (t ∷ after)) tail)
          ≡ entries_of_all before 0
            ++ (e ∷ entries_of_all after (offset_behind before + length (slots_of t) * 32)))
        × (read_entries
              (delete_slots e.entry_count e.entry_offset (image (before ++ (t ∷ after)) tail))
            ≡ entries_of_all before 0
              ++ entries_of_all after (offset_behind before + length (slots_of t) * 32))
  read_entries-delete_slots e q =
      let (at, count) = one_entry t (offset_behind before) e q in
      let none_yet : 0 + offset_behind before ≡ offset_behind before = omega arith in
      let stop = offset_behind before + length (slots_of t) * 32 in
      (
        read_entries-image (before ++ (t ∷ after)) tail
              (AllItems-append before (t ∷ after) h (it, k)) size last
            ∙ (entries-append before (t ∷ after) 0
                ∙ ap (◌++◌ (entries_of_all before 0)) (
                    ap (entries_of_all (t ∷ after)) none_yet
                    ∙ ap (λ l. l ++ entries_of_all after stop) q)),
        ap (λ n. read_entries (delete_slots n e.entry_offset (image (before ++ (t ∷ after)) tail)))
              count
            ∙ (ap
                  (λ n.
                    read_entries
                      (delete_slots (length (slots_of t)) n (image (before ++ (t ∷ after)) tail)))
                  at
                ∙ (ap read_entries delete_slots-image
                    ∙ (read_entries-image (before ++ (gone (slots_of t) ++ after)) tail
                          (AllItems-append before (gone (slots_of t) ++ after) h (
                            AllItems-append (gone (slots_of t)) after
                              (gone-AllItems (slots_of t) (item-AllSlots t it)) k))
                          size last
                        ∙ (entries-append before (gone (slots_of t) ++ after) 0
                            ∙ ap (◌++◌ (entries_of_all before 0)) (
                                ap (entries_of_all (gone (slots_of t) ++ after)) none_yet
                                ∙ gone-entries (slots_of t) (offset_behind before) after))))),
      )
