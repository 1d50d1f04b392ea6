-- ===== src/Fat/Dir/Read.antt =====
-- What `read_directory` makes of the slots of items.
use vyper.Prelude.{
  ℕ, zero, suc, ◌+◌, ◌-◌, ◌*◌, ◌/◌, ◌%◌, ◌≡◌, ◌<◌, ◌≤◌, refl, ap, sym, ◌∙◌, min, Bool, true, false,
  some, List, [], ◌∷◌, ◌++◌, map, if◌then◌else◌, ◌==◌, leb, Bytes, length, get_or, take, drop,
  arith, length-append, length-map,
}
use mathlib.Core.List.{append-nil, append_assoc}
use vyper.Fat.Entry
use vyper.Fat.Entry.{ShortDirEntry, IsEntry}
use vyper.Fat.Long
use vyper.Fat.Long.{LfnEntry, lfn_checksum, lfn_entries, create_lfn_entries, assemble_lfn}
use vyper.Fat.Long.Fill.{IsName}
use vyper.Fat.Long.Round.{assemble_lfn-create_lfn_entries}
use vyper.Fat.Long.Slots.{IsLong, serialize_slot, new-IsLong, new_seq}
use vyper.Fat.Dir.{all_checksums, entry_name, listed, long_round, round}
use vyper.Fat.Dir.Slots.{scan_slots}
use vyper.Fat.Dir.Items.{
  Item, short_item, long_item, deleted, slots_of, entry_of_item, IsFile, IsItem, round-short,
}

-- An entry of a long name that is none of its last ones, and of a checksum.
pub record IsPart (checksum : ℕ) (last : Bool) (e : LfnEntry) : Type 0 where
  pub long : IsLong e
  pub seq : (1 ≤ e.seq) × (e.seq < 128)
  pub is_last : Long.is_last e ≡ last
  pub sum : e.checksum ≡ checksum

abbrev pub AllParts : ℕ → List LfnEntry → Type 0
AllParts checksum [] = Unit
AllParts checksum (e ∷ es) = IsPart checksum false e × AllParts checksum es

new-IsPart :
    (i checksum : ℕ) (cs : List ℕ) (last : Bool)
    → i < 63
    → IsPart checksum last (Long.new ((i + 1) % 256) checksum cs last)
new-IsPart i checksum cs true h =
    let (a, b, c) = new_seq ((i + 1) % 256) checksum cs true (omega arith) in
    record {
      long = new-IsLong ((i + 1) % 256) checksum cs true;
      seq = (omega arith, omega arith);
      is_last = b;
      sum = c;
    }
new-IsPart i checksum cs false h =
    let (a, b, c) = new_seq ((i + 1) % 256) checksum cs false (omega arith) in
    record {
      long = new-IsLong ((i + 1) % 256) checksum cs false;
      seq = (omega arith, omega arith);
      is_last = b;
      sum = c;
    }

-- Below the last entry stand entries that are not the last.
lower-AllParts :
    (checksum total : ℕ) (name : List ℕ) (n : ℕ)
    → n < total
    → total ≤ 63
    → AllParts checksum (lfn_entries checksum total name n)
unfolding lfn_entries
lower-AllParts checksum total name zero h k = tt
lower-AllParts checksum total name (suc i) h k =
    let inner : (i + 1 == total) ≡ false = ground arith in
    (
      rw inner (new-IsPart i checksum _ false (omega arith)),
      lower-AllParts checksum total name i (omega arith) k,
    )

round-part :
    (checksum : ℕ) (last : Bool) (e : LfnEntry) (lfn_parts : List LfnEntry) (start i : ℕ)
    → IsPart checksum last e
    → round (Long.serialize e) lfn_parts start i
      ≡ some (if last then ([], e ∷ [], i) else ([], lfn_parts ++ (e ∷ []), start))
unfolding round long_round
round-part checksum last e lfn_parts start i h =
    let (size, first, mark) = serialize_slot e h.long in
    let low = h.seq.0 in
    let high = h.seq.1 in
    let a : (get_or (Long.serialize e) 0 0 == 0) ≡ false = ground arith in
    let b : (get_or (Long.serialize e) 0 0 == 0xE5) ≡ false = ground arith in
    let c : (get_or (Long.serialize e) 11 0 == 0x0F) ≡ true = ap (λ n. n == 0x0F) mark in
    rw (a, b, c, Long.Slots.parse-serialize e h.long, h.is_last) refl

scan-parts :
    (checksum : ℕ) (es lfn_parts : List LfnEntry) (start i : ℕ) (rest : List Bytes)
    → AllParts checksum es
    → scan_slots (map Long.serialize es ++ rest) i lfn_parts start
      ≡ scan_slots rest (i + length es * 32) (lfn_parts ++ es) start
unfolding scan_slots
scan-parts checksum [] lfn_parts start i rest h =
    let e : i ≡ i + 0 * 32 = omega arith in
    ap (λ k. scan_slots rest k lfn_parts start) e
    ∙ ap (λ l. scan_slots rest (i + 0 * 32) l start) (sym (append-nil lfn_parts))
scan-parts checksum (e ∷ es) lfn_parts start i rest h =
    let step = round-part checksum false e lfn_parts start i h.0 in
    let next : i + 32 + length es * 32 ≡ i + length (e ∷ es) * 32 = omega arith in
    rw (step, scan_slots)
      (scan-parts checksum es (lfn_parts ++ (e ∷ [])) start (i + 32) rest h.1
        ∙ (ap (λ k. scan_slots rest k ((lfn_parts ++ (e ∷ [])) ++ es) start) next
            ∙ ap (λ l. scan_slots rest (i + length (e ∷ es) * 32) l start)
                (append_assoc lfn_parts (e ∷ []) es)))

all_checksums-parts :
    (checksum : ℕ) (es : List LfnEntry) → AllParts checksum es → all_checksums checksum es ≡ true
unfolding all_checksums
all_checksums-parts checksum [] h = refl
all_checksums-parts checksum (e ∷ es) h =
    let part = h.0 in let same = part.sum in ground (arith, all_checksums-parts checksum es h.1)

-- The last entry of a long name and those below it.
pub record LongParts (short : ShortDirEntry) (name : List ℕ) (e : LfnEntry) (es : List LfnEntry)
    : Type 0 where
  pub made : create_lfn_entries name short.name ≡ e ∷ es
  pub first : IsPart (lfn_checksum short.name) true e
  pub others : AllParts (lfn_checksum short.name) es

pub long_parts :
    (short : ShortDirEntry) (name : List ℕ)
    → 1 ≤ length name
    → length name ≤ 255
    → (e : LfnEntry) × (es : List LfnEntry) × LongParts short name e es
unfolding create_lfn_entries lfn_entries
long_parts short name some_chars short_enough = go ((length name + 12) / 13) refl
  where
    go :
        (n : ℕ)
        → (length name + 12) / 13 ≡ n
        → (e : LfnEntry) × (es : List LfnEntry) × LongParts short name e es
    go zero q = absurd (omega arith)
    go (suc i) q =
        let checksum = lfn_checksum short.name in
        let last : (i + 1 == suc i) ≡ true = ground arith in
        (
          Long.new ((i + 1) % 256) checksum
              (take (min (i * 13 + 13) (length name) - i * 13) (drop (i * 13) name))
              (i + 1 == suc i),
          lfn_entries checksum (suc i) name i,
          record {
            made = rw q refl;
            first = rw last (new-IsPart i checksum _ true (omega arith));
            others = lower-AllParts checksum (suc i) name i (omega arith) (omega arith);
          },
        )

listed-short :
    (short : ShortDirEntry) (start i : ℕ)
    → IsFile short
    → listed short [] start i ≡ entry_of_item (short_item short) i
unfolding listed entry_name
listed-short short start i h = rw (h.no_dots.0, h.no_dots.1) refl

listed-long :
    (short : ShortDirEntry) (name : List ℕ) (i j : ℕ) (e : LfnEntry) (es : List LfnEntry)
    → IsFile short
    → IsName name
    → LongParts short name e es
    → listed short (e ∷ es) i j ≡ entry_of_item (long_item name short) i
unfolding listed entry_name all_checksums
listed-long short name i j e es h good parts =
    let first = parts.first in
    let sum : (e.checksum == lfn_checksum short.name) ≡ true =
      let same = first.sum in ground arith in
    let valid : all_checksums (lfn_checksum short.name) (e ∷ es) ≡ true =
      rw (sum, all_checksums) (all_checksums-parts (lfn_checksum short.name) es parts.others) in
    let whole : assemble_lfn (e ∷ es) ≡ name =
      ap assemble_lfn (sym parts.made) ∙ assemble_lfn-create_lfn_entries name short.name good in
    let some_parts : leb 1 (length (e ∷ es)) ≡ true = ground arith in
    rw (h.no_dots.0, h.no_dots.1, valid, some_parts, whole, parts.made) refl

abbrev pub start_after : Item → ℕ → ℕ → ℕ
start_after (short_item short) i start = start
start_after (long_item name short) i start = i
start_after (deleted slot) i start = start

round-deleted :
    (slot : Bytes) (start i : ℕ)
    → (get_or slot 0 0 == 0) ≡ false
    → (get_or slot 0 0 == 0xE5) ≡ true
    → round slot [] start i ≡ some ([], [], start)
unfolding round
round-deleted slot start i a b = rw (a, b) refl

pub scan-item :
    (t : Item) (i start : ℕ) (rest : List Bytes)
    → IsItem t
    → scan_slots (slots_of t ++ rest) i [] start
      ≡ entry_of_item t i
        ++ scan_slots rest (i + length (slots_of t) * 32) [] (start_after t i start)
unfolding scan_slots
scan-item (short_item short) i start rest h =
    rw (round-short short [] start i h, scan_slots, listed-short short start i h) refl
scan-item (deleted slot) i start rest (size, gone) =
    let a : (get_or slot 0 0 == 0) ≡ false = ap (λ n. n == 0) gone in
    let b : (get_or slot 0 0 == 0xE5) ≡ true = ap (λ n. n == 0xE5) gone in
    rw (round-deleted slot start i a b, scan_slots) refl
scan-item (long_item name short) i start rest (h, good, some_chars, short_enough) =
    let (e, es, parts) = long_parts short name some_chars short_enough in
    let own = Entry.serialize short in
    let back = i + 32 + length es * 32 in
    let split : slots_of (long_item name short) ++ rest
        ≡ map Long.serialize (e ∷ es) ++ (own ∷ rest) =
      ap (λ l. (map Long.serialize l ++ (own ∷ [])) ++ rest) parts.made
      ∙ append_assoc (map Long.serialize (e ∷ es)) (own ∷ []) rest in
    let first : scan_slots (map Long.serialize (e ∷ es) ++ (own ∷ rest)) i [] start
        ≡ scan_slots (map Long.serialize es ++ (own ∷ rest)) (i + 32) (e ∷ []) i =
      rw (round-part (lfn_checksum short.name) true e [] start i parts.first, scan_slots) refl in
    let others =
      scan-parts (lfn_checksum short.name) es (e ∷ []) i (i + 32) (own ∷ rest) parts.others in
    let last : scan_slots (own ∷ rest) back (e ∷ es) i
        ≡ listed short (e ∷ es) i back ++ scan_slots rest (back + 32) [] i =
      rw (round-short short (e ∷ es) i back h, scan_slots) refl in
    let count = ap length parts.made in
    let stop : back + 32 ≡ i + length (slots_of (long_item name short)) * 32 = omega (
      arith,
      count,
      length-append (map Long.serialize (create_lfn_entries name short.name)) (own ∷ []),
      length-map Long.serialize (create_lfn_entries name short.name),
    ) in
    ap (λ l. scan_slots l i [] start) split
    ∙ (first
        ∙ (others
            ∙ (last
                ∙ (ap (λ l. l ++ scan_slots rest (back + 32) [] i)
                      (listed-long short name i back e es h good parts)
                    ∙ ap (λ k. entry_of_item (long_item name short) i ++ scan_slots rest k [] i)
                        stop))))
