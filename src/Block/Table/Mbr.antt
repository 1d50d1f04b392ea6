-- ===== src/Block/Table/Mbr.antt =====
-- `parse_mbr` of partition.rs reads back the table that is laid out in a boot record.
use vyper.Prelude.{
  ℕ, suc, Bool, not, ◌&&◌, ◌+◌, ◌*◌, ◌^◌, ◌≡◌, ◌<◌, refl, ap, sym, ◌∙◌, Option, none, some, List,
  [], ◌∷◌, ◌++◌, if◌then◌else◌, ◌==◌, Bytes, ok, length, get_or, take, arith, length-append,
  get_or_skip, drop_skip, to_le, from_le, from_le-to_le,
}
use mathlib.Core.List.{append_assoc}
use vyper.Block.Table.{
  mbr_info, PartitionInfo, PartitionType, fat32, linux, efi_system, unknown, parse_mbr, mbr_entries,
  mbr_entry, push_some, le_at,
}

-- An entry of the table: its status and its two cylinder addresses are not read.
pub record RawEntry : Type 0 where
  pub status : ℕ
  pub first_chs : ℕ × ℕ × ℕ
  pub ptype : ℕ
  pub last_chs : ℕ × ℕ × ℕ
  pub start : ℕ
  pub count : ℕ

-- The 16 bytes of an entry.
abbrev pub layout : RawEntry → Bytes
layout r =
    r.status
    ∷ r.first_chs.0
    ∷ r.first_chs.1
    ∷ r.first_chs.2
    ∷ r.ptype
    ∷ r.last_chs.0
    ∷ r.last_chs.1
    ∷ r.last_chs.2
    ∷ (to_le 4 r.start ++ to_le 4 r.count)

abbrev pub layout_all : List RawEntry → Bytes
layout_all [] = []
layout_all (r ∷ rs) = layout r ++ layout_all rs

-- The types that the format gives a name to here; 0 is an empty entry, and 0xEE stands for a
-- GPT, and neither is a partition.
abbrev pub names : List (ℕ × PartitionType)
names = (0x0B, fat32) ∷ (0x0C, fat32) ∷ (0x83, linux) ∷ (0xEF, efi_system) ∷ []

abbrev pub name_of : ℕ → List (ℕ × PartitionType) → PartitionType
name_of ptype [] = unknown ptype
name_of ptype ((code, name) ∷ rest) = if ptype == code then name else name_of ptype rest

abbrev pub is_partition : ℕ → Bool
is_partition ptype = not (ptype == 0) && not (ptype == 0xEE)

-- What is listed of an entry.
abbrev pub listed : ℕ → RawEntry → Option PartitionInfo
listed i r =
    if is_partition r.ptype
    then some (record {
      index = i;
      start_lba = r.start;
      sector_count = r.count;
      partition_type = name_of r.ptype names;
    })
    else none

mbr_info_lem : (i : ℕ) (r : RawEntry) → mbr_info i r.ptype r.start r.count ≡ listed i r
mbr_info_lem i r = ground arith

abbrev pub listed_all : ℕ → List RawEntry → List PartitionInfo
listed_all i [] = []
listed_all i (r ∷ rs) = push_some (listed i r) (listed_all (suc i) rs)

abbrev pub InBits : List RawEntry → Type 0
InBits [] = Unit
InBits (r ∷ rs) = (r.start < 2 ^ 32) × (r.count < 2 ^ 32) × InBits rs

mbr_entry_lem :
    (pre : Bytes) (r : RawEntry) (rest : Bytes) (i : ℕ)
    → length pre ≡ 446 + i * 16
    → r.start < 2 ^ 32
    → r.count < 2 ^ 32
    → mbr_entry (pre ++ (layout r ++ rest)) i ≡ listed i r
mbr_entry_lem pre r rest i l a b =
    let all = layout r ++ rest in
    let kind : get_or (pre ++ all) (446 + i * 16 + 4) 0 ≡ r.ptype =
      ap (λ k. get_or (pre ++ all) k 0) (place 4) ∙ get_or_skip pre all 4 0 in
    let first : le_at 4 (446 + i * 16 + 8) (pre ++ all) ≡ r.start =
      ap (λ k. le_at 4 k (pre ++ all)) (place 8)
      ∙ (ap (λ bs. from_le (take 4 bs)) (drop_skip pre all 8) ∙ from_le-to_le 4 r.start a) in
    let many : le_at 4 (446 + i * 16 + 12) (pre ++ all) ≡ r.count =
      ap (λ k. le_at 4 k (pre ++ all)) (place 12)
      ∙ (ap (λ bs. from_le (take 4 bs)) (drop_skip pre all 12) ∙ from_le-to_le 4 r.count b) in
    ap
      (λ t.
        mbr_info i t (le_at 4 (446 + i * 16 + 8) (pre ++ all))
          (le_at 4 (446 + i * 16 + 12) (pre ++ all)))
      kind
    ∙ (ap (λ a. mbr_info i r.ptype a (le_at 4 (446 + i * 16 + 12) (pre ++ all))) first
        ∙ ap (mbr_info i r.ptype r.start) many
        ∙ mbr_info_lem i r)
  where
    place : (k : ℕ) → 446 + i * 16 + k ≡ length pre + k
    place k = omega arith

mbr_entries_lem :
    (pre : Bytes) (rs : List RawEntry) (rest : Bytes) (i : ℕ)
    → length pre ≡ 446 + i * 16
    → InBits rs
    → mbr_entries (pre ++ (layout_all rs ++ rest)) i (length rs) ≡ listed_all i rs
unfolding mbr_entries
mbr_entries_lem pre [] rest i l h = refl
mbr_entries_lem pre (r ∷ rs) rest i l (a, b, h) =
    let behind = layout_all rs ++ rest in
    ap (λ bs. mbr_entries (pre ++ bs) i (length (r ∷ rs)))
      (append_assoc (layout r) (layout_all rs) rest)
    ∙ (ap (λ e. push_some e (mbr_entries (pre ++ (layout r ++ behind)) (suc i) (length rs)))
          (mbr_entry_lem pre r behind i l a b)
        ∙ ap (push_some (listed i r)) (
            ap (λ bs. mbr_entries bs (suc i) (length rs)) (sym (append_assoc pre (layout r) behind))
            ∙ mbr_entries_lem (pre ++ layout r) rs rest (suc i)
                (omega (arith, length-append pre (layout r))) h))

-- Whatever stands before the table and behind it, `parse_mbr` lists the four entries of a boot
-- record in order, with their index, and their start and length, numbers of 32 bits; it leaves out
-- those of type 0 and 0xEE, and names the type of the others: 0x0B and 0x0C are FAT32, 0x83 is
-- Linux, 0xEF is an EFI system partition, and any other is unknown, with its number.
pub parse_mbr_lem :
    (boot : Bytes) (rs : List RawEntry) (rest : Bytes)
    → length boot ≡ 446
    → length rs ≡ 4
    → InBits rs
    → parse_mbr (boot ++ (layout_all rs ++ rest)) ≡ ok (listed_all 0 rs)
unfolding parse_mbr
parse_mbr_lem boot rs rest l four h =
    ap (λ n. ok (mbr_entries (boot ++ (layout_all rs ++ rest)) 0 n)) (sym four)
    ∙ ap ok (mbr_entries_lem boot rs rest 0 (omega arith) h)
