-- ===== src/Block/Table.antt =====
-- vcore/src/vfs/block/partition.rs: the partitions that an MBR or a GPT lists. A sector is a list
-- of 512 bytes; an index past its end reads 0 here, and the code never makes one but in `entry`,
-- where it panics.
pub mod Mbr
pub mod Gpt
mod Examples
use vyper.Prelude.{
  ℕ, zero, suc, ◌+◌, ◌-◌, ◌*◌, ◌/◌, ◌%◌, ◌^◌, min, Bool, true, false, not, ◌&&◌, ◌||◌, Option, none,
  some, List, [], ◌∷◌, if◌then◌else◌, leb, ltb, ◌==◌, Bytes, bytes_eq, Result, ok, err, panic,
  stuck, ◌>>=◌, length, get_or, take, drop, from_le,
}
use vyper.Block.Device.{BlockDevice, Message, no_mbr_signature, invalid_gpt_signature}

pub data PartitionType : Type 0 where
  fat32 linux efi_system : PartitionType
  unknown : ℕ → PartitionType

pub record PartitionInfo : Type 0 where
  pub index : ℕ
  pub start_lba : ℕ
  pub sector_count : ℕ
  pub partition_type : PartitionType

-- `from_le_bytes` of the `n` bytes at an offset
abbrev pub le_at : ℕ → ℕ → Bytes → ℕ
le_at n offset sector = from_le (take n (drop offset sector))

-- The `match` of `parse_mbr`; `none` is its `continue`.
abbrev pub mbr_type : ℕ → Option PartitionType
mbr_type ptype =
    if (ptype == 0x0B) || (ptype == 0x0C)
    then some fat32
    else if ptype == 0x83
    then some linux
    else if ptype == 0xEF
    then some efi_system
    else if ptype == 0xEE
    then none
    else some (unknown ptype)

-- What the round of `parse_mbr` for entry `i` pushes.
abbrev pub mbr_info : ℕ → ℕ → ℕ → ℕ → Option PartitionInfo
mbr_info i ptype start_lba sector_count = if ptype == 0 then none else elim (mbr_type ptype) [
  | none ↦ none
  | some t ↦
      some (record {
        index = i;
        start_lba = start_lba;
        sector_count = sector_count;
        partition_type = t;
      })
]

abbrev pub mbr_entry : Bytes → ℕ → Option PartitionInfo
mbr_entry mbr i =
    let offset = 446 + i * 16 in
    mbr_info i (get_or mbr (offset + 4) 0) (le_at 4 (offset + 8) mbr) (le_at 4 (offset + 12) mbr)

abbrev pub push_some : {A : Type 0} → Option A → List A → List A
push_some none xs = xs
push_some (some x) xs = x ∷ xs

-- The entries from `i` on, `n` of them.
unfoldable pub mbr_entries : Bytes → ℕ → ℕ → List PartitionInfo
mbr_entries mbr i zero = []
mbr_entries mbr i (suc n) = push_some (mbr_entry mbr i) (mbr_entries mbr (suc i) n)

unfoldable pub parse_mbr : Bytes → Result Message (List PartitionInfo)
parse_mbr mbr = ok (mbr_entries mbr 0 4)

abbrev pub efi_system_guid : Bytes
efi_system_guid =
    0x28 ∷ 0x73 ∷ 0x2A ∷ 0xC1 ∷ 0x1F ∷ 0xF8 ∷ 0xD2 ∷ 0x11 ∷ 0xBA ∷ 0x4B ∷ 0x00 ∷ 0xA0 ∷ 0xC9 ∷ 0x3E
    ∷ 0xC9 ∷ 0x3B ∷ []

abbrev pub basic_data_guid : Bytes
basic_data_guid =
    0xA2 ∷ 0xA0 ∷ 0xD0 ∷ 0xEB ∷ 0xE5 ∷ 0xB9 ∷ 0x33 ∷ 0x44 ∷ 0x87 ∷ 0xC0 ∷ 0x68 ∷ 0xB6 ∷ 0xB7 ∷ 0x26
    ∷ 0x99 ∷ 0xC7 ∷ []

abbrev pub linux_fs_guid : Bytes
linux_fs_guid =
    0xAF ∷ 0x3D ∷ 0xC6 ∷ 0x0F ∷ 0x83 ∷ 0x84 ∷ 0x72 ∷ 0x47 ∷ 0x8E ∷ 0x79 ∷ 0x3D ∷ 0x69 ∷ 0xD8 ∷ 0x47
    ∷ 0x7D ∷ 0xE4 ∷ []

unfoldable pub identify_gpt_type : Bytes → PartitionType
identify_gpt_type guid =
    if bytes_eq guid efi_system_guid
    then efi_system
    else if bytes_eq guid basic_data_guid
    then fat32
    else if bytes_eq guid linux_fs_guid
    then linux
    else unknown 0

abbrev pub all_zero : Bytes → Bool
all_zero [] = true
all_zero (b ∷ bs) = (b == 0) && all_zero bs

abbrev pub u32 : ℕ → ℕ
u32 a = a % 2 ^ 32

-- The part of the round of `parse_gpt` behind the read: an entry of `size` bytes at an offset of
-- the sector. Its slices and indices panic where the entry is out of the sector or too short.
unfoldable pub gpt_entry : Bytes → ℕ → ℕ → ℕ → Result Message (Option PartitionInfo)
gpt_entry sector i offset size =
    if ltb (length sector) (offset + size)
    then panic
    else (let entry = take size (drop offset sector) in
        if ltb (length entry) 16
        then panic
        else if all_zero (take 16 entry)
        then ok none
        else if ltb (length entry) 48
        then panic
        else (let start_lba = u32 (le_at 8 32 entry) in
            let end_lba = u32 (le_at 8 40 entry) in
            ok (
              some (record {
                index = i;
                start_lba = start_lba;
                sector_count = u32 (end_lba + (2 ^ 32 - start_lba) + 1);
                partition_type = identify_gpt_type (take 16 entry);
              }))))

module _ {D : Type 0} (dev : BlockDevice D) where
  -- The entries from `i` on, `n` of them; `count` entries of `size` bytes stand in a sector.
  unfoldable pub gpt_entries : D → ℕ → ℕ → ℕ → ℕ → ℕ → Result Message (List PartitionInfo)
  gpt_entries d lba count size i zero = ok []
  gpt_entries d lba count size i (suc n) = do
    -- `i / entries_per_sector`, which panics on 0
    sector ← (if count == 0 then panic else dev.read_sector d (u32 (lba + i / count)))
    entry ← gpt_entry sector i (u32 ((i % count) * size)) size
    rest ← gpt_entries d lba count size (suc i) n
    ok (push_some entry rest)

  unfoldable pub parse_gpt : D → Result Message (List PartitionInfo)
  parse_gpt d = do
    header ← dev.read_sector d 1
    -- "EFI PART"
    if not (bytes_eq (take 8 header) (69 ∷ 70 ∷ 73 ∷ 32 ∷ 80 ∷ 65 ∷ 82 ∷ 84 ∷ []))
        then err invalid_gpt_signature
        else (let lba = u32 (le_at 8 72 header) in
            let num_entries = le_at 4 80 header in
            let size = le_at 4 84 header in
            if size == 0
            then panic
            else gpt_entries d lba (512 / size) size 0 (min num_entries 128))

  unfoldable pub parse_partitions : D → Result Message (List PartitionInfo)
  parse_partitions d = do
    sector ← dev.read_sector d 0
    if not (get_or sector 510 0 == 0x55) || not (get_or sector 511 0 == 0xAA)
        then err no_mbr_signature
        else if get_or sector 450 0 == 0xEE
        then parse_gpt d
        else parse_mbr sector

  unfoldable pub first_partition : D → Result Message (Option PartitionInfo)
  first_partition d = do
    partitions ← parse_partitions d
    ok (elim partitions [ [] ↦ none | ◌∷◌ p ps ↦ some p ])

abbrev pub type_eq : PartitionType → PartitionType → Bool
type_eq fat32 fat32 = true
type_eq linux linux = true
type_eq efi_system efi_system = true
type_eq (unknown a) (unknown b) = a == b
type_eq s t = false

abbrev pub find : {A : Type 0} → (A → Bool) → List A → Option A
find test [] = none
find test (x ∷ xs) = let rest = find test xs in if test x then some x else rest

unfoldable pub find_partition :
    {D : Type 0} → BlockDevice D → D → PartitionType → Result Message (Option PartitionInfo)
find_partition dev d ptype = do
  partitions ← parse_partitions dev d
  ok (find (λ p. type_eq p.partition_type ptype) partitions)
