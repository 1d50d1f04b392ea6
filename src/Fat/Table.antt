-- ===== src/Fat/Table.antt =====
-- The allocation table of fat32.rs on a block device.
pub mod Word
pub mod Beside
pub mod Laws
use Prim.Native.Nat.{bit_and, bit_or}
use vyper.Prelude.{
  ℕ, zero, suc, ◌+◌, ◌*◌, ◌/◌, ◌%◌, ◌^◌, ◌++◌, Bytes, Result, ok, err, panic, stuck, ◌>>=◌, take,
  drop, to_le,
}
use vyper.Block.Device.{BlockDevice, Message}
use vyper.Fat.Bpb.{Bpb, fat_start_sector, le_at, u32}

-- Where the entry of a cluster stands: its offset in the table, in bytes.
abbrev pub fat_offset : ℕ → ℕ
fat_offset cluster = u32 (cluster * 4)

-- The sector of an entry in a table.
abbrev pub fat_sector : Bpb → ℕ → ℕ → ℕ
fat_sector bpb fat_num cluster =
    u32
      (u32 (fat_start_sector bpb + u32 (fat_num * bpb.sectors_per_fat)) + fat_offset cluster / 512)

abbrev pub low_bits : ℕ
low_bits = 0x0FFFFFFF

abbrev pub high_bits : ℕ
high_bits = 0xF0000000

-- `(existing & 0xF0000000) | (value & 0x0FFFFFFF)`
unfoldable pub merged : ℕ → ℕ → ℕ
merged existing value = bit_or (bit_and existing high_bits) (bit_and value low_bits)

-- The sector with the entry at an offset replaced.
unfoldable pub patched : Bytes → ℕ → ℕ → Bytes
patched sector offset value =
    take offset sector
    ++ (to_le 4 (merged (le_at 4 offset sector) value) ++ drop (offset + 4) sector)

module _ {D : Type 0} (dev : BlockDevice D) (bpb : Bpb) where
  -- The entry is in the first table.
  unfoldable pub get_fat_entry : D → ℕ → Result Message ℕ
  get_fat_entry d cluster = do
    sector ← dev.read_sector d (fat_sector bpb 0 cluster)
    ok (bit_and (le_at 4 (fat_offset cluster % 512) sector) low_bits)

  -- One table.
  unfoldable pub set_in : D → ℕ → ℕ → ℕ → Result Message (Unit {0}) × D
  set_in d fat_num cluster value = elim (dev.read_sector d (fat_sector bpb fat_num cluster)) [
    | ok sector ↦
        dev.write_sector d (fat_sector bpb fat_num cluster)
          (patched sector (fat_offset cluster % 512) value)
    | err e ↦ (err e, d)
    | panic ↦ (panic, d)
    | stuck ↦ (stuck, d)
  ]

  -- The loop of `set_fat_entry` from table `fat_num` on, `n` of them.
  unfoldable pub set_from : D → ℕ → ℕ → ℕ → ℕ → Result Message (Unit {0}) × D
  set_from d cluster value fat_num zero = (ok tt, d)
  set_from d cluster value fat_num (suc n) =
      let (r, d') = set_in d fat_num cluster value in
      let rest = set_from d' cluster value (suc fat_num) n in
      elim r [ ok u ↦ rest | err e ↦ (err e, d') | panic ↦ (panic, d') | stuck ↦ (stuck, d') ]

  unfoldable pub set_fat_entry : D → ℕ → ℕ → Result Message (Unit {0}) × D
  set_fat_entry d cluster value = set_from d cluster value 0 bpb.num_fats
