-- ===== src/Block/Device.antt =====
-- vcore/src/vfs/block/mod.rs: the trait `BlockDevice`, and a partition as a block device. A device
-- is a state that a write changes; the messages of the errors are constructors.
pub mod Laws
pub mod Memory
mod Examples
use vyper.Prelude.{
  ℕ, ◌+◌, ◌%◌, ◌^◌, Option, none, some, if◌then◌else◌, leb, Bytes, Result, ok, err, panic, stuck,
}

abbrev pub sector_size : ℕ
sector_size = 512

pub data Message : Type 0 where
  sector_out_of_bounds no_mbr_signature invalid_gpt_signature : Message
  no_free_clusters buffer_too_small invalid_entry_offset : Message
  path_not_found not_a_directory invalid_path parent_is_not_a_directory : Message
  invalid_boot_sector not_fat32 : Message
  device_error : ℕ → Message

pub record BlockDevice (D : Type 0) : Type 0 where
  pub read_sector : D → ℕ → Result Message Bytes
  pub write_sector : D → ℕ → Bytes → Result Message (Unit {0}) × D
  pub sector_count : D → Option ℕ

-- `num_blocks`
abbrev pub num_blocks : {D : Type 0} → BlockDevice D → D → ℕ
num_blocks dev d = elim (dev.sector_count d) [ none ↦ 0 | some n ↦ n ]

pub record Partition (D : Type 0) : Type 0 where
  pub device : D
  pub start_lba : ℕ
  pub sector_count : ℕ

module _ {D : Type 0} (dev : BlockDevice D) where
  -- `self.start_lba + lba` in 32 bits
  abbrev pub target : Partition D → ℕ → ℕ
  target self lba = (self.start_lba + lba) % 2 ^ 32

  unfoldable pub partition_read : Partition D → ℕ → Result Message Bytes
  partition_read self lba =
      if leb self.sector_count lba
      then err sector_out_of_bounds
      else dev.read_sector self.device (target self lba)

  unfoldable pub partition_write : Partition D → ℕ → Bytes → Result Message (Unit {0}) × Partition D
  partition_write self lba buf =
      if leb self.sector_count lba
      then (err sector_out_of_bounds, self)
      else (let (r, device') = dev.write_sector self.device (target self lba) buf in
          (r, record self { device = device' }))

  -- `impl BlockDevice for Partition`
  abbrev pub partition : BlockDevice (Partition D)
  partition = record {
    read_sector = partition_read;
    write_sector = partition_write;
    sector_count = λ self. some self.sector_count;
  }
