-- ===== src/Block/Device/Laws.antt =====
-- What a block device promises, and that a partition of one keeps it.
use vyper.Prelude.{
  ℕ, ◌+◌, ◌%◌, ◌^◌, ◌≡◌, ◌≢◌, ◌<◌, ◌≤◌, ◌⊎◌, leb, Bytes, ok, err, arith, inl, inr, Bool-cases,
}
use vyper.Block.Device.{
  BlockDevice, Partition, partition_read, partition_write, target, sector_out_of_bounds,
}

-- A sector that was written reads as it was written, and a write changes no other sector. The
-- sectors are those whose numbers have 32 bits.
pub record Lawful {D : Type 0} (dev : BlockDevice D) : Type 0 where
  pub read_written :
      (d : D) (lba : ℕ) (buf : Bytes)
      → (dev.write_sector d lba buf).0 ≡ ok tt
      → dev.read_sector (dev.write_sector d lba buf).1 lba ≡ ok buf
  pub others_kept :
      (d : D) (lba k : ℕ) (buf : Bytes)
      → k ≢ lba
      → dev.read_sector (dev.write_sector d lba buf).1 k ≡ dev.read_sector d k

module _ {D : Type 0} (dev : BlockDevice D) (lawful : Lawful dev) where
  far_apart : (s a b : ℕ) → a < 2 ^ 32 → b < 2 ^ 32 → a ≢ b → (s + a) % 2 ^ 32 ≢ (s + b) % 2 ^ 32
  far_apart s a b ha hb h e = omega arith

  -- On a lawful device, a write to a partition of fewer than 2^32 sectors reads back when it
  -- succeeds, leaves the other sectors of the partition as they were, and keeps its bounds.
  pub partition_write_lem :
      (p : Partition D) (lba k : ℕ) (buf : Bytes)
      → p.sector_count < 2 ^ 32
      → ((partition_write dev p lba buf).0 ≡ ok tt
          → partition_read dev (partition_write dev p lba buf).1 lba ≡ ok buf)
        × (k ≢ lba
            → partition_read dev (partition_write dev p lba buf).1 k ≡ partition_read dev p k)
        × ((partition_write dev p lba buf).1.start_lba ≡ p.start_lba)
        × ((partition_write dev p lba buf).1.sector_count ≡ p.sector_count)
  unfolding partition_write partition_read
  partition_write_lem p lba k buf small = (
    (λ e. ground (arith, lawful.read_written p.device (target dev p lba) buf)),
    (λ other. elim (Bool-cases (leb p.sector_count lba)) [
      | inl o ↦ ground arith
      | inr i ↦ elim (Bool-cases (leb p.sector_count k)) [
        | inl o ↦ ground arith
        | inr j ↦
            let apart = far_apart p.start_lba k lba (ground arith) (ground arith) other in
            ground
              (arith, lawful.others_kept p.device (target dev p lba) (target dev p k) buf apart)
      ]
    ]),
    ground arith,
    ground arith,
  )

  -- On a lawful device, a partition within 2^32 sectors reads its sector from the device, behind
  -- `start_lba`; a call behind its last sector is an error that changes nothing; and a write changes
  -- no sector of the device outside of the partition.
  pub partition-Isolated :
      (p : Partition D) (lba m : ℕ) (buf : Bytes)
      → p.start_lba + p.sector_count ≤ 2 ^ 32
      → (lba < p.sector_count
          → partition_read dev p lba ≡ dev.read_sector p.device (p.start_lba + lba))
        × (p.sector_count ≤ lba
            → (partition_read dev p lba ≡ err sector_out_of_bounds)
              × (partition_write dev p lba buf ≡ (err sector_out_of_bounds, p)))
        × ((m < p.start_lba) ⊎ (p.start_lba + p.sector_count ≤ m)
            → dev.read_sector (partition_write dev p lba buf).1.device m
              ≡ dev.read_sector p.device m)
  unfolding partition_write partition_read
  partition-Isolated p lba m buf fits = (
    (λ h. let same : target dev p lba ≡ p.start_lba + lba = omega arith in ground arith),
    (λ h. (ground arith, ground arith)),
    (λ outside. elim (Bool-cases (leb p.sector_count lba)) [
      | inl o ↦ ground arith
      | inr i ↦
          let apart : m ≢ target dev p lba = λ e. away outside (ground arith) e in
          ground (arith, lawful.others_kept p.device (target dev p lba) m buf apart)
    ]),
  )
    where
      away :
          (m < p.start_lba) ⊎ (p.start_lba + p.sector_count ≤ m)
          → lba < p.sector_count
          → ¬ (m ≡ (p.start_lba + lba) % 2 ^ 32)
      away outside h e = omega arith
