-- ===== src/Block/Device/Examples.antt =====
-- A partition of a device in memory.
use vyper.Prelude.{ℕ, ◌+◌, ◌≡◌, ◌≢◌, ◌<◌, ◌≤◌, ◌⊎◌, Bytes, ok, err, List, [], ◌∷◌, arith, replicate}
use vyper.Block.Device.{Partition, partition_read, partition_write, sector_out_of_bounds}
use vyper.Block.Device.Memory.{memory, memory-Lawful}
use vyper.Block.Device.Laws.{partition_write_lem, partition-Isolated}

abbrev part : Partition (List Bytes)
part = record { device = replicate 5 (0 ∷ []); start_lba = 1; sector_count = 3 }

partition_write_lem_example :
    ((partition_write memory part 2 (7 ∷ [])).0 ≡ ok tt
      → partition_read memory (partition_write memory part 2 (7 ∷ [])).1 2 ≡ ok (7 ∷ []))
    × (◌≢◌ {A = ℕ} 1 2
        → partition_read memory (partition_write memory part 2 (7 ∷ [])).1 1
          ≡ partition_read memory part 1)
    × ((partition_write memory part 2 (7 ∷ [])).1.start_lba ≡ part.start_lba)
    × ((partition_write memory part 2 (7 ∷ [])).1.sector_count ≡ part.sector_count)
partition_write_lem_example =
    partition_write_lem memory memory-Lawful part 2 1 (7 ∷ []) (omega arith)

partition-Isolated_example :
    (3 < part.sector_count
      → partition_read memory part 3 ≡ memory.read_sector part.device (part.start_lba + 3))
    × (part.sector_count ≤ 3
        → (partition_read memory part 3 ≡ err sector_out_of_bounds)
          × (partition_write memory part 3 (7 ∷ []) ≡ (err sector_out_of_bounds, part)))
    × ((4 < part.start_lba) ⊎ (part.start_lba + part.sector_count ≤ 4)
        → memory.read_sector (partition_write memory part 3 (7 ∷ [])).1.device 4
          ≡ memory.read_sector part.device 4)
partition-Isolated_example = partition-Isolated memory memory-Lawful part 3 4 (7 ∷ []) (omega arith)
