-- ===== src/Fat/Chain/Examples.antt =====
-- A disk of eight sectors: the boot sector, a table of one sector, and clusters 2 to 7. Cluster 2
-- leads to 3; 5 and 6 lead to each other; 4 and 7 are free.
use vyper.Prelude.{
  ℕ, ◌≡◌, ◌≤◌, refl, ok, stuck, Bytes, ◌++◌, List, [], ◌∷◌, replicate, to_le, arith, ◌==◌,
  Bool-cases, inl, inr,
}
use vyper.Block.Device.Memory.{memory}
use vyper.Fat.Bpb.{Bpb, fat_start_sector, data_start_sector, total_clusters}
use vyper.Fat.Volume.{Volume, View, Lawful, eoc, fat_free, InRange, Changed}
use vyper.Fat.Cluster.{fat_volume}
use vyper.Fat.Cluster.Entries.{IsFat}
use vyper.Fat.Cluster.Laws.{fat_view, fat_volume-Lawful}
use vyper.Fat.Cluster.Memory.{memory-Healthy, WholeDisk}
use vyper.Fat.Chain.{read_chain, free_chain, get_last_cluster, write_chain, allocate_cluster}
use vyper.Fat.Chain.Follow.{Chain, freed, free_chain_lem}
use vyper.Fat.Chain.Endless.{IsRing, read_chain_endless}
use vyper.Fat.Chain.Alloc.{Allocates, allocate_cluster_lem}
use vyper.Fat.Chain.Save.{Saves, write_chain_lem, write_chain_new}

abbrev pub bpb : Bpb
bpb = record {
  bytes_per_sector = 512;
  sectors_per_cluster = 1;
  reserved_sectors = 1;
  num_fats = 1;
  total_sectors = 8;
  sectors_per_fat = 1;
  root_cluster = 2;
  fs_info_sector = 0;
}

abbrev pub words : List ℕ → Bytes
words [] = []
words (w ∷ ws) = to_le 4 w ++ words ws

abbrev pub table : Bytes
table = words (eoc ∷ eoc ∷ 3 ∷ eoc ∷ 0 ∷ 6 ∷ 5 ∷ 0 ∷ []) ++ replicate 480 0

abbrev disk : List Bytes
disk =
    replicate 512 0
    ∷ table
    ∷ replicate 512 2
    ∷ replicate 512 3
    ∷ replicate 512 4
    ∷ replicate 512 5
    ∷ replicate 512 6
    ∷ replicate 512 7
    ∷ []

pub bpb-IsFat : IsFat bpb
unfolding total_clusters data_start_sector
bpb-IsFat = record {
  volume = record { in_bits = omega arith; starts = omega arith; has_clusters = omega arith };
  whole_sectors = refl;
  some_table = omega arith;
  few = omega arith;
  entries_fit = omega arith;
}

disk-WholeDisk : WholeDisk 8 disk
disk-WholeDisk = (refl, (refl, (refl, (refl, (refl, (refl, (refl, (refl, (refl, tt)))))))))

pub in_range : (c : ℕ) → 2 ≤ c → c ≤ 7 → InRange (fat_volume memory bpb) c
unfolding total_clusters data_start_sector
in_range c low high = record { low = low; high = omega arith }

abbrev pub volume : Volume (List Bytes)
volume = fat_volume memory bpb

abbrev pub view : View volume
view = fat_view memory bpb bpb-IsFat (memory-Healthy 8)

pub volume-Lawful : Lawful volume view
volume-Lawful = fat_volume-Lawful memory bpb bpb-IsFat (memory-Healthy 8)

fat_volume-Lawful_example : Lawful volume view
fat_volume-Lawful_example = fat_volume-Lawful memory bpb bpb-IsFat (memory-Healthy 8)

from_2 : Chain volume (view.entry disk) 2 (2 ∷ 3 ∷ [])
unfolding fat_start_sector
from_2 = (
  refl,
  in_range 2 (omega arith) (omega arith),
  refl,
  (refl, in_range 3 (omega arith) (omega arith), refl, omega arith),
)

free_chain_lem_example :
    (d' : List Bytes) × (free_chain volume 2 2 disk ≡ (ok tt, d'))
    × Changed volume view disk
        (freed volume view volume-Lawful (view.entry disk) (2 ∷ 3 ∷ []))
        (view.content disk)
        d'
free_chain_lem_example =
    free_chain_lem volume view volume-Lawful 2 2 (2 ∷ 3 ∷ []) disk disk-WholeDisk from_2
      (omega arith)

five : view.entry disk 5 ≡ 6
unfolding fat_start_sector
five = refl

six : view.entry disk 6 ≡ 5
unfolding fat_start_sector
six = refl

ring : IsRing volume (view.entry disk) (5 ∷ 6 ∷ [])
ring = record {
  in_range = λ k m. in_range k (ground arith) (ground arith);
  leads_back = λ k m. elim (Bool-cases (k == 5)) [
    | inl first ↦ let e : k ≡ 5 = ground arith in rw (e, five) refl
    | inr other ↦ let e : k ≡ 6 = ground arith in rw (e, six) refl
  ];
}

read_chain_endless_example :
    (read_chain volume 100 5 disk ≡ stuck) × (get_last_cluster volume 100 5 disk ≡ stuck)
read_chain_endless_example =
    read_chain_endless volume view volume-Lawful disk disk-WholeDisk (5 ∷ 6 ∷ []) ring 100 5 refl

allocate_cluster_lem_example : Allocates volume view disk (allocate_cluster volume disk)
allocate_cluster_lem_example = allocate_cluster_lem volume view volume-Lawful disk disk-WholeDisk

write_chain_lem_example :
    Saves volume
      (λ c. c ≡ 2)
      view
      disk
      (2 ∷ 3 ∷ [])
      (replicate 1200 9)
      (write_chain volume 2 (replicate 1200 9) disk)
write_chain_lem_example =
    write_chain_lem volume view volume-Lawful 2 (3 ∷ []) (replicate 1200 9) disk disk-WholeDisk
      from_2 (omega arith)

write_chain_new_example :
    Saves volume
      (λ c. view.entry disk c ≡ fat_free)
      view
      disk
      []
      (replicate 600 9)
      (write_chain volume 0 (replicate 600 9) disk)
write_chain_new_example =
    write_chain_new volume view volume-Lawful 0 (replicate 600 9) disk disk-WholeDisk (omega arith)
      (omega arith)
