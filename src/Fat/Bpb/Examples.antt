-- ===== src/Fat/Bpb/Examples.antt =====
-- A volume of 2048 sectors, 4 to a cluster.
use vyper.Prelude.{◌<◌, ◌≤◌, ◌+◌, arith}
use vyper.Fat.Bpb.{
  Bpb, IsVolume, cluster_to_sector, total_clusters, data_start, data_start_sector,
  cluster_to_sector_lem,
}

abbrev volume : Bpb
volume = record {
  bytes_per_sector = 512;
  sectors_per_cluster = 4;
  reserved_sectors = 32;
  num_fats = 2;
  total_sectors = 2048;
  sectors_per_fat = 8;
  root_cluster = 2;
  fs_info_sector = 1;
}

volume-IsVolume : IsVolume volume
volume-IsVolume = record { in_bits = omega arith; starts = omega arith; has_clusters = omega arith }

inside : 499 < total_clusters volume + 2
unfolding total_clusters data_start_sector
inside = omega arith

cluster_to_sector_lem_example :
    (data_start volume ≤ cluster_to_sector volume 499)
    × (cluster_to_sector volume 499 + volume.sectors_per_cluster ≤ volume.total_sectors)
    × (499 < 500
        → 500 < total_clusters volume + 2
        → cluster_to_sector volume 499 + volume.sectors_per_cluster ≤ cluster_to_sector volume 500)
cluster_to_sector_lem_example =
    cluster_to_sector_lem volume 499 500 volume-IsVolume (omega arith) inside
