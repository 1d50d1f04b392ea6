-- ===== src/Fat/Cluster.antt =====
-- Clusters of data in fat32.rs, sector by sector, and the volume on a block device.
pub mod Device
pub mod Entries
pub mod Laws
pub mod Memory
use vyper.Prelude.{
  ℕ, zero, suc, ◌+◌, ◌*◌, ◌%◌, ◌^◌, ◌≡◌, ◌++◌, if◌then◌else◌, ltb, leb, Bytes, Result, ok, err,
  panic, stuck, ◌>>=◌ as then_result, length, take, drop, replicate,
}
use vyper.Block.Device.{BlockDevice, Message, buffer_too_small}
use vyper.Fat.Bpb.{Bpb, u32, cluster_to_sector, bytes_per_cluster, total_clusters}
use vyper.Fat.Table.{get_fat_entry, set_fat_entry}
use vyper.Fat.Volume.{Io, and_then, ◌>>=◌, ◌>>◌, pure, fail, reading, Volume}

-- `buf[offset..offset + 512].copy_from_slice(bytes)`
abbrev pub copy_in : Bytes → ℕ → Bytes → Result Message Bytes
copy_in buf offset bytes =
    if leb (offset + 512) (length buf)
    then ok (take offset buf ++ (bytes ++ drop (offset + 512) buf))
    else panic

-- `buf[i * 512..(i + 1) * 512]`
abbrev pub slice : Bytes → ℕ → Result Message Bytes
slice buf i = if leb ((i + 1) * 512) (length buf) then ok (take 512 (drop (i * 512) buf)) else panic

abbrev pub zero_sector : Bytes
zero_sector = replicate 512 0

module _ {D : Type 0} (dev : BlockDevice D) where
  -- The loop of `read_cluster` from sector `i` on, with `n` sectors left.
  unfoldable pub read_sectors : D → ℕ → ℕ → ℕ → Bytes → Result Message Bytes
  read_sectors d start zero i buf = ok buf
  read_sectors d start (suc n) i buf = then_result (dev.read_sector d (u32 (start + i))) (λ sector.
      then_result (copy_in buf (i * 512) sector) (λ buf'. read_sectors d start n (suc i) buf'))

  -- The loop of `write_cluster` and of `zero_cluster`: sector `i` is written with `piece i`.
  unfoldable pub write_sectors : (ℕ → Result Message Bytes) → ℕ → ℕ → ℕ → Io D (Unit {0})
  write_sectors piece start zero i = pure tt
  write_sectors piece start (suc n) i = do
    sector ← reading (λ _. piece i)
    λ d. dev.write_sector d (u32 (start + i)) sector
    write_sectors piece start n (suc i)

module _ {D : Type 0} (dev : BlockDevice D) (bpb : Bpb) where
  unfoldable pub read_cluster : ℕ → Bytes → D → Result Message Bytes
  read_cluster cluster buf d =
      if ltb (length buf) (bytes_per_cluster bpb)
      then err buffer_too_small
      else read_sectors dev d (cluster_to_sector bpb cluster) bpb.sectors_per_cluster 0 buf

  unfoldable pub write_cluster : ℕ → Bytes → Io D (Unit {0})
  write_cluster cluster buf =
      if ltb (length buf) (bytes_per_cluster bpb)
      then fail buffer_too_small
      else write_sectors dev (slice buf) (cluster_to_sector bpb cluster) bpb.sectors_per_cluster 0

  unfoldable pub zero_cluster : ℕ → Io D (Unit {0})
  zero_cluster cluster =
      write_sectors dev (λ _. ok zero_sector) (cluster_to_sector bpb cluster)
        bpb.sectors_per_cluster 0

  -- `Fat32Inner`, as the chains use it.
  abbrev pub fat_volume : Volume D
  fat_volume = record {
    get_fat_entry = λ c d. get_fat_entry dev bpb d c;
    set_fat_entry = λ c value d. set_fat_entry dev bpb d c value;
    zero_cluster = zero_cluster;
    read_cluster = read_cluster;
    write_cluster = write_cluster;
    total_clusters = total_clusters bpb;
    bytes_per_cluster = bytes_per_cluster bpb;
  }
