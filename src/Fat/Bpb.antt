-- ===== src/Fat/Bpb.antt =====
-- `Bpb` of fat32.rs: the geometry in the boot sector.
mod Examples
use vyper.Prelude.{
  ℕ, suc, ◌+◌, ◌-◌, ◌*◌, ◌/◌, ◌%◌, ◌^◌, ◌≡◌, ◌≢◌, ◌<◌, ◌≤◌, refl, ap, not, ◌||◌, Option, none, some,
  if◌then◌else◌, ◌==◌, Bytes, get_or, take, drop, from_le, arith,
}
use native.Mathlib.Nat.{div-mul-le_self, mul-le-mul_right, mul-le-mul_left, suc-mul}

pub record Bpb : Type 0 where
  pub bytes_per_sector : ℕ
  pub sectors_per_cluster : ℕ
  pub reserved_sectors : ℕ
  pub num_fats : ℕ
  pub total_sectors : ℕ
  pub sectors_per_fat : ℕ
  pub root_cluster : ℕ
  pub fs_info_sector : ℕ

abbrev pub le_at : ℕ → ℕ → Bytes → ℕ
le_at n offset bytes = from_le (take n (drop offset bytes))

-- `Bpb::parse` of a sector of 512 bytes
unfoldable pub parse : Bytes → Option Bpb
parse sector =
    if not (get_or sector 510 0 == 0x55) || not (get_or sector 511 0 == 0xAA)
    then none
    else (let total_sectors_16 = le_at 2 19 sector in
        some (record {
          bytes_per_sector = le_at 2 11 sector;
          sectors_per_cluster = get_or sector 13 0;
          reserved_sectors = le_at 2 14 sector;
          num_fats = get_or sector 16 0;
          total_sectors = if total_sectors_16 == 0 then le_at 4 32 sector else total_sectors_16;
          sectors_per_fat = le_at 4 36 sector;
          root_cluster = le_at 4 44 sector;
          fs_info_sector = le_at 2 48 sector;
        }))

abbrev pub u32 : ℕ → ℕ
u32 a = a % 2 ^ 32

unfoldable pub fat_start_sector : Bpb → ℕ
fat_start_sector self = self.reserved_sectors

unfoldable pub data_start_sector : Bpb → ℕ
data_start_sector self = u32 (self.reserved_sectors + self.num_fats * self.sectors_per_fat)

-- `cluster - 2` wraps below 2.
unfoldable pub cluster_to_sector : Bpb → ℕ → ℕ
cluster_to_sector self cluster =
    u32 (data_start_sector self + (cluster + (2 ^ 32 - 2)) % 2 ^ 32 * self.sectors_per_cluster)

unfoldable pub bytes_per_cluster : Bpb → ℕ
bytes_per_cluster self = self.bytes_per_sector * self.sectors_per_cluster

-- For a volume with sectors in its clusters: with 0 of them the source's division panics.
unfoldable pub total_clusters : Bpb → ℕ
total_clusters self =
    u32 (self.total_sectors + (2 ^ 32 - data_start_sector self)) / self.sectors_per_cluster

-- A volume whose data begins within it.
pub record IsVolume (self : Bpb) : Type 0 where
  pub in_bits : self.total_sectors < 2 ^ 32
  pub starts : self.reserved_sectors + self.num_fats * self.sectors_per_fat ≤ self.total_sectors
  pub has_clusters : 1 ≤ self.sectors_per_cluster

abbrev pub data_start : Bpb → ℕ
data_start self = self.reserved_sectors + self.num_fats * self.sectors_per_fat

data_start_sector-exact : (self : Bpb) → IsVolume self → data_start_sector self ≡ data_start self
unfolding data_start_sector
data_start_sector-exact self v = omega (arith, v.starts, v.in_bits)

-- Fewer clusters than fit into `n` sectors.
fits : (c n k : ℕ) → c < n / k → c * k + k ≤ n
fits c n k h = omega (
  arith,
  mul-le-mul_right {m = suc c} {n = n / k} k (omega arith),
  suc-mul c k,
  div-mul-le_self n k,
)

room :
    (self : Bpb) (c : ℕ)
    → IsVolume self
    → 2 ≤ c
    → c < total_clusters self + 2
    → data_start self + ((c - 2) * self.sectors_per_cluster + self.sectors_per_cluster)
      ≤ self.total_sectors
unfolding total_clusters
room self c v two below =
    let n = u32 (self.total_sectors + (2 ^ 32 - data_start_sector self)) in
    let exact : n ≡ self.total_sectors - data_start self =
      omega (arith, data_start_sector-exact self v, v.starts, v.in_bits) in
    omega (arith, fits (c - 2) n self.sectors_per_cluster (omega arith), exact, v.starts)

cluster_to_sector-exact :
    (self : Bpb) (c : ℕ)
    → IsVolume self
    → 2 ≤ c
    → c < 2 ^ 32 + 2
    → data_start self + (c - 2) * self.sectors_per_cluster ≤ self.total_sectors
    → cluster_to_sector self c ≡ data_start self + (c - 2) * self.sectors_per_cluster
unfolding cluster_to_sector
cluster_to_sector-exact self c v two small inside =
    let back : (c + (2 ^ 32 - 2)) % 2 ^ 32 ≡ c - 2 = omega arith in
    rw back (omega (arith, data_start_sector-exact self v, v.in_bits))

small_cluster :
    (self : Bpb) (c : ℕ) → IsVolume self → 2 ≤ c → c < total_clusters self + 2 → c < 2 ^ 32 + 2
small_cluster self c v two below = omega (
  arith,
  room self c v two below,
  v.in_bits,
  v.has_clusters,
  grows (c - 2) self.sectors_per_cluster v.has_clusters,
)
  where
    grows : (a k : ℕ) → 1 ≤ k → a ≤ a * k
    grows a k h = omega (arith, mul-le-mul_left {m = 1} {n = k} a h)

exact :
    (self : Bpb) (c : ℕ)
    → IsVolume self
    → 2 ≤ c
    → c < total_clusters self + 2
    → cluster_to_sector self c ≡ data_start self + (c - 2) * self.sectors_per_cluster
exact self c v two below =
    cluster_to_sector-exact self c v two (small_cluster self c v two below)
      (omega (arith, room self c v two below))

-- In a volume whose data begins within its sectors, the sectors of a cluster between 2 and `total_clusters + 2` lie behind the allocation tables and
-- within the volume, and those of a later cluster lie behind them.
pub cluster_to_sector_lem :
    (self : Bpb) (c k : ℕ)
    → IsVolume self
    → 2 ≤ c
    → c < total_clusters self + 2
    → (data_start self ≤ cluster_to_sector self c)
      × (cluster_to_sector self c + self.sectors_per_cluster ≤ self.total_sectors)
      × (c < k
          → k < total_clusters self + 2
          → cluster_to_sector self c + self.sectors_per_cluster ≤ cluster_to_sector self k)
cluster_to_sector_lem self c k v two below = (
  omega (arith, exact self c v two below),
  omega (arith, exact self c v two below, room self c v two below),
  λ later under. omega (
    arith,
    exact self c v two below,
    exact self k v (omega arith) under,
    mul-le-mul_right {m = suc (c - 2)} {n = k - 2} self.sectors_per_cluster (omega arith),
    suc-mul (c - 2) self.sectors_per_cluster,
  ),
)
