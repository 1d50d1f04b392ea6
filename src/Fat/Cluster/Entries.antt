-- ===== src/Fat/Cluster/Entries.antt =====
-- Setting an entry of the allocation table on a device on which no access fails.
use Prim.Native.Nat.{bit_and}
use vyper.Prelude.{
  ℕ, zero, suc, ◌+◌, ◌-◌, ◌*◌, ◌/◌, ◌%◌, ◌^◌, ◌≡◌, ◌≢◌, ◌<◌, ◌≤◌, ◌⊎◌, refl, ap, sym, ◌∙◌,
  if◌then◌else◌, ltb, ltb→lt, ◌==◌, ok, arith, inl, inr, Bool-cases,
}
use native.Mathlib.Nat.{mul-le-mul_right, suc-mul}
use vyper.Block.Device.{BlockDevice}
use vyper.Fat.Bpb.{Bpb, IsVolume, le_at, total_clusters}
use vyper.Fat.Table.{
  fat_offset, fat_sector, patched, low_bits, get_fat_entry, set_in, set_from, set_fat_entry,
}
use vyper.Fat.Table.Beside.{length-patched, le_at-other}
use vyper.Fat.Table.Word.{merged-low}
use vyper.Fat.Table.Laws.{
  InTable, sector-exact, set_in-ok, set_from-first, set_from-other, le_at-patched, later_table,
}
use vyper.Fat.Cluster.Device.{Healthy, bytes_of, sector_of, sector_of-ok, length-sector_of}

-- A volume of FAT32: its sectors are those of the device, its tables have an entry for each
-- cluster, and the data begins behind the tables.
pub record IsFat (bpb : Bpb) : Type 0 where
  pub volume : IsVolume bpb
  pub whole_sectors : bpb.bytes_per_sector ≡ 512
  pub some_table : 1 ≤ bpb.num_fats
  pub few : total_clusters bpb + 2 ≤ 0x0FFFFFF8
  pub entries_fit : (total_clusters bpb + 2) * 4 ≤ bpb.sectors_per_fat * 512

module _ {D : Type 0} (dev : BlockDevice D) (bpb : Bpb) (fat : IsFat bpb)
    (healthy : Healthy dev bpb.total_sectors) where
  abbrev small : bpb.total_sectors ≤ 2 ^ 32
  small = omega (arith, fat.volume.in_bits)

  IsFat-InTable : (c : ℕ) → c < total_clusters bpb + 2 → InTable bpb c
  IsFat-InTable c h = record {
    small = omega (arith, fat.few);
    tables = omega (arith, fat.volume.starts, fat.volume.in_bits);
    inside = omega (arith, fat.entries_fit);
    some_table = fat.some_table;
  }

  -- The sector of an entry lies before the data.
  pub sector_bound :
      (c j : ℕ)
      → c < total_clusters bpb + 2
      → j < bpb.num_fats
      → fat_sector bpb j c < bpb.reserved_sectors + bpb.num_fats * bpb.sectors_per_fat
  sector_bound c j h k =
      let t = IsFat-InTable c h in
      omega (
        arith,
        sector-exact bpb c j t k,
        t.inside,
        mul-le-mul_right {m = suc j} {n = bpb.num_fats} bpb.sectors_per_fat (omega arith),
        suc-mul j bpb.sectors_per_fat,
      )

  on_device :
      (c j : ℕ)
      → c < total_clusters bpb + 2
      → j < bpb.num_fats
      → fat_sector bpb j c < bpb.total_sectors
  on_device c j h k = omega (arith, sector_bound c j h k, fat.volume.starts)

  set_in_total :
      (d : D) (j c value : ℕ)
      → healthy.Fits d
      → c < total_clusters bpb + 2
      → j < bpb.num_fats
      → ((set_in dev bpb d j c value).0 ≡ ok tt) × healthy.Fits (set_in dev bpb d j c value).1
  unfolding set_in
  set_in_total d j c value fits h k =
      let s = fat_sector bpb j c in
      let inside = on_device c j h k in
      let old = sector_of-ok dev bpb.total_sectors small healthy d s fits inside in
      let size = length-sector_of dev bpb.total_sectors small healthy d s fits inside in
      let (done, fits') =
        healthy.writes d s (patched (sector_of dev d s) (fat_offset c % 512) value) fits inside
          (length-patched (sector_of dev d s) (fat_offset c % 512) value size (omega arith)) in
      (rw (old, set_in) done, rw (old, set_in) fits')

  set_from_total :
      (d : D) (c value j n : ℕ)
      → healthy.Fits d
      → c < total_clusters bpb + 2
      → j + n ≤ bpb.num_fats
      → ((set_from dev bpb d c value j n).0 ≡ ok tt)
        × healthy.Fits (set_from dev bpb d c value j n).1
  unfolding set_from
  set_from_total d c value j zero fits h k = (refl, fits)
  set_from_total d c value j (suc n) fits h k =
      let (done, fits') = set_in_total d j c value fits h (omega arith) in
      let (rest, fits'') =
        set_from_total (set_in dev bpb d j c value).1 c value (suc j) n fits' h (omega arith) in
      (rw (done, set_from) rest, rw (done, set_from) fits'')

  pub set_fat_entry_total :
      (d : D) (c value : ℕ)
      → healthy.Fits d
      → c < total_clusters bpb + 2
      → ((set_fat_entry dev bpb d c value).0 ≡ ok tt)
        × healthy.Fits (set_fat_entry dev bpb d c value).1
  unfolding set_fat_entry
  set_fat_entry_total d c value fits h =
      set_from_total d c value 0 bpb.num_fats fits h (omega arith)

  -- The sector of the first table, after an entry was set.
  first_table :
      (d : D) (c value : ℕ)
      → healthy.Fits d
      → c < total_clusters bpb + 2
      → dev.read_sector (set_fat_entry dev bpb d c value).1 (fat_sector bpb 0 c)
        ≡ ok (patched (sector_of dev d (fat_sector bpb 0 c)) (fat_offset c % 512) value)
  unfolding set_fat_entry
  first_table d c value fits h =
      let count : bpb.num_fats ≡ suc (bpb.num_fats - 1) = omega (arith, fat.some_table) in
      let all = ap (λ n. (set_from dev bpb d c value 0 n).1) count in
      let (done, _) = set_from_total d c value 0 (suc (bpb.num_fats - 1)) fits h (omega arith) in
      let (first, left) =
        set_from-first dev healthy.lawful bpb d c value 0 (bpb.num_fats - 1) done in
      let (sector, old, new_sector) = set_in-ok dev healthy.lawful bpb d 0 c value first in
      let same : sector_of dev d (fat_sector bpb 0 c) ≡ sector = ap bytes_of old in
      let kept =
        set_from-other dev healthy.lawful bpb (set_in dev bpb d 0 c value).1 c value 1
          (bpb.num_fats - 1) (fat_sector bpb 0 c)
          (λ j a b. later_table bpb c j (IsFat-InTable c h) a (omega arith)) in
      ap (λ r. dev.read_sector r (fat_sector bpb 0 c)) (all ∙ left)
      ∙ (kept ∙ (new_sector ∙ ap (λ t. ok (patched t (fat_offset c % 512) value)) (sym same)))

  -- Every other sector but those of the entry in the tables.
  pub set_fat_entry-other :
      (d : D) (c value s : ℕ)
      → ((j : ℕ) → j < bpb.num_fats → s ≢ fat_sector bpb j c)
      → dev.read_sector (set_fat_entry dev bpb d c value).1 s ≡ dev.read_sector d s
  unfolding set_fat_entry
  set_fat_entry-other d c value s other =
      set_from-other dev healthy.lawful bpb d c value 0 bpb.num_fats s
        (λ j a b. other j (omega arith))

  -- The entry of a cluster.
  abbrev pub entry_of : D → ℕ → ℕ
  entry_of d c =
      bit_and (le_at 4 (fat_offset c % 512) (sector_of dev d (fat_sector bpb 0 c))) low_bits

  pub get_fat_entry_total :
      (d : D) (c : ℕ)
      → healthy.Fits d
      → c < total_clusters bpb + 2
      → get_fat_entry dev bpb d c ≡ ok (entry_of d c)
  unfolding get_fat_entry
  get_fat_entry_total d c fits h =
      rw
        (sector_of-ok dev bpb.total_sectors small healthy d (fat_sector bpb 0 c) fits
          (on_device c 0 h fat.some_table))
        refl

  -- On such a volume and device, `set_fat_entry` changes the entry of its cluster and no other.
  pub entry_of-set_fat_entry :
      (d : D) (c value k : ℕ)
      → healthy.Fits d
      → c < total_clusters bpb + 2
      → k < total_clusters bpb + 2
      → entry_of (set_fat_entry dev bpb d c value).1 k
        ≡ (if k == c then value % 2 ^ 28 else entry_of d k)
  entry_of-set_fat_entry d c value k fits h h' =
      let s = fat_sector bpb 0 c in
      let off = fat_offset c % 512 in
      let sector = sector_of dev d s in
      let new_sector = ap bytes_of (first_table d c value fits h) in
      let size =
        length-sector_of dev bpb.total_sectors small healthy d s fits
          (on_device c 0 h fat.some_table) in
      let ec = sector-exact bpb c 0 (IsFat-InTable c h) fat.some_table in
      let ek = sector-exact bpb k 0 (IsFat-InTable k h') fat.some_table in
      elim (Bool-cases (k == c)) [
        | inl same ↦
            let e : k ≡ c = ground arith in
            rw same (
              rw e (
                ap (λ t. bit_and (le_at 4 off t) low_bits) new_sector
                ∙ (ap (λ t. bit_and t low_bits) (le_at-patched sector off value (omega arith))
                    ∙ merged-low (le_at 4 off sector) value)))
        | inr differ ↦ elim (Bool-cases (k * 4 / 512 == c * 4 / 512)) [
          | inl near ↦
              let there : fat_sector bpb 0 k ≡ s = ground arith in
              let o = fat_offset k % 512 in
              let aligned : (off + 4 ≤ 512) × (o + 4 ≤ 512) = omega arith in
              let apart : (o + 4 ≤ off) ⊎ (off + 4 ≤ o) = beside (ground arith) (ground arith) in
              rw differ (
                ap
                  (λ n.
                    bit_and (le_at 4 o (sector_of dev (set_fat_entry dev bpb d c value).1 n))
                      low_bits)
                  there
                ∙ (ap (λ t. bit_and (le_at 4 o t) low_bits) new_sector
                    ∙ (ap (λ t. bit_and t low_bits)
                          (le_at-other sector off value o size aligned.0 aligned.1 apart)
                        ∙ ap (λ n. bit_and (le_at 4 o (sector_of dev d n)) low_bits) (sym there))))
          | inr far ↦
              let kept =
                set_fat_entry-other d c value (fat_sector bpb 0 k)
                  (λ j b. elsewhere j b (ground arith)) in
              rw differ
                (ap (λ r. bit_and (le_at 4 (fat_offset k % 512) (bytes_of r)) low_bits) kept)
        ]
      ]
    where
      beside :
          k ≢ c
          → k * 4 / 512 ≡ c * 4 / 512
          → (fat_offset k % 512 + 4 ≤ fat_offset c % 512)
            ⊎ (fat_offset c % 512 + 4 ≤ fat_offset k % 512)
      beside a b = elim (Bool-cases (ltb k c)) [
        | inl before ↦ inl (omega (arith, fat.few, ltb→lt k c before))
        | inr after ↦ let later : c < k = ground arith in inr (omega (arith, fat.few))
      ]

      elsewhere :
          (j : ℕ)
          → j < bpb.num_fats
          → k * 4 / 512 ≢ c * 4 / 512
          → fat_sector bpb 0 k ≢ fat_sector bpb j c
      elsewhere zero b a e = a (
          omega (
            arith,
            sector-exact bpb c 0 (IsFat-InTable c h) fat.some_table,
            sector-exact bpb k 0 (IsFat-InTable k h') fat.some_table,
          ))
      elsewhere (suc j) b a e =
          let t = IsFat-InTable k h' in
          omega (
            arith,
            t.inside,
            sector-exact bpb k 0 t fat.some_table,
            sector-exact bpb c (suc j) (IsFat-InTable c h) b,
            suc-mul j bpb.sectors_per_fat,
          )
