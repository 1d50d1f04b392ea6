-- ===== src/Fat/Table/Laws.antt =====
-- Setting and getting entries of the allocation table.
use Prim.Native.Nat.{bit_and}
use vyper.Prelude.{
  ℕ, zero, suc, ◌+◌, ◌-◌, ◌*◌, ◌/◌, ◌%◌, ◌^◌, ◌≡◌, ◌≢◌, ◌<◌, ◌≤◌, refl, ap, sym, ◌∙◌, ◌++◌, Bytes,
  Result, ok, err, panic, stuck, length, take, drop, to_le, from_le, arith, length-take,
  drop_append, from_le-to_le,
}
use native.Mathlib.Nat.{mul-le-mul_right, suc-mul}
use vyper.Block.Device.{BlockDevice, Message}
use vyper.Block.Device.Laws.{Lawful}
use vyper.Fat.Bpb.{Bpb, fat_start_sector, le_at}
use vyper.Fat.Table.{
  fat_offset, fat_sector, merged, patched, low_bits, get_fat_entry, set_in, set_from, set_fat_entry,
}
use vyper.Fat.Table.Word.{merged-low, merged-bound}

-- The entry of the cluster lies in the tables, and these within 2^32 sectors.
pub record InTable (bpb : Bpb) (cluster : ℕ) : Type 0 where
  pub small : cluster * 4 < 2 ^ 32
  pub tables : bpb.reserved_sectors + bpb.num_fats * bpb.sectors_per_fat ≤ 2 ^ 32
  pub inside : cluster * 4 / 512 < bpb.sectors_per_fat
  pub some_table : 1 ≤ bpb.num_fats

-- The patched entry of a sector.
pub le_at-patched :
    (sector : Bytes) (offset value : ℕ)
    → offset ≤ length sector
    → le_at 4 offset (patched sector offset value) ≡ merged (le_at 4 offset sector) value
unfolding patched
le_at-patched sector offset value h =
    let new_value = merged (le_at 4 offset sector) value in
    let front : offset ≡ length (take offset sector) = omega (arith, length-take offset sector) in
    let all = take offset sector ++ (to_le 4 new_value ++ drop (offset + 4) sector) in
    ap (λ k. from_le (take 4 (drop k all))) front
    ∙ (ap (λ bs. from_le (take 4 bs))
          (drop_append (take offset sector) (to_le 4 new_value ++ drop (offset + 4) sector))
        ∙ from_le-to_le 4 new_value (merged-bound (le_at 4 offset sector) value))

pub sector-exact :
    (bpb : Bpb) (cluster j : ℕ)
    → InTable bpb cluster
    → j < bpb.num_fats
    → fat_sector bpb j cluster ≡ bpb.reserved_sectors + j * bpb.sectors_per_fat + cluster * 4 / 512
unfolding fat_start_sector
sector-exact bpb cluster j t h = omega (
  arith,
  t.small,
  t.tables,
  t.inside,
  mul-le-mul_right {m = suc j} {n = bpb.num_fats} bpb.sectors_per_fat (omega arith),
  suc-mul j bpb.sectors_per_fat,
)

pub later_table :
    (bpb : Bpb) (cluster j : ℕ)
    → InTable bpb cluster
    → 1 ≤ j
    → j < bpb.num_fats
    → fat_sector bpb 0 cluster ≢ fat_sector bpb j cluster
later_table bpb cluster j t one h e = omega (
  arith,
  sector-exact bpb cluster 0 t (omega arith),
  sector-exact bpb cluster j t h,
  t.inside,
  mul-le-mul_right {m = 1} {n = j} bpb.sectors_per_fat one,
)

module _ {D : Type 0} (dev : BlockDevice D) (lawful : Lawful dev) (bpb : Bpb) where
  set_in-other :
      (d : D) (fat_num cluster value s : ℕ)
      → s ≢ fat_sector bpb fat_num cluster
      → dev.read_sector (set_in dev bpb d fat_num cluster value).1 s ≡ dev.read_sector d s
  unfolding set_in
  set_in-other d fat_num cluster value s other =
      go (dev.read_sector d (fat_sector bpb fat_num cluster)) refl
    where
      go :
          (r : Result Message Bytes)
          → dev.read_sector d (fat_sector bpb fat_num cluster) ≡ r
          → dev.read_sector (set_in dev bpb d fat_num cluster value).1 s ≡ dev.read_sector d s
      go (ok sector) e =
          rw (e, set_in)
            (lawful.others_kept d (fat_sector bpb fat_num cluster) s
              (patched sector (fat_offset cluster % 512) value) other)
      go (err x) e = rw (e, set_in) refl
      go panic e = rw (e, set_in) refl
      go stuck e = rw (e, set_in) refl

  pub set_from-other :
      (d : D) (cluster value fat_num n s : ℕ)
      → ((j : ℕ) → fat_num ≤ j → j < fat_num + n → s ≢ fat_sector bpb j cluster)
      → dev.read_sector (set_from dev bpb d cluster value fat_num n).1 s ≡ dev.read_sector d s
  unfolding set_from
  set_from-other d cluster value fat_num zero s other = refl
  set_from-other d cluster value fat_num (suc n) s other =
      let first =
        set_in-other d fat_num cluster value s (other fat_num (omega arith) (omega arith)) in
      let rest =
        set_from-other (set_in dev bpb d fat_num cluster value).1 cluster value (suc fat_num) n s
          (λ j a b. other j (omega arith) (omega arith)) in
      go _ refl first rest
    where
      go :
          (r : Result Message (Unit {0}))
          → (set_in dev bpb d fat_num cluster value).0 ≡ r
          → dev.read_sector (set_in dev bpb d fat_num cluster value).1 s ≡ dev.read_sector d s
          → dev.read_sector
              (set_from dev bpb
                (set_in dev bpb d fat_num cluster value).1
                cluster
                value
                (suc fat_num)
                n).1
              s
            ≡ dev.read_sector (set_in dev bpb d fat_num cluster value).1 s
          → dev.read_sector (set_from dev bpb d cluster value fat_num (suc n)).1 s
            ≡ dev.read_sector d s
      go (ok u) e first rest = rw (e, set_from) (rest ∙ first)
      go (err x) e first rest = rw (e, set_from) first
      go panic e first rest = rw (e, set_from) first
      go stuck e first rest = rw (e, set_from) first

  -- What a table holds after it was set.
  pub set_in-ok :
      (d : D) (fat_num cluster value : ℕ)
      → (set_in dev bpb d fat_num cluster value).0 ≡ ok tt
      → (sector : Bytes) × (dev.read_sector d (fat_sector bpb fat_num cluster) ≡ ok sector)
        × (dev.read_sector
              (set_in dev bpb d fat_num cluster value).1
              (fat_sector bpb fat_num cluster)
            ≡ ok (patched sector (fat_offset cluster % 512) value))
  unfolding set_in
  set_in-ok d fat_num cluster value done =
      go (dev.read_sector d (fat_sector bpb fat_num cluster)) refl
    where
      go :
          (r : Result Message Bytes)
          → dev.read_sector d (fat_sector bpb fat_num cluster) ≡ r
          → (sector : Bytes) × (dev.read_sector d (fat_sector bpb fat_num cluster) ≡ ok sector)
            × (dev.read_sector
                  (set_in dev bpb d fat_num cluster value).1
                  (fat_sector bpb fat_num cluster)
                ≡ ok (patched sector (fat_offset cluster % 512) value))
      go (ok sector) e = (
        sector,
        e,
        rw (e, set_in)
            (lawful.read_written d (fat_sector bpb fat_num cluster)
              (patched sector (fat_offset cluster % 512) value) (ground arith)),
      )
      go (err x) e = ground arith
      go panic e = ground arith
      go stuck e = ground arith

  pub set_from-first :
      (d : D) (cluster value fat_num n : ℕ)
      → (set_from dev bpb d cluster value fat_num (suc n)).0 ≡ ok tt
      → ((set_in dev bpb d fat_num cluster value).0 ≡ ok tt)
        × ((set_from dev bpb d cluster value fat_num (suc n)).1
            ≡ (set_from dev bpb
                (set_in dev bpb d fat_num cluster value).1
                cluster
                value
                (suc fat_num)
                n).1)
  unfolding set_from
  set_from-first d cluster value fat_num n done = go _ refl
    where
      go :
          (r : Result Message (Unit {0}))
          → (set_in dev bpb d fat_num cluster value).0 ≡ r
          → ((set_in dev bpb d fat_num cluster value).0 ≡ ok tt)
            × ((set_from dev bpb d cluster value fat_num (suc n)).1
                ≡ (set_from dev bpb
                    (set_in dev bpb d fat_num cluster value).1
                    cluster
                    value
                    (suc fat_num)
                    n).1)
      go (ok u) e = (e, rw (e, set_from) refl)
      go (err x) e = ground arith
      go panic e = ground arith
      go stuck e = ground arith

  set_tables :
      (d : D) (cluster value n : ℕ) (sector : Bytes)
      → InTable bpb cluster
      → bpb.num_fats ≡ suc n
      → dev.read_sector d (fat_sector bpb 0 cluster) ≡ ok sector
      → length sector ≡ 512
      → (set_from dev bpb d cluster value 0 (suc n)).0 ≡ ok tt
      → get_fat_entry dev bpb (set_from dev bpb d cluster value 0 (suc n)).1 cluster
        ≡ ok (value % 2 ^ 28)
  unfolding get_fat_entry
  set_tables d cluster value n sector t count old whole done =
      let (first, left) = set_from-first d cluster value 0 n done in
      let (sector', old', new_sector) = set_in-ok d 0 cluster value first in
      let d' = (set_in dev bpb d 0 cluster value).1 in
      let same : sector ≡ sector' = ground arith in
      let whole' : length sector' ≡ 512 = ap length (sym same) ∙ whole in
      let kept =
        set_from-other d' cluster value 1 n (fat_sector bpb 0 cluster)
          (λ j a b. later_table bpb cluster j t a (omega arith)) in
      let read =
        ap (λ r. dev.read_sector r (fat_sector bpb 0 cluster)) left ∙ (kept ∙ new_sector) in
      rw read (
        ap ok (
          ap (λ w. bit_and w low_bits)
            (le_at-patched sector' (fat_offset cluster % 512) value (omega arith))
          ∙ merged-low (le_at 4 (fat_offset cluster % 512) sector') value))

  -- On a lawful device, where the cluster has an entry in the tables and these lie within 2^32
  -- sectors, and where the sector of the entry in the first table reads as 512 bytes: after
  -- `set_fat_entry` has succeeded, `get_fat_entry` returns the low 28 bits of the value.
  pub get_fat_entry-set_fat_entry :
      (d : D) (cluster value : ℕ) (sector : Bytes)
      → InTable bpb cluster
      → dev.read_sector d (fat_sector bpb 0 cluster) ≡ ok sector
      → length sector ≡ 512
      → (set_fat_entry dev bpb d cluster value).0 ≡ ok tt
      → get_fat_entry dev bpb (set_fat_entry dev bpb d cluster value).1 cluster
        ≡ ok (value % 2 ^ 28)
  unfolding set_fat_entry
  get_fat_entry-set_fat_entry d cluster value sector t old whole done =
      let count : bpb.num_fats ≡ suc (bpb.num_fats - 1) = omega (arith, t.some_table) in
      let all = ap (λ n. set_from dev bpb d cluster value 0 n) count in
      ap (λ r. get_fat_entry dev bpb r.1 cluster) all
      ∙ set_tables d cluster value (bpb.num_fats - 1) sector t count old whole
          (ap (λ r. r.0) (sym all) ∙ done)
