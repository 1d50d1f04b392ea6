-- ===== src/Block/DevFs/Laws.antt =====
-- Reading and writing a device file.
use vyper.Prelude.{
  ℕ, ◌+◌, ◌-◌, ◌/◌, ◌%◌, ◌^◌, ◌≡◌, ◌≤◌, refl, ap, sym, ◌∙◌, min, not, ◌||◌, ◌++◌, ltb, ◌==◌, Bytes,
  Result, ok, err, panic, stuck, length, take, drop, arith, inl, inr, Bool-cases, length-take,
  length-replicate, drop_append, take_append,
}
use vyper.Vfs.Types.{VfsResult}
use vyper.Block.Device.{BlockDevice, Message, sector_size}
use vyper.Block.Device.Laws.{Lawful}
use vyper.Block.DevFs.{read_at, write_at, old_sector, patched, io}

-- A read that succeeds gives a whole sector.
abbrev pub IsWhole : {E : Type 0} → Result E Bytes → Type 0
IsWhole (ok bytes) = length bytes ≡ 512
IsWhole r = Unit

module _ {D : Type 0} (dev : BlockDevice D) (lawful : Lawful dev) where
  patched_there :
      (sector bytes : Bytes) (offset : ℕ)
      → offset ≤ length sector
      → take (length bytes) (drop offset (patched sector offset bytes)) ≡ bytes
  patched_there sector bytes offset h =
      let front : offset ≡ length (take offset sector) = omega (arith, length-take offset sector) in
      ap (take (length bytes)) (
        ap (λ k. drop k (patched sector offset bytes)) front
        ∙ drop_append (take offset sector) (bytes ++ drop (offset + length bytes) sector))
      ∙ take_append bytes (drop (offset + length bytes) sector)

  IsWhole-old_sector :
      (d : D) (block_num offset : ℕ) (buf : Bytes)
      → IsWhole (dev.read_sector d block_num)
      → IsWhole (old_sector dev d block_num offset buf)
  IsWhole-old_sector d block_num offset buf h =
      elim (Bool-cases (not (offset == 0) || ltb (length buf) sector_size)) [
        | inl a ↦ rw a (same (dev.read_sector d block_num) h)
        | inr b ↦ rw b (length-replicate {A = ℕ} 512 0)
      ]
    where
      same : (r : Result Message Bytes) → IsWhole r → IsWhole (io r)
      same (ok bytes) h = h
      same (err e) h = tt
      same panic h = tt
      same stuck h = tt

  -- What a successful write to a device did.
  abbrev Written : D → ℕ → Bytes → ℕ → D → Type 0
  Written d position buf n d' =
      (n ≡ min (length buf) (sector_size - position % sector_size))
      × ((sector : Bytes) × (length sector ≡ 512)
          × (dev.read_sector d' ((position / sector_size) % 2 ^ 32)
              ≡ ok (patched sector (position % sector_size) (take n buf))))

  written :
      (d : D) (position : ℕ) (buf : Bytes) (n : ℕ) (d' : D)
      → write_at dev d position buf ≡ (ok n, d')
      → IsWhole (dev.read_sector d ((position / sector_size) % 2 ^ 32))
      → Written d position buf n d'
  unfolding write_at
  written d position buf n d' e w =
      go (old_sector dev d ((position / sector_size) % 2 ^ 32) (position % sector_size) buf) refl
        (IsWhole-old_sector d _ (position % sector_size) buf w)
    where
      there :
          (sector : Bytes)
          → old_sector dev d ((position / sector_size) % 2 ^ 32) (position % sector_size) buf
            ≡ ok sector
          → length sector ≡ 512
          → (r : Result Message (Unit {0}))
          → (dev.write_sector d ((position / sector_size) % 2 ^ 32) (
              patched sector
                (position % sector_size)
                (take (min (length buf) (sector_size - position % sector_size)) buf))).0
            ≡ r
          → Written d position buf n d'
      there sector h l (ok u) g = (
        ground arith,
        (
          sector,
          l,
          ground (
            arith,
            lawful.read_written d ((position / sector_size) % 2 ^ 32) (
                patched sector (position % sector_size)
                  (take (min (length buf) (sector_size - position % sector_size)) buf)),
          ),
        ),
      )
      there sector h l (err x) g = ground arith
      there sector h l panic g = ground arith
      there sector h l stuck g = ground arith

      go :
          (r : VfsResult Bytes)
          → old_sector dev d ((position / sector_size) % 2 ^ 32) (position % sector_size) buf ≡ r
          → IsWhole r
          → Written d position buf n d'
      go (ok sector) h l = there sector h l _ refl
      go (err x) h l = ground arith
      go panic h l = ground arith
      go stuck h l = ground arith

  -- On a lawful device, where the sector of the position has 512 bytes, a write that succeeds writes as much of the
  -- buffer as fits into the sector of the position, and a read of that length at the position
  -- gives it back.
  pub sector_read-write :
      (d : D) (position : ℕ) (buf : Bytes) (n : ℕ) (d' : D)
      → IsWhole (dev.read_sector d ((position / sector_size) % 2 ^ 32))
      → write_at dev d position buf ≡ (ok n, d')
      → (n ≡ min (length buf) (sector_size - position % sector_size))
        × (read_at dev d' position n ≡ ok (take n buf, position + n))
  unfolding read_at
  sector_read-write d position buf n d' w e =
      let (count, (sector, l, back)) = written d position buf n d' e w in
      let offset = position % sector_size in
      let all : length (take n buf) ≡ n = omega (arith, length-take n buf) in
      let fits : min n (sector_size - offset) ≡ n = omega arith in
      let slice : take n (drop offset (patched sector offset (take n buf))) ≡ take n buf =
        ap (λ k. take k (drop offset (patched sector offset (take n buf)))) (sym all)
        ∙ patched_there sector (take n buf) offset (omega arith) in
      (count, rw (back, fits, slice) refl)
