-- ===== src/Fat/Cluster/Device.antt =====
-- Runs of sectors on a device on which no access to its sectors fails.
use vyper.Prelude.{
  ℕ, zero, suc, ◌+◌, ◌*◌, ◌^◌, ◌≡◌, ◌<◌, ◌≤◌, ◌⊎◌, refl, ap, sym, ◌∙◌, ◌++◌, true, leb, Bytes,
  Result, ok, err, panic, stuck, [], length, take, drop, arith, length-take, length-append,
  length-drop, take_all, take_append, inl, inr,
}
use mathlib.Core.List.{append-nil, append_assoc}
use vyper.Block.Device.{BlockDevice, Message}
use vyper.Block.Device.Laws.{Lawful}
use vyper.Fat.Bpb.{u32}
use vyper.Fat.Cluster.{read_sectors, write_sectors}

-- A device with `total` sectors of 512 bytes, all of which can be read and written.
pub record Healthy {D : Type 0} (dev : BlockDevice D) (total : ℕ) : Type 1 where
  pub Fits : D → Type 0
  pub lawful : Lawful dev
  pub reads :
      (d : D) (s : ℕ)
      → Fits d
      → s < total
      → (sector : Bytes) × (dev.read_sector d s ≡ ok sector) × (length sector ≡ 512)
  pub writes :
      (d : D) (s : ℕ) (buf : Bytes)
      → Fits d
      → s < total
      → length buf ≡ 512
      → ((dev.write_sector d s buf).0 ≡ ok tt) × Fits (dev.write_sector d s buf).1

-- What a read gave.
abbrev pub bytes_of : Result Message Bytes → Bytes
bytes_of (ok bytes) = bytes
bytes_of (err e) = []
bytes_of panic = []
bytes_of stuck = []

module _ {D : Type 0} (dev : BlockDevice D) where
  abbrev pub sector_of : D → ℕ → Bytes
  sector_of d s = bytes_of (dev.read_sector d s)

  -- The data of `n` sectors from `s` on.
  abbrev pub run_of : D → ℕ → ℕ → Bytes
  run_of d s zero = []
  run_of d s (suc n) = sector_of d s ++ run_of d (suc s) n

abbrev pub pieces : (ℕ → Bytes) → ℕ → ℕ → Bytes
pieces f zero i = []
pieces f (suc n) i = f i ++ pieces f n (suc i)

module _ {D : Type 0} (dev : BlockDevice D) (total : ℕ) (small : total ≤ 2 ^ 32)
    (healthy : Healthy dev total) where
  pub sector_of-ok :
      (d : D) (s : ℕ) → healthy.Fits d → s < total → dev.read_sector d s ≡ ok (sector_of dev d s)
  sector_of-ok d s fits h = let (b, e, _) = healthy.reads d s fits h in rw e refl

  pub length-sector_of :
      (d : D) (s : ℕ) → healthy.Fits d → s < total → length (sector_of dev d s) ≡ 512
  length-sector_of d s fits h = let (b, e, n) = healthy.reads d s fits h in rw e n

  pub length-run_of :
      (d : D) (s n : ℕ) → healthy.Fits d → s + n ≤ total → length (run_of dev d s n) ≡ n * 512
  length-run_of d s zero fits h = omega arith
  length-run_of d s (suc n) fits h = omega (
    arith,
    length-append (sector_of dev d s) (run_of dev d (suc s) n),
    length-sector_of d s fits (omega arith),
    length-run_of d (suc s) n fits (omega arith),
  )

  -- Sectors that read alike make runs that are alike.
  pub run_of-same :
      (d d' : D) (s n : ℕ)
      → ((k : ℕ) → s ≤ k → k < s + n → dev.read_sector d' k ≡ dev.read_sector d k)
      → run_of dev d' s n ≡ run_of dev d s n
  run_of-same d d' s zero same = refl
  run_of-same d d' s (suc n) same =
      let here = same s (omega arith) (omega arith) in
      let rest = run_of-same d d' (suc s) n (λ k a b. same k (omega arith) (omega arith)) in
      ap (λ r. bytes_of r ++ run_of dev d' (suc s) n) here ∙ ap (◌++◌ (sector_of dev d s)) rest

  pub read_sectors_lem :
      (d : D) (start n i : ℕ) (buf : Bytes)
      → healthy.Fits d
      → start + i + n ≤ total
      → length buf ≡ (i + n) * 512
      → read_sectors dev d start n i buf ≡ ok (take (i * 512) buf ++ run_of dev d (start + i) n)
  unfolding read_sectors
  read_sectors_lem d start zero i buf fits h whole =
      rw append-nil (ap ok (sym (take_all (i * 512) buf (omega arith))))
  read_sectors_lem d start (suc n) i buf fits h whole =
      let s = start + i in
      let exact : u32 s ≡ s = omega arith in
      let next : start + suc i ≡ suc s = omega arith in
      let sector = sector_of dev d s in
      let size = length-sector_of d s fits (omega arith) in
      let front = take (i * 512) buf in
      let buf' = front ++ (sector ++ drop (i * 512 + 512) buf) in
      let room : leb (i * 512 + 512) (length buf) ≡ true = ground arith in
      let len_front : length (front ++ sector) ≡ suc i * 512 =
        omega (arith, length-take (i * 512) buf, length-append front sector) in
      let len_buf : length buf' ≡ (suc i + n) * 512 = omega (
        arith,
        length-append front (sector ++ drop (i * 512 + 512) buf),
        length-append sector (drop (i * 512 + 512) buf),
        length-take (i * 512) buf,
        length-drop (i * 512 + 512) buf,
      ) in
      let split : buf' ≡ (front ++ sector) ++ drop (i * 512 + 512) buf =
        sym (append_assoc front sector (drop (i * 512 + 512) buf)) in
      let got : take (suc i * 512) buf' ≡ front ++ sector =
        ap (take (suc i * 512)) split
        ∙ (ap (λ k. take k ((front ++ sector) ++ drop (i * 512 + 512) buf)) (sym len_front)
            ∙ take_append (front ++ sector) (drop (i * 512 + 512) buf)) in
      let rest = read_sectors_lem d start n (suc i) buf' fits (omega arith) len_buf in
      rw (exact, sector_of-ok d s fits (omega arith), room)
        (rest
          ∙ ap ok (
              ap (λ t. t ++ run_of dev d (start + suc i) n) got
              ∙ (append_assoc front sector (run_of dev d (start + suc i) n)
                  ∙ ap (λ k. front ++ (sector ++ run_of dev d k n)) next)))

  -- After `n` sectors from `start + i` on were written.
  pub record Filled (d : D) (s n i : ℕ) (f : ℕ → Bytes) (d' : D) : Type 0 where
    pub fits : healthy.Fits d'
    pub filled : run_of dev d' s n ≡ pieces f n i
    pub others : (k : ℕ) → (k < s) ⊎ (s + n ≤ k) → dev.read_sector d' k ≡ dev.read_sector d k

  opening :
      (piece : ℕ → Result Message Bytes) (sector : Bytes) (d d1 : D) (start n i : ℕ)
      → piece i ≡ ok sector
      → dev.write_sector d (u32 (start + i)) sector ≡ (ok tt, d1)
      → write_sectors dev piece start (suc n) i d ≡ write_sectors dev piece start n (suc i) d1
  unfolding write_sectors
  opening piece sector d d1 start n i this step = rw (this, step) refl

  pub write_sectors_lem :
      (piece : ℕ → Result Message Bytes) (f : ℕ → Bytes) (d : D) (start n i : ℕ)
      → healthy.Fits d
      → start + i + n ≤ total
      → ((j : ℕ) → i ≤ j → j < i + n → (piece j ≡ ok (f j)) × (length (f j) ≡ 512))
      → (d' : D) × (write_sectors dev piece start n i d ≡ (ok tt, d'))
        × Filled d (start + i) n i f d'
  unfolding write_sectors
  write_sectors_lem piece f d start zero i fits h given =
      (d, refl, record { fits = fits; filled = refl; others = λ k out. refl })
  write_sectors_lem piece f d start (suc n) i fits h given =
      let s = start + i in
      let exact : u32 s ≡ s = omega arith in
      let next : start + suc i ≡ suc s = omega arith in
      let (this, size) = given i (omega arith) (omega arith) in
      let (done, fits1) = healthy.writes d s (f i) fits (omega arith) size in
      let d1 = (dev.write_sector d s (f i)).1 in
      let step : dev.write_sector d s (f i) ≡ (ok tt, d1) = ground arith in
      let (d2, run, later) =
        write_sectors_lem piece f d1 start n (suc i) fits1 (omega arith)
          (λ j a b. given j (omega arith) (omega arith)) in
      let kept = later.others s (inl (omega arith)) in
      let here : dev.read_sector d2 s ≡ ok (f i) =
        kept ∙ healthy.lawful.read_written d s (f i) done in
      let first : write_sectors dev piece start (suc n) i d
          ≡ write_sectors dev piece start n (suc i) d1 =
        opening piece (f i) d d1 start n i this
          (ap (λ k. dev.write_sector d k (f i)) exact ∙ step) in
      (
        d2,
        first ∙ run,
        record {
          fits = later.fits;
          filled =
              ap (λ r. bytes_of r ++ run_of dev d2 (suc s) n) here
              ∙ ap (◌++◌ (f i)) (ap (λ k. run_of dev d2 k n) (sym next) ∙ later.filled);
          others = λ k out.
              later.others k (elim out [ inl a ↦ inl (omega arith) | inr b ↦ inr (omega arith) ])
              ∙ healthy.lawful.others_kept d s k (f i)
                  (λ e. elim out [ inl a ↦ omega arith | inr b ↦ omega arith ]);
        },
      )
