-- ===== src/Fat/Cluster/Laws.antt =====
-- A volume of FAT32 on a device on which no access fails is a working volume.
use Prim.Native.Nat.{bit_and}
use vyper.Prelude.{
  ℕ, zero, suc, ◌+◌, ◌*◌, ◌%◌, ◌^◌, ◌≡◌, ◌<◌, ◌≤◌, refl, ap, sym, ◌∙◌, ◌++◌, true, false, ltb, leb,
  ◌==◌, Bytes, ok, [], ◌∷◌, length, take, drop, replicate, arith, length-take, length-drop,
  length-replicate, take-append-drop, drop-drop, inl, inr, Bool-cases,
}
use mathlib.Core.Path.{subst}
use vyper.Block.Device.{BlockDevice}
use vyper.Fat.Bpb.{Bpb, le_at, cluster_to_sector, cluster_to_sector_lem, bytes_per_cluster}
use vyper.Fat.Table.{fat_offset, fat_sector, low_bits, set_fat_entry}
use vyper.Fat.Volume.{View, InRange, Changed, Lawful, put}
use vyper.Fat.Cluster.{slice, zero_sector, read_cluster, write_cluster, zero_cluster, fat_volume}
use vyper.Fat.Cluster.Device.{
  Healthy, bytes_of, run_of, pieces, length-run_of, run_of-same, read_sectors_lem, Filled,
  write_sectors_lem,
}
use vyper.Fat.Cluster.Entries.{
  IsFat, sector_bound, entry_of, get_fat_entry_total, set_fat_entry_total, set_fat_entry-other,
  entry_of-set_fat_entry,
}

-- The slices of a buffer, put together.
pieces-slices :
    (buf : Bytes) (n i : ℕ)
    → length buf ≡ (i + n) * 512
    → pieces (λ j. take 512 (drop (j * 512) buf)) n i ≡ drop (i * 512) buf
pieces-slices buf zero i h =
    sym (empty (drop (i * 512) buf) (omega (arith, length-drop (i * 512) buf)))
  where
    empty : (xs : Bytes) → length xs ≡ 0 → xs ≡ []
    empty [] e = refl
    empty (x ∷ xs) e = absurd (omega arith)
pieces-slices buf (suc n) i h =
    let next : suc i * 512 ≡ i * 512 + 512 = omega arith in
    let rest = pieces-slices buf n (suc i) (omega arith) in
    ap (◌++◌ (take 512 (drop (i * 512) buf)))
      (rest ∙ (ap (λ k. drop k buf) next ∙ drop-drop (i * 512) 512 buf))
    ∙ take-append-drop 512 (drop (i * 512) buf)

pieces-zeros : (n i : ℕ) → pieces (λ j. zero_sector) n i ≡ replicate (n * 512) 0
pieces-zeros zero i = refl
pieces-zeros (suc n) i =
    ap (◌++◌ zero_sector) (pieces-zeros n (suc i)) ∙ (join 512 (n * 512) ∙ ap zeros sum)
  where
    zeros : ℕ → Bytes
    zeros k = replicate k 0

    join : (a b : ℕ) → zeros a ++ zeros b ≡ zeros (a + b)
    join zero b = ap zeros (omega arith)
    join (suc a) b = let e : suc a + b ≡ suc (a + b) = omega arith in rw e (ap (◌∷◌ 0) (join a b))

    sum : 512 + n * 512 ≡ suc n * 512
    sum = omega arith

module _ {D : Type 0} (dev : BlockDevice D) (bpb : Bpb) (fat : IsFat bpb)
    (healthy : Healthy dev bpb.total_sectors) where
  abbrev fits_32 : bpb.total_sectors ≤ 2 ^ 32
  fits_32 = omega (arith, fat.volume.in_bits)

  abbrev start : ℕ → ℕ
  start c = cluster_to_sector bpb c

  abbrev pub fat_view : View (fat_volume dev bpb)
  fat_view = record {
    Ready = healthy.Fits;
    entry = entry_of dev bpb fat healthy;
    content = λ d c. run_of dev d (start c) bpb.sectors_per_cluster;
  }

  from_Filled :
      (d d' : D) (c : ℕ) (f : ℕ → Bytes) (bytes : Bytes)
      → InRange (fat_volume dev bpb) c
      → Filled dev bpb.total_sectors fits_32 healthy d (start c) bpb.sectors_per_cluster 0 f d'
      → pieces f bpb.sectors_per_cluster 0 ≡ bytes
      → Changed
          (fat_volume dev bpb)
          fat_view
          d
          (fat_view.entry d)
          (put (fat_volume dev bpb) (fat_view.content d) c bytes)
          d'
  from_Filled d d' c f bytes i filled whole = record {
    ready = filled.fits;
    entries = λ k ik.
        let before = sector_bound dev bpb fat healthy k 0 ik.high fat.some_table in
        let behind = (cluster_to_sector_lem bpb c c fat.volume i.low i.high).0 in
        ap (λ r. bit_and (le_at 4 (fat_offset k % 512) (bytes_of r)) low_bits)
          (filled.others (fat_sector bpb 0 k) (inl (omega arith)));
    contents = λ k ik. elim (Bool-cases (k == c)) [
      | inl same ↦
          let e : k ≡ c = ground arith in
          rw same
            (ap (λ j. run_of dev d' (start j) bpb.sectors_per_cluster) e ∙ (filled.filled ∙ whole))
      | inr differ ↦ rw differ (
          run_of-same dev bpb.total_sectors fits_32 healthy d d' (start k) bpb.sectors_per_cluster
            (λ s low high. filled.others s (elim (Bool-cases (ltb k c)) [
              | inl less ↦
                  let up =
                    (cluster_to_sector_lem bpb k c fat.volume ik.low ik.high).2 (ground arith)
                      i.high in
                  inl (omega arith)
              | inr more ↦
                  let later : c < k = ground arith in
                  let up =
                    (cluster_to_sector_lem bpb c k fat.volume i.low i.high).2 later ik.high in
                  inr (omega arith)
            ])))
    ];
  }

  cluster_size : bytes_per_cluster bpb ≡ bpb.sectors_per_cluster * 512
  unfolding bytes_per_cluster
  cluster_size = omega (arith, ap (λ (t : ℕ). t * bpb.sectors_per_cluster) fat.whole_sectors)

  inside :
      (c : ℕ)
      → InRange (fat_volume dev bpb) c
      → start c + bpb.sectors_per_cluster ≤ bpb.total_sectors
  inside c i = (cluster_to_sector_lem bpb c c fat.volume i.low i.high).1

  read_total :
      (d : D) (c : ℕ) (buf : Bytes)
      → healthy.Fits d
      → InRange (fat_volume dev bpb) c
      → length buf ≡ bytes_per_cluster bpb
      → read_cluster dev bpb c buf d ≡ ok (fat_view.content d c)
  unfolding read_cluster
  read_total d c buf fits i whole =
      let enough : ltb (length buf) (bytes_per_cluster bpb) ≡ false = ground arith in
      let room = inside c i in
      let here : start c + 0 ≡ start c = omega arith in
      let none_yet : 0 * 512 ≡ 0 = omega arith in
      rw enough (
        read_sectors_lem dev bpb.total_sectors fits_32 healthy d (start c) bpb.sectors_per_cluster 0
          buf fits (omega arith) (omega (arith, cluster_size))
        ∙ ap ok (
            ap (λ k. take k buf ++ run_of dev d (start c + 0) bpb.sectors_per_cluster) none_yet
            ∙ ap (λ s. run_of dev d s bpb.sectors_per_cluster) here))

  write_total :
      (d : D) (c : ℕ) (buf : Bytes)
      → healthy.Fits d
      → InRange (fat_volume dev bpb) c
      → length buf ≡ bytes_per_cluster bpb
      → (d' : D) × (write_cluster dev bpb c buf d ≡ (ok tt, d'))
        × Changed
            (fat_volume dev bpb)
            fat_view
            d
            (fat_view.entry d)
            (put (fat_volume dev bpb) (fat_view.content d) c buf)
            d'
  unfolding write_cluster
  write_total d c buf fits i whole =
      let enough : ltb (length buf) (bytes_per_cluster bpb) ≡ false = ground arith in
      let room = inside c i in
      let here : start c + 0 ≡ start c = omega arith in
      let size : length buf ≡ (0 + bpb.sectors_per_cluster) * 512 = omega (arith, cluster_size) in
      let f : ℕ → Bytes = λ j. take 512 (drop (j * 512) buf) in
      let (d', run, filled) =
        write_sectors_lem dev bpb.total_sectors fits_32 healthy (slice buf) f d (start c)
          bpb.sectors_per_cluster 0 fits (omega arith)
          (λ j a b. (
            let fits_in : leb ((j + 1) * 512) (length buf) ≡ true = ground arith in rw fits_in refl,
            omega (arith, length-take 512 (drop (j * 512) buf), length-drop (j * 512) buf),
          )) in
      let none_yet : drop (0 * 512) buf ≡ buf = ap (λ k. drop k buf) zero_times in
      (
        d',
        rw enough run,
        from_Filled d d' c f buf i
            (subst
              (λ s. Filled dev bpb.total_sectors fits_32 healthy d s bpb.sectors_per_cluster 0 f d')
              here filled)
            (pieces-slices buf bpb.sectors_per_cluster 0 size ∙ none_yet),
      )
    where
      zero_times : 0 * 512 ≡ 0
      zero_times = omega arith

  zero_total :
      (d : D) (c : ℕ)
      → healthy.Fits d
      → InRange (fat_volume dev bpb) c
      → (d' : D) × (zero_cluster dev bpb c d ≡ (ok tt, d'))
        × Changed
            (fat_volume dev bpb)
            fat_view
            d
            (fat_view.entry d)
            (put (fat_volume dev bpb) (fat_view.content d) c (replicate (bytes_per_cluster bpb) 0))
            d'
  unfolding zero_cluster
  zero_total d c fits i =
      let room = inside c i in
      let here : start c + 0 ≡ start c = omega arith in
      let f : ℕ → Bytes = λ j. zero_sector in
      let (d', run, filled) =
        write_sectors_lem dev bpb.total_sectors fits_32 healthy (λ j. ok zero_sector) f d (start c)
          bpb.sectors_per_cluster 0 fits (omega arith)
          (λ j a b. (refl, length-replicate 512 (let zero_byte : ℕ = 0 in zero_byte))) in
      (
        d',
        run,
        from_Filled d d' c f (replicate (bytes_per_cluster bpb) 0) i
            (subst
              (λ s. Filled dev bpb.total_sectors fits_32 healthy d s bpb.sectors_per_cluster 0 f d')
              here filled)
            (pieces-zeros bpb.sectors_per_cluster 0
              ∙ ap (λ (k : ℕ). replicate k 0) (sym cluster_size)),
      )

  set_total :
      (d : D) (c value : ℕ)
      → healthy.Fits d
      → InRange (fat_volume dev bpb) c
      → (d' : D) × (set_fat_entry dev bpb d c value ≡ (ok tt, d'))
        × Changed
            (fat_volume dev bpb)
            fat_view
            d
            (put (fat_volume dev bpb) (fat_view.entry d) c (value % 2 ^ 28))
            (fat_view.content d)
            d'
  set_total d c value fits i =
      let d' = (set_fat_entry dev bpb d c value).1 in
      let (done, fits') = set_fat_entry_total dev bpb fat healthy d c value fits i.high in
      (
        d',
        ground arith,
        record {
          ready = fits';
          entries =
              λ k ik. entry_of-set_fat_entry dev bpb fat healthy d c value k fits i.high ik.high;
          contents = λ k ik.
              run_of-same dev bpb.total_sectors fits_32 healthy d d' (start k)
                bpb.sectors_per_cluster
                (λ s low high. set_fat_entry-other dev bpb fat healthy d c value s (λ j b.
                  let before = sector_bound dev bpb fat healthy c j i.high b in
                  let behind = (cluster_to_sector_lem bpb k k fat.volume ik.low ik.high).0 in
                  λ e. omega arith));
        },
      )

  -- With a FAT32 volume whose data begins within its sectors, with sectors of 512 bytes and an entry
  -- for each cluster, on a device on which no access to these sectors fails: getting and setting
  -- entries and reading, writing and zeroing clusters all succeed; setting an entry changes no other
  -- entry and no data; and writing or zeroing a cluster changes no other cluster and no entry.
  pub fat_volume-Lawful : Lawful (fat_volume dev bpb) fat_view
  fat_volume-Lawful = record {
    few = fat.few;
    some_bytes = omega (arith, cluster_size, fat.volume.has_clusters);
    get_ok = λ d c fits i. get_fat_entry_total dev bpb fat healthy d c fits i.high;
    read_ok = read_total;
    content_length = λ d c fits i.
        length-run_of dev bpb.total_sectors fits_32 healthy d (start c) bpb.sectors_per_cluster fits
          (inside c i)
        ∙ sym cluster_size;
    set_ok = set_total;
    write_ok = write_total;
    zero_ok = zero_total;
  }
