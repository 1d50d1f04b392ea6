-- ===== src/Fat/Chain.antt =====
-- Chains of clusters in fat32.rs. The loops of a chain run on fuel: a chain that leads back into
-- itself is followed for ever.
pub mod Follow
pub mod Endless
pub mod Alloc
pub mod Step
pub mod Write
pub mod Pieces
pub mod Save
pub mod Fits
pub mod Examples
use vyper.Prelude.{
  ℕ, zero, suc, ◌+◌, ◌-◌, ◌*◌, ◌/◌, ◌%◌, ◌^◌, ◌++◌, Bool, ◌&&◌, if◌then◌else◌, ltb, leb, ◌==◌,
  Bytes, Result, ok, err, panic, stuck, length, take, drop, replicate, min, List, [], ◌∷◌,
}
use vyper.Block.Device.{Message, no_free_clusters}
use vyper.Fat.Volume.{Io, and_then, ◌>>=◌, ◌>>◌, pure, fail, reading, eoc, fat_free, Volume}

-- `cluster >= 2 && cluster < FAT32_EOC`
abbrev pub is_link : ℕ → Bool
is_link cluster = leb 2 cluster && ltb cluster eoc

module _ {D : Type 0} (v : Volume D) where
  -- `allocate_cluster` from `cluster` on, with `n` clusters left.
  unfoldable pub allocate_from : ℕ → ℕ → Io D ℕ
  allocate_from zero cluster = fail no_free_clusters
  allocate_from (suc n) cluster =
      let rest = allocate_from n (suc cluster) in
      let take_it = v.set_fat_entry cluster eoc >> (v.zero_cluster cluster >> pure cluster) in
      do entry ← reading (v.get_fat_entry cluster); if entry == fat_free then take_it else rest

  unfoldable pub allocate_cluster : Io D ℕ
  allocate_cluster = allocate_from ((v.total_clusters + 2) % 2 ^ 32 - 2) 2

  -- `n` more clusters behind `prev`.
  unfoldable pub chain_from : ℕ → ℕ → Io D (Unit {0})
  chain_from zero prev = pure tt
  chain_from (suc n) prev = do next ← allocate_cluster; v.set_fat_entry prev next; chain_from n next

  unfoldable pub allocate_chain : ℕ → Io D ℕ
  allocate_chain count =
      if count == 0
      then pure 0
      else do first ← allocate_cluster; chain_from (count - 1) first; pure first

  unfoldable pub extend_chain : ℕ → Io D ℕ
  extend_chain last_cluster = do
    new_cluster ← allocate_cluster
    v.set_fat_entry last_cluster new_cluster
    pure new_cluster

  unfoldable pub free_chain : ℕ → ℕ → Io D (Unit {0})
  free_chain zero cluster = if is_link cluster then (λ d. (stuck, d)) else pure tt
  free_chain (suc fuel) cluster =
      let round = (do
        next ← reading (v.get_fat_entry cluster)
        v.set_fat_entry cluster fat_free
        free_chain fuel next) in
      if is_link cluster then round else pure tt

  unfoldable pub get_last_cluster : ℕ → ℕ → D → Result Message ℕ
  get_last_cluster zero cluster d = stuck
  get_last_cluster (suc fuel) cluster d = elim (v.get_fat_entry cluster d) [
    | ok next ↦ let rest = get_last_cluster fuel next d in if leb eoc next then ok cluster else rest
    | err e ↦ err e
    | panic ↦ panic
    | stuck ↦ stuck
  ]

  -- The loop of `read_chain`: `bytes` is what it has read.
  unfoldable pub read_from : ℕ → ℕ → Bytes → Bytes → D → Result Message Bytes
  read_from zero cluster buf bytes d = if is_link cluster then stuck else ok bytes
  read_from (suc fuel) cluster buf bytes d =
      let round : Result Message Bytes = (elim (v.read_cluster cluster buf d) [
        | ok buf' ↦ elim (v.get_fat_entry cluster d) [
          | ok next ↦ read_from fuel next buf' (bytes ++ buf') d
          | err e ↦ err e
          | panic ↦ panic
          | stuck ↦ stuck
        ]
        | err e ↦ err e
        | panic ↦ panic
        | stuck ↦ stuck
      ]) in
      if is_link cluster then round else ok bytes

  unfoldable pub read_chain : ℕ → ℕ → D → Result Message Bytes
  read_chain fuel start = read_from fuel start (replicate v.bytes_per_cluster 0) []

  -- The buffer of round `i`: zeros, and the piece of the data over them.
  unfoldable pub chunk : Bytes → ℕ → Bytes
  chunk bytes i =
      let piece = take v.bytes_per_cluster (drop (i * v.bytes_per_cluster) bytes) in
      piece ++ replicate (v.bytes_per_cluster - length piece) 0

  -- The cluster that follows in `write_chain`.
  unfoldable pub following : ℕ → Io D ℕ
  following cluster = do
    next ← reading (v.get_fat_entry cluster)
    if leb eoc next then extend_chain cluster else pure next

  -- The loop of `write_chain` from round `i` on, with `n` rounds behind it. Returns the last cluster.
  unfoldable pub write_from : Bytes → ℕ → ℕ → ℕ → Io D ℕ
  write_from bytes zero i cluster = v.write_cluster cluster (chunk bytes i) >> pure cluster
  write_from bytes (suc n) i cluster = do
    v.write_cluster cluster (chunk bytes i)
    next ← following cluster
    write_from bytes n (suc i) next

  -- What stands behind the loop.
  unfoldable pub finish : ℕ → Io D (Unit {0})
  finish cluster = do v.set_fat_entry cluster eoc; next ← reading (v.get_fat_entry cluster); pure tt

  unfoldable pub clusters_needed : Bytes → ℕ
  clusters_needed bytes = (length bytes + v.bytes_per_cluster - 1) / v.bytes_per_cluster

  unfoldable pub write_clusters : Bytes → ℕ → Io D ℕ
  write_clusters bytes start = do
    first ← if ltb start 2 then allocate_cluster else pure start
    last ← write_from bytes (clusters_needed bytes - 1) 0 first
    finish last
    pure first

  -- A cluster of no bytes divides by zero.
  unfoldable pub write_chain : ℕ → Bytes → Io D ℕ
  write_chain start bytes =
      if v.bytes_per_cluster == 0
      then (λ d. (panic, d))
      else if clusters_needed bytes == 0
      then pure start
      else write_clusters bytes start
