-- ===== src/Fat/Chain/Alloc.antt =====
-- Allocating clusters.
use vyper.Prelude.{
  ℕ, zero, suc, ◌+◌, ◌-◌, ◌%◌, ◌^◌, ◌≡◌, ◌≢◌, ◌<◌, ◌≤◌, Result, refl, ◌∙◌, ◌==◌, ok, err, replicate,
  arith, Bool-cases, inl, inr,
}
use vyper.Block.Device.{Message, no_free_clusters}
use vyper.Fat.Volume.{eoc, fat_free, Volume, InRange, View, Changed, Lawful, put}
use vyper.Fat.Chain.{allocate_from, allocate_cluster}

module _ {D : Type 0} (v : Volume D) where
  -- A run of `allocate_cluster`: there was a free cluster, the first is taken, and nothing else
  -- changed; or there was none and nothing changed at all.
  pub data Allocates (w : View v) (d : D) (run : Result Message ℕ × D) : Type 0 where
    taken :
        (c : ℕ) (d' : D)
        → InRange v c
        → w.entry d c ≡ fat_free
        → ((k : ℕ) → InRange v k → k < c → w.entry d k ≢ fat_free)
        → Changed v w d
            (put v (w.entry d) c eoc)
            (put v (w.content d) c (replicate v.bytes_per_cluster 0))
            d'
        → run ≡ (ok c, d')
        → Allocates w d run
    full :
        ((k : ℕ) → InRange v k → w.entry d k ≢ fat_free)
        → run ≡ (err no_free_clusters, d)
        → Allocates w d run

module _ {D : Type 0} (v : Volume D) (w : View v) (lawful : Lawful v w) where
  allocate_from_lem :
      (n c : ℕ) (d : D)
      → w.Ready d
      → 2 ≤ c
      → c + n ≡ v.total_clusters + 2
      → ((k : ℕ) → InRange v k → k < c → w.entry d k ≢ fat_free)
      → Allocates v w d (allocate_from v n c d)
  unfolding allocate_from
  allocate_from_lem zero c d r low count before =
      full (λ k i. before k i (omega (arith, i.high))) refl
  allocate_from_lem (suc n) c d r low count before =
      let i : InRange v c = record { low = low; high = omega arith } in
      elim (Bool-cases (w.entry d c == fat_free)) [
        | inl is_free ↦
            let (d1, set, ch1) = lawful.set_ok d c eoc r i in
            let (d2, zeroed, ch2) = lawful.zero_ok d1 c ch1.ready i in
            taken c d2 i (ground arith) before
              (record {
                ready = ch2.ready;
                entries = λ k ik. ch2.entries k ik ∙ ch1.entries k ik;
                contents = λ k ik. ground (arith, ch2.contents k ik, ch1.contents k ik);
              })
              (rw (lawful.get_ok d c r i, is_free, set, zeroed) refl)
        | inr used ↦
            rw (lawful.get_ok d c r i, used)
              (allocate_from_lem n (suc c) d r (omega arith) (omega arith) (λ k ik h.
                elim (Bool-cases (k == c)) [
                  | inl same ↦ (λ z. ground arith)
                  | inr other ↦ before k ik (ground arith)
                ]))
      ]

  -- In a working volume `allocate_cluster` takes the first free cluster: its entry is the end of a
  -- chain and its data is zeros, and all other entries and data are as before. Without a free cluster
  -- it fails with "no free clusters" and changes nothing.
  pub allocate_cluster_lem : (d : D) → w.Ready d → Allocates v w d (allocate_cluster v d)
  unfolding allocate_cluster
  allocate_cluster_lem d r =
      let few = lawful.few in
      allocate_from_lem ((v.total_clusters + 2) % 2 ^ 32 - 2) 2 d r (omega arith) (omega arith)
        (λ k i h. absurd (omega (arith, i.low)))
