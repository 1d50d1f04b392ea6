-- ===== src/Fat/Chain/Endless.antt =====
-- The end of a chain, and chains without one.
use vyper.Prelude.{
  ℕ, zero, suc, ◌≡◌, ◌<◌, refl, true, false, Bytes, ok, stuck, length, replicate, leb, List, [],
  ◌∷◌, arith, length-replicate,
}
use vyper.Fat.Volume.{eoc, Volume, InRange, View, Lawful}
use vyper.Fat.Chain.{read_from, read_chain, get_last_cluster}
use vyper.Fat.Chain.Follow.{mem, Chain, is_link-true}

abbrev pub last : ℕ → List ℕ → ℕ
last c [] = c
last c (k ∷ ks) = last k ks

-- Each of these clusters leads to one of them.
pub record IsRing {D : Type 0} (v : Volume D) (entry : ℕ → ℕ) (ks : List ℕ) : Type 0 where
  pub in_range : (k : ℕ) → mem k ks ≡ true → InRange v k
  pub leads_back : (k : ℕ) → mem k ks ≡ true → mem (entry k) ks ≡ true

module _ {D : Type 0} (v : Volume D) (w : View v) (lawful : Lawful v w) where
  -- In a working volume, and where the entries lead from `c` through the distinct clusters `c ∷ ks` to an
  -- end: `get_last_cluster` with a round for each cluster returns the last of them.
  pub get_last_cluster_lem :
      (fuel c : ℕ) (ks : List ℕ) (d : D)
      → w.Ready d
      → Chain v (w.entry d) c (c ∷ ks)
      → length ks < fuel
      → get_last_cluster v fuel c d ≡ ok (last c ks)
  unfolding get_last_cluster
  get_last_cluster_lem zero c ks d r h enough = absurd (omega arith)
  get_last_cluster_lem (suc fuel) c [] d r (e, i, out, h) enough =
      rw (lawful.get_ok d c r i, get_last_cluster) (ground arith)
  get_last_cluster_lem (suc fuel) c (k ∷ ks) d r (e, i, out, (e', i', out', h')) enough =
      let few = lawful.few in
      let more : leb eoc (w.entry d c) ≡ false = ground (arith, i'.high) in
      let rest = get_last_cluster_lem fuel k ks d r (refl, i', out', h') (omega arith) in
      rw (lawful.get_ok d c r i, get_last_cluster, more, e') rest

  module _ (d : D) (r : w.Ready d) (ks : List ℕ) (ring : IsRing v (w.entry d) ks) where
    read_from_endless :
        (fuel c : ℕ) (buf bytes : Bytes)
        → mem c ks ≡ true
        → length buf ≡ v.bytes_per_cluster
        → read_from v fuel c buf bytes d ≡ stuck
    unfolding read_from
    read_from_endless zero c buf bytes m whole = rw (is_link-true v w lawful c (ring.in_range c m))
    read_from_endless (suc fuel) c buf bytes m whole =
        let i = ring.in_range c m in
        rw (is_link-true v w lawful c i, lawful.read_ok d c buf r i whole, lawful.get_ok d c r i)
          (read_from_endless fuel (w.entry d c) (w.content d c) _ (ring.leads_back c m)
            (lawful.content_length d c r i))

    get_last_endless : (fuel c : ℕ) → mem c ks ≡ true → get_last_cluster v fuel c d ≡ stuck
    unfolding get_last_cluster
    get_last_endless zero c m = refl
    get_last_endless (suc fuel) c m =
        let few = lawful.few in
        let i = ring.in_range c m in
        let i' = ring.in_range (w.entry d c) (ring.leads_back c m) in
        let more : leb eoc (w.entry d c) ≡ false = ground (arith, i'.high) in
        rw (lawful.get_ok d c r i, get_last_cluster, more)
          (get_last_endless fuel (w.entry d c) (ring.leads_back c m))

    -- In a working volume, from a cluster of a set that the entries never leave, `read_chain` and
    -- `get_last_cluster` do not end, however many rounds they are given.
    pub read_chain_endless :
        (fuel start : ℕ)
        → mem start ks ≡ true
        → (read_chain v fuel start d ≡ stuck) × (get_last_cluster v fuel start d ≡ stuck)
    unfolding read_chain
    read_chain_endless fuel start m = (
      read_from_endless fuel start (replicate v.bytes_per_cluster 0) [] m
          (length-replicate v.bytes_per_cluster (let zero_byte : ℕ = 0 in zero_byte)),
      get_last_endless fuel start m,
    )
