-- ===== src/Fat/Chain/Follow.antt =====
-- Following a chain: reading it and freeing it.
use vyper.Prelude.{
  ℕ, zero, suc, ◌≡◌, ◌≤◌, refl, ap, ◌∙◌, ◌++◌, Bool, true, false, ◌||◌, if◌then◌else◌, ◌==◌, Bytes,
  ok, length, replicate, List, [], ◌∷◌, arith, length-replicate,
}
use mathlib.Core.List.{append-nil, append_assoc}
use vyper.Fat.Volume.{eoc, fat_free, Volume, InRange, View, Changed, Lawful}
use vyper.Fat.Chain.{is_link, read_from, read_chain, free_chain}

abbrev pub mem : ℕ → List ℕ → Bool
mem k [] = false
mem k (c ∷ cs) = (k == c) || mem k cs

module _ {D : Type 0} (v : Volume D) where
  -- From cluster `c` the entries lead through distinct clusters of the volume to an end.
  abbrev pub Chain : (ℕ → ℕ) → ℕ → List ℕ → Type 0
  Chain entry c [] = eoc ≤ c
  Chain entry c (k ∷ ks) = (c ≡ k) × InRange v k × (mem k ks ≡ false) × Chain entry (entry k) ks

  -- The data of clusters, in order.
  abbrev pub contents : (ℕ → Bytes) → List ℕ → Bytes
  contents content [] = []
  contents content (c ∷ cs) = content c ++ contents content cs

  pub Chain-same :
      (entry entry' : ℕ → ℕ) (c : ℕ) (ks : List ℕ)
      → ((k : ℕ) → InRange v k → mem k ks ≡ true → entry' k ≡ entry k)
      → Chain entry c ks
      → Chain entry' c ks
  Chain-same entry entry' c [] same h = h
  Chain-same entry entry' c (k ∷ ks) same (e, i, out, h) =
      let here : entry' k ≡ entry k = same k i (ground arith) in
      (
        e,
        i,
        out,
        rw here (Chain-same entry entry' (entry k) ks (λ j r m. same j r (ground arith)) h),
      )

module _ {D : Type 0} (v : Volume D) (w : View v) (lawful : Lawful v w) where
  pub is_link-true : (c : ℕ) → InRange v c → is_link c ≡ true
  is_link-true c i = let few = lawful.few in ground (arith, i.low, i.high)

  pub read_from_lem :
      (fuel c : ℕ) (ks : List ℕ) (buf bytes : Bytes) (d : D)
      → w.Ready d
      → Chain v (w.entry d) c ks
      → length ks ≤ fuel
      → length buf ≡ v.bytes_per_cluster
      → read_from v fuel c buf bytes d ≡ ok (bytes ++ contents v (w.content d) ks)
  unfolding read_from
  read_from_lem zero c [] buf bytes d r h enough whole = rw append-nil (ground arith)
  read_from_lem (suc fuel) c [] buf bytes d r h enough whole = rw append-nil (ground arith)
  read_from_lem zero c (k ∷ ks) buf bytes d r h enough whole = absurd (omega arith)
  read_from_lem (suc fuel) c (k ∷ ks) buf bytes d r (e, i, out, h) enough whole =
      let rest =
        read_from_lem fuel (w.entry d k) ks (w.content d k) (bytes ++ w.content d k) d r h
          (omega arith) (lawful.content_length d k r i) in
      let link : is_link c ≡ true = rw e (is_link-true k i) in
      let read : v.read_cluster c buf d ≡ ok (w.content d k) =
        rw e (lawful.read_ok d k buf r i whole) in
      let get : v.get_fat_entry c d ≡ ok (w.entry d k) = rw e (lawful.get_ok d k r i) in
      rw (link, read, get)
        (rest ∙ ap ok (append_assoc bytes (w.content d k) (contents v (w.content d) ks)))

  -- In a working volume, and where the entries lead from `start` through distinct clusters to an
  -- end: `read_chain` with a round for each cluster returns the data of the clusters in order.
  pub read_chain_lem :
      (fuel start : ℕ) (ks : List ℕ) (d : D)
      → w.Ready d
      → Chain v (w.entry d) start ks
      → length ks ≤ fuel
      → read_chain v fuel start d ≡ ok (contents v (w.content d) ks)
  unfolding read_chain
  read_chain_lem fuel start ks d r h enough =
      read_from_lem fuel start ks (replicate v.bytes_per_cluster 0) [] d r h enough
        (length-replicate v.bytes_per_cluster (let zero_byte : ℕ = 0 in zero_byte))

  -- The entry of a cluster that `free_chain` has walked.
  abbrev pub freed : (ℕ → ℕ) → List ℕ → ℕ → ℕ
  freed entry ks k = if mem k ks then fat_free else entry k

  -- In a working volume, and where the entries lead from `start` through distinct clusters to an
  -- end: `free_chain` with a round for each cluster succeeds, and afterwards exactly these clusters
  -- are free, with every other entry and all data as before.
  pub free_chain_lem :
      (fuel start : ℕ) (ks : List ℕ) (d : D)
      → w.Ready d
      → Chain v (w.entry d) start ks
      → length ks ≤ fuel
      → (d' : D) × (free_chain v fuel start d ≡ (ok tt, d'))
        × Changed v w d (freed (w.entry d) ks) (w.content d) d'
  unfolding free_chain
  free_chain_lem zero c [] d r h enough =
      (d, ground arith, record { ready = r; entries = λ k i. refl; contents = λ k i. refl })
  free_chain_lem (suc fuel) c [] d r h enough =
      (d, ground arith, record { ready = r; entries = λ k i. refl; contents = λ k i. refl })
  free_chain_lem zero c (k ∷ ks) d r h enough = absurd (omega arith)
  free_chain_lem (suc fuel) c (k ∷ ks) d r (e, i, out, h) enough =
      let link : is_link c ≡ true = rw e (is_link-true k i) in
      let get : v.get_fat_entry c d ≡ ok (w.entry d k) = rw e (lawful.get_ok d k r i) in
      let (d1, set1, ch1) = lawful.set_ok d k 0 r i in
      let set : v.set_fat_entry c fat_free d ≡ (ok tt, d1) = rw e set1 in
      let chain : Chain v (w.entry d1) (w.entry d k) ks =
        Chain-same v (w.entry d) (w.entry d1) (w.entry d k) ks
          (λ j ij m. ground (arith, ch1.entries j ij)) h in
      let (d2, run, ch2) = free_chain_lem fuel (w.entry d k) ks d1 ch1.ready chain (omega arith) in
      (
        d2,
        rw (link, get, set) run,
        record {
          ready = ch2.ready;
          entries = λ j ij. ground (arith, ch2.entries j ij, ch1.entries j ij);
          contents = λ j ij. ch2.contents j ij ∙ ch1.contents j ij;
        },
      )
