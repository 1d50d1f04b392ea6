-- ===== src/Fat/Chain/Save.antt =====
-- What `write_chain` has written, `read_chain` reads.
use vyper.Prelude.{
  ℕ, suc, ◌-◌, ◌≡◌, ◌≢◌, ◌<◌, ◌≤◌, Result, refl, ap, ◌∙◌, true, false, ltb, ◌==◌, Bytes, ok, err,
  panic, stuck, List, [], ◌∷◌, arith, Bool-cases, inl, inr, length, replicate,
}
use vyper.Block.Device.{Message, no_free_clusters}
use vyper.Fat.Volume.{
  Io, and_then, pure, eoc, fat_free, Volume, InRange, View, Changed, Lawful, put,
}
use vyper.Fat.Chain.{
  write_chain, write_clusters, write_from, finish, clusters_needed, allocate_cluster, read_chain,
}
use vyper.Fat.Chain.Follow.{Chain, read_chain_lem}
use vyper.Fat.Chain.Alloc.{Allocates, taken, full, allocate_cluster_lem}
use vyper.Fat.Chain.Step.{KeepsOthers, TakenFrom}
use vyper.Fat.Chain.Write.{Writes, written, no_space, chunks, rounds, rounds_lem}
use vyper.Fat.Chain.Pieces.{padded, chunks-padded, needed_pos}

module _ {D : Type 0} (v : Volume D) where
  -- The clusters `ws` hold the data from `first` on, and `read_chain` finds it there.
  pub record Saved (w : View v) (d : D) (ks : List ℕ) (bytes : Bytes) (first : ℕ) (ws : List ℕ)
      (d' : D) : Type 0 where
    pub ready : w.Ready d'
    pub chain : Chain v (w.entry d') first ws
    pub reads :
        (fuel : ℕ)
        → clusters_needed v bytes ≤ fuel
        → read_chain v fuel first d' ≡ ok (padded v bytes (clusters_needed v bytes))
    pub from : TakenFrom v w d ks ws
    pub others : KeepsOthers v w d ks d'

  -- The run returned a cluster of which `P` holds, or the volume was full.
  pub data Saves (P : ℕ → Type 0) (w : View v) (d : D) (ks : List ℕ) (bytes : Bytes)
      (run : Result Message ℕ × D) : Type 0 where
    saved :
        (first : ℕ) (ws : List ℕ) (d' : D)
        → P first
        → Saved w d ks bytes first ws d'
        → run ≡ (ok first, d')
        → Saves P w d ks bytes run
    refused : run.0 ≡ err no_free_clusters → Saves P w d ks bytes run

module _ {D : Type 0} (v : Volume D) (w : View v) (lawful : Lawful v w) where
  abbrev body : Bytes → ℕ → Io D ℕ
  body bytes first d =
      and_then (write_from v bytes (clusters_needed v bytes - 1) 0 first d)
        (λ last d'. and_then (finish v last d') (λ _. pure first))

  pub regroup :
      {A B C : Type 0} (r : Result Message A × D) (f : A → Io D B) (g : B → Io D C)
      → and_then r (λ a d. and_then (f a d) g) ≡ and_then (and_then r f) g
  regroup (ok a, d) f g = refl
  regroup (err e, d) f g = refl
  regroup (panic, d) f g = refl
  regroup (stuck, d) f g = refl

  body_lem :
      (bytes : Bytes) (first : ℕ) (ks : List ℕ) (d : D)
      → w.Ready d
      → Chain v (w.entry d) first (first ∷ ks)
      → 1 ≤ length bytes
      → Saves v (λ c. c ≡ first) w d (first ∷ ks) bytes (body bytes first d)
  body_lem bytes first ks d r h some_data =
      let n = clusters_needed v bytes in
      let pos = needed_pos v bytes lawful.some_bytes some_data in
      let e : suc (n - 1) ≡ n = omega arith in
      go e (rounds_lem v w lawful bytes (n - 1) 0 first ks d r h)
    where
      go :
          suc (clusters_needed v bytes - 1) ≡ clusters_needed v bytes
          → Writes v w d
              (first ∷ ks)
              (suc (clusters_needed v bytes - 1))
              (chunks v bytes (suc (clusters_needed v bytes - 1)) 0)
              first
              tt
              (rounds v bytes (clusters_needed v bytes - 1) 0 first d)
          → Saves v (λ c. c ≡ first) w d (first ∷ ks) bytes (body bytes first d)
      go e (written ws d' hd q) =
          saved first ws d' refl
            (record {
              ready = hd.ready;
              chain = hd.chain;
              reads = λ fuel enough.
                  read_chain_lem v w lawful fuel first ws d' hd.ready hd.chain
                    (omega (arith, hd.count))
                  ∙ ap ok (
                      hd.holds
                      ∙ (ap (λ k. chunks v bytes k 0) e ∙ chunks-padded v bytes lawful.some_bytes));
              from = hd.from;
              others = hd.others;
            })
            (regroup (write_from v bytes (clusters_needed v bytes - 1) 0 first d) (finish v)
                (λ _. pure first)
              ∙ ap (λ r. and_then r (λ _. pure first)) q)
      go e (no_space q) = refused (
          ap (λ r. r.0)
            (regroup (write_from v bytes (clusters_needed v bytes - 1) 0 first d) (finish v)
              (λ _. pure first))
          ∙ failed (rounds v bytes (clusters_needed v bytes - 1) 0 first d) q)
        where
          failed :
              (r : Result Message (Unit {0}) × D)
              → r.0 ≡ err no_free_clusters
              → (and_then r (λ _. pure first)).0 ≡ err no_free_clusters
          failed (ok a, d) q = cc
          failed (err e, d) q = cc
          failed (panic, d) q = cc
          failed (stuck, d) q = cc

  pub opened :
      (start : ℕ) (bytes : Bytes) (d : D)
      → 1 ≤ length bytes
      → write_chain v start bytes d ≡ write_clusters v bytes start d
  unfolding write_chain
  opened start bytes d some_data =
      let pos = needed_pos v bytes lawful.some_bytes some_data in
      let more = lawful.some_bytes in ground arith

  -- In a working volume, with data of at least a byte, and where the entries lead from `start`
  -- through distinct clusters to an end: `write_chain` fails with "no free clusters", or it
  -- returns `start`. Then `read_chain` from there, with a round for each cluster that the data
  -- needs, returns the data and zeros to the end of the last cluster. The new chain is made of
  -- clusters of the old one and of free ones, and a cluster in use outside of the old chain keeps
  -- its entry and its data.
  pub write_chain_lem :
      (start : ℕ) (ks : List ℕ) (bytes : Bytes) (d : D)
      → w.Ready d
      → Chain v (w.entry d) start (start ∷ ks)
      → 1 ≤ length bytes
      → Saves v (λ c. c ≡ start) w d (start ∷ ks) bytes (write_chain v start bytes d)
  unfolding write_clusters
  write_chain_lem start ks bytes d r h some_data =
      let low = h.1.low in
      let old : ltb start 2 ≡ false = ground arith in
      rw (opened start bytes d some_data, old) (body_lem bytes start ks d r h some_data)

  -- Of the clusters in use nothing is known to a new chain.
  from_new :
      (d d1 d2 : D) (c first : ℕ) (bytes : Bytes) (ws : List ℕ)
      → InRange v c
      → w.entry d c ≡ fat_free
      → Changed v w d
          (put v (w.entry d) c eoc)
          (put v (w.content d) c (replicate v.bytes_per_cluster 0))
          d1
      → Saved v w d1 (c ∷ []) bytes first ws d2
      → Saved v w d [] bytes first ws d2
  from_new d d1 d2 c first bytes ws ic free ch s = record {
    ready = s.ready;
    chain = s.chain;
    reads = s.reads;
    from = λ k ik m. inr (elim (Bool-cases (k == c)) [
      | inl same ↦ ground arith
      | inr other ↦ elim (s.from k ik m) [
        | inl a ↦ ground arith
        | inr z ↦ ground (arith, ch.entries k ik)
      ]
    ]);
    others = λ k ik m used.
        let other : (k == c) ≡ false = ground arith in
        let used1 : w.entry d1 k ≢ fat_free = λ z. ground (arith, ch.entries k ik) in
        let (a, b) = s.others k ik (ground arith) used1 in
        (a ∙ ground (arith, ch.entries k ik), b ∙ ground (arith, ch.contents k ik));
  }

  -- In a working volume, with data of at least a byte and a `start` below 2, which is how an entry
  -- without clusters has it: `write_chain` fails with "no free clusters", or it returns a
  -- free cluster, the first of a new chain. `read_chain` from there, with a round for each cluster that the data
  -- needs, returns the data and zeros to the end of the last cluster. The new chain is made of free
  -- clusters, and every cluster in use keeps its entry and its data.
  pub write_chain_new :
      (start : ℕ) (bytes : Bytes) (d : D)
      → w.Ready d
      → start < 2
      → 1 ≤ length bytes
      → Saves v (λ c. w.entry d c ≡ fat_free) w d [] bytes (write_chain v start bytes d)
  unfolding write_clusters
  write_chain_new start bytes d r low some_data =
      rw (opened start bytes d some_data) (go (ground arith) (allocate_cluster_lem v w lawful d r))
    where
      go :
          ltb start 2 ≡ true
          → Allocates v w d (allocate_cluster v d)
          → Saves v (λ c. w.entry d c ≡ fat_free) w d [] bytes (write_clusters v bytes start d)
      go new (full used q) = refused (rw (new, q) refl)
      go new (taken c d1 ic free least ch q) =
          rw (new, q)
            (elim (body_lem bytes c [] d1 ch.ready (refl, ic, refl, ground (arith, ch.entries c ic))
              some_data) [
                | saved first ws d2 same s run ↦
                    saved first ws d2 (ap (w.entry d) same ∙ free)
                      (from_new d d1 d2 c first bytes ws ic free ch s) run
                | refused e ↦ refused e
              ])
