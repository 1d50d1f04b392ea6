-- ===== src/Fat/Chain/Step.antt =====
-- The cluster that follows while a chain is written: the next of the chain, or a new one.
use vyper.Prelude.{
  ℕ, ◌%◌, ◌^◌, ◌≡◌, ◌≢◌, ◌≤◌, ◌⊎◌, Result, refl, ap, sym, true, false, leb, ◌==◌, Bytes, ok, err,
  List, [], ◌∷◌, arith, inl, inr,
}
use vyper.Block.Device.{Message, no_free_clusters}
use vyper.Fat.Volume.{eoc, fat_free, Volume, InRange, View, Changed, Lawful, put}
use vyper.Fat.Chain.{following, extend_chain, allocate_cluster}
use vyper.Fat.Chain.Follow.{mem, Chain}
use vyper.Fat.Chain.Alloc.{Allocates, taken, full, allocate_cluster_lem}

module _ {D : Type 0} (v : Volume D) (w : View v) where
  -- The clusters of a chain `ks` and the free ones may change, no other does.
  abbrev pub KeepsOthers : D → List ℕ → D → Type 0
  KeepsOthers d ks d' =
      (k : ℕ)
      → InRange v k
      → mem k ks ≡ false
      → w.entry d k ≢ fat_free
      → (w.entry d' k ≡ w.entry d k) × (w.content d' k ≡ w.content d k)

  -- The clusters of `ws` are those of a chain `ks`, or were free.
  abbrev pub TakenFrom : D → List ℕ → List ℕ → Type 0
  TakenFrom d ks ws =
      (k : ℕ) → InRange v k → mem k ws ≡ true → (mem k ks ≡ true) ⊎ (w.entry d k ≡ fat_free)

  -- From cluster `c`, where the chain goes on by `ks`: a next cluster stands behind `c`, or the
  -- volume is full.
  pub record Next (d : D) (c : ℕ) (ks : List ℕ) (e : ℕ) (es : List ℕ) (d' : D) : Type 0 where
    pub ready : w.Ready d'
    pub chain : Chain v (w.entry d') e (e ∷ es)
    pub apart : mem c (e ∷ es) ≡ false
    pub linked : w.entry d' c ≡ e
    pub kept : w.content d' c ≡ w.content d c
    pub from : TakenFrom d ks (e ∷ es)
    pub others : KeepsOthers d (c ∷ ks) d'

  pub data Follows (d : D) (c : ℕ) (ks : List ℕ) (run : Result Message ℕ × D) : Type 0 where
    goes_on :
        (e : ℕ) (es : List ℕ) (d' : D) → Next d c ks e es d' → run ≡ (ok e, d') → Follows d c ks run
    no_room : run ≡ (err no_free_clusters, d) → Follows d c ks run

module _ {D : Type 0} (v : Volume D) (w : View v) (lawful : Lawful v w) where
  extended :
      (d d1 d2 : D) (c e : ℕ)
      → InRange v c
      → eoc ≤ w.entry d c
      → InRange v e
      → w.entry d e ≡ fat_free
      → (zeros : Bytes) → Changed v w d (put v (w.entry d) e eoc) (put v (w.content d) e zeros) d1
      → Changed v w d1 (put v (w.entry d1) c (e % 2 ^ 28)) (w.content d1) d2
      → Next v w d c [] e [] d2
  extended d d1 d2 c e ic at_end ie free zeros ch1 ch2 =
      let few = lawful.few in
      let clash : c ≢ e =
        λ q. let same : w.entry d e ≡ w.entry d c = ap (w.entry d) (sym q) in omega arith in
      let apart : (c == e) ≡ false = ground arith in
      let back : (e == c) ≡ false = ground arith in
      record {
        ready = ch2.ready;
        chain = (refl, ie, refl, ground (arith, ch2.entries e ie, ch1.entries e ie));
        apart = ground arith;
        linked = ground (arith, ch2.entries c ic, ie.high);
        kept = ground (arith, ch2.contents c ic, ch1.contents c ic);
        from = λ k ik m. inr (ground arith);
        others = λ k ik m used.
            let other : (k == e) ≡ false = ground arith in
            let aside : (k == c) ≡ false = ground arith in
            (
              ground (arith, ch2.entries k ik, ch1.entries k ik),
              ground (arith, ch2.contents k ik, ch1.contents k ik),
            );
      }

  pub following_lem :
      (c : ℕ) (ks : List ℕ) (d : D)
      → w.Ready d
      → Chain v (w.entry d) c (c ∷ ks)
      → Follows v w d c ks (following v c d)
  unfolding following extend_chain
  following_lem c (k ∷ ks) d r (_, i, out, (e, i', out', h')) =
      let few = lawful.few in
      let more : leb eoc (w.entry d c) ≡ false = ground (arith, i'.high) in
      goes_on k ks d
        (record {
          ready = r;
          chain = (refl, i', out', h');
          apart = out;
          linked = e;
          kept = refl;
          from = λ j ij m. inl m;
          others = λ j ij m used. (refl, refl);
        })
        (rw (lawful.get_ok d c r i, more, e) refl)
  following_lem c [] d r (_, i, out, at_end) =
      let done : leb eoc (w.entry d c) ≡ true = ground arith in
      go done (allocate_cluster_lem v w lawful d r)
    where
      go :
          leb eoc (w.entry d c) ≡ true
          → Allocates v w d (allocate_cluster v d)
          → Follows v w d c [] (following v c d)
      go done (full used e) = no_room (rw (lawful.get_ok d c r i, done, e) refl)
      go done (taken k d1 ik free least ch1 e) =
          let (d2, set, ch2) = lawful.set_ok d1 c k ch1.ready i in
          goes_on k [] d2 (extended d d1 d2 c k i at_end ik free _ ch1 ch2)
            (rw (lawful.get_ok d c r i, done, e, set) refl)
