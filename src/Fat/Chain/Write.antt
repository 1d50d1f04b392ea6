-- ===== src/Fat/Chain/Write.antt =====
-- Writing a chain.
use vyper.Prelude.{
  ℕ, zero, suc, ◌-◌, ◌*◌, ◌≡◌, ◌≢◌, Result, refl, ap, sym, ◌∙◌, false, ◌==◌, Bytes, ok, err, ◌++◌,
  List, [], ◌∷◌, arith, Bool-cases, inl, inr, length, take, drop, replicate, length-append,
  length-replicate, length-take,
}
use vyper.Block.Device.{Message, no_free_clusters}
use vyper.Fat.Volume.{Io, and_then, eoc, fat_free, Volume, InRange, View, Changed, Lawful, put}
use vyper.Fat.Chain.{following, write_from, finish, chunk}
use vyper.Fat.Chain.Follow.{mem, Chain, Chain-same, contents}
use vyper.Fat.Chain.Step.{KeepsOthers, TakenFrom, Next, Follows, goes_on, no_room, following_lem}

module _ {D : Type 0} (v : Volume D) where
  -- The buffers of `n` rounds from round `i` on.
  abbrev pub chunks : Bytes → ℕ → ℕ → Bytes
  chunks bytes zero i = []
  chunks bytes (suc n) i = chunk v bytes i ++ chunks bytes n (suc i)

  -- From cluster `c` stand the clusters `ws` with the data `bytes`.
  pub record Holds (w : View v) (d : D) (ks : List ℕ) (n : ℕ) (bytes : Bytes) (c : ℕ) (ws : List ℕ)
      (d' : D) : Type 0 where
    pub ready : w.Ready d'
    pub chain : Chain v (w.entry d') c ws
    pub count : length ws ≡ n
    pub holds : contents v (w.content d') ws ≡ bytes
    pub from : TakenFrom v w d ks ws
    pub others : KeepsOthers v w d ks d'

  pub data Writes {A : Type 0} (w : View v) (d : D) (ks : List ℕ) (n : ℕ) (bytes : Bytes) (c : ℕ)
      (result : A) (run : Result Message A × D) : Type 0 where
    written :
        (ws : List ℕ) (d' : D)
        → Holds w d ks n bytes c ws d'
        → run ≡ (ok result, d')
        → Writes w d ks n bytes c result run
    no_space : run.0 ≡ err no_free_clusters → Writes w d ks n bytes c result run

  -- The loop of `write_chain` and what stands behind it.
  abbrev pub rounds : Bytes → ℕ → ℕ → ℕ → Io D (Unit {0})
  rounds bytes n i c d = and_then (write_from v bytes n i c d) (finish v)

module _ {D : Type 0} (v : Volume D) (w : View v) (lawful : Lawful v w) where
  last_round :
      (bytes : Bytes) (i c : ℕ) (ks : List ℕ) (d : D)
      → length (chunk v bytes i) ≡ v.bytes_per_cluster
      → w.Ready d
      → Chain v (w.entry d) c (c ∷ ks)
      → Writes v w d (c ∷ ks) 1 (chunks v bytes 1 i) c tt (rounds v bytes 0 i c d)
  unfolding write_from finish
  last_round bytes i c ks d whole r (_, ic, _, _) =
      let (d1, wrote, ch1) = lawful.write_ok d c (chunk v bytes i) r ic whole in
      let (d2, set, ch2) = lawful.set_ok d1 c eoc ch1.ready ic in
      written (c ∷ []) d2
        (record {
          ready = ch2.ready;
          chain = (refl, ic, refl, ground (arith, ch2.entries c ic));
          count = refl;
          holds = ap (λ b. b ++ []) (ground (arith, ch2.contents c ic, ch1.contents c ic));
          from = λ k ik m. inl (ground arith);
          others = λ k ik m used. (
            ground (arith, ch2.entries k ik, ch1.entries k ik),
            ground (arith, ch2.contents k ik, ch1.contents k ik),
          );
        })
        (rw (wrote, set, lawful.get_ok d2 c ch2.ready ic) refl)

  -- A round, and the rounds behind it.
  one_more :
      (bytes : Bytes) (n c e : ℕ) (ks es ws : List ℕ) (piece : Bytes) (d d1 d2 d3 : D)
      → InRange v c
      → Changed v w d (w.entry d) (put v (w.content d) c piece) d1
      → Next v w d1 c ks e es d2
      → Holds v w d2 (e ∷ es) n bytes e ws d3
      → Holds v w d (c ∷ ks) (suc n) (piece ++ bytes) c (c ∷ ws) d3
  one_more bytes n c e ks es ws piece d d1 d2 d3 ic ch nx hd =
      let e_range : InRange v e = nx.chain.1 in
      let e_low = e_range.low in
      let linked_used : w.entry d2 c ≢ fat_free = λ z. omega (arith, nx.linked) in
      let (kept_entry, kept_content) = hd.others c ic nx.apart linked_used in
      let link : w.entry d3 c ≡ e = kept_entry ∙ nx.linked in
      record {
        ready = hd.ready;
        chain = (refl, ic, out linked_used, rw link hd.chain);
        count = omega (arith, hd.count);
        holds =
            ap (λ b. b ++ contents v (w.content d3) ws)
              (kept_content ∙ (nx.kept ∙ ground (arith, ch.contents c ic)))
            ∙ ap (◌++◌ piece) hd.holds;
        from = λ k ik m. elim (Bool-cases (mem k (c ∷ ks))) [
          | inl old ↦ inl old
          | inr new ↦ elim (Bool-cases (w.entry d k == fat_free)) [
            | inl free ↦ inr (ground arith)
            | inr used ↦
                let used' : w.entry d k ≢ fat_free = λ z. ground arith in
                let (first, next) = quiet k ik new used' in
                absurd (elim (hd.from k ik (ground arith)) [
                  | inl a ↦ ground (arith, next)
                  | inr z ↦ used' (sym first.0 ∙ z)
                ])
          ]
        ];
        others = λ k ik m used.
            let (first, next) = quiet k ik m used in
            let (a, b) = hd.others k ik next (λ z. used (sym first.0 ∙ z)) in
            (a ∙ first.0, b ∙ first.1);
      }
    where
      quiet :
          (k : ℕ)
          → InRange v k
          → mem k (c ∷ ks) ≡ false
          → w.entry d k ≢ fat_free
          → ((w.entry d2 k ≡ w.entry d k) × (w.content d2 k ≡ w.content d k))
            × (mem k (e ∷ es) ≡ false)
      quiet k ik m used =
          let used1 : w.entry d1 k ≢ fat_free = λ z. used (sym (ch.entries k ik) ∙ z) in
          let (a, b) = nx.others k ik m used1 in
          (
            (a ∙ ch.entries k ik, b ∙ ground (arith, ch.contents k ik)),
            elim (Bool-cases (mem k (e ∷ es))) [
              | inr o ↦ o
              | inl i ↦ absurd (elim (nx.from k ik i) [ inl x ↦ ground arith | inr z ↦ used1 z ])
            ],
          )

      out : w.entry d2 c ≢ fat_free → mem c ws ≡ false
      out used = elim (Bool-cases (mem c ws)) [
        | inr o ↦ o
        | inl m ↦
            absurd (elim (hd.from c ic m) [ inl a ↦ ground (arith, nx.apart) | inr z ↦ used z ])
      ]

  pub length-chunk : (bytes : Bytes) (i : ℕ) → length (chunk v bytes i) ≡ v.bytes_per_cluster
  unfolding chunk
  length-chunk bytes i =
      let piece = take v.bytes_per_cluster (drop (i * v.bytes_per_cluster) bytes) in
      omega (
        arith,
        length-append piece (replicate (v.bytes_per_cluster - length piece) 0),
        length-replicate (v.bytes_per_cluster - length piece) (let zero_byte : ℕ = 0 in zero_byte),
        length-take v.bytes_per_cluster (drop (i * v.bytes_per_cluster) bytes),
      )

  pub rounds_lem :
      (bytes : Bytes) (n i c : ℕ) (ks : List ℕ) (d : D)
      → w.Ready d
      → Chain v (w.entry d) c (c ∷ ks)
      → Writes v w d (c ∷ ks) (suc n) (chunks v bytes (suc n) i) c tt (rounds v bytes n i c d)
  unfolding write_from
  rounds_lem bytes zero i c ks d r h = last_round bytes i c ks d (length-chunk bytes i) r h
  rounds_lem bytes (suc n) i c ks d r (e, ic, out, h) =
      let (d1, wrote, ch) = lawful.write_ok d c (chunk v bytes i) r ic (length-chunk bytes i) in
      let chain =
        Chain-same v (w.entry d) (w.entry d1) c (c ∷ ks) (λ k ik m. ch.entries k ik)
          (refl, ic, out, h) in
      step d1 wrote ch (following_lem v w lawful c ks d1 ch.ready chain)
        (λ e es d2 nx. rounds_lem bytes n (suc i) e es d2 nx.ready nx.chain)
    where
      close :
          (d1 d2 : D) (e : ℕ) (es : List ℕ)
          → v.write_cluster c (chunk v bytes i) d ≡ (ok tt, d1)
          → Changed v w d (w.entry d) (put v (w.content d) c (chunk v bytes i)) d1
          → Next v w d1 c ks e es d2
          → following v c d1 ≡ (ok e, d2)
          → Writes v w d2
              (e ∷ es)
              (suc n)
              (chunks v bytes (suc n) (suc i))
              e
              tt
              (rounds v bytes n (suc i) e d2)
          → Writes v w d
              (c ∷ ks)
              (suc (suc n))
              (chunks v bytes (suc (suc n)) i)
              c
              tt
              (rounds v bytes (suc n) i c d)
      close d1 d2 e es wrote ch nx next (written ws d3 hd q) =
          written (c ∷ ws) d3
            (one_more _ (suc n) c e ks es ws (chunk v bytes i) d d1 d2 d3 ic ch nx hd)
            (rw (wrote, next) q)
      close d1 d2 e es wrote ch nx next (no_space q) = no_space (rw (wrote, next) q)

      step :
          (d1 : D)
          → v.write_cluster c (chunk v bytes i) d ≡ (ok tt, d1)
          → Changed v w d (w.entry d) (put v (w.content d) c (chunk v bytes i)) d1
          → Follows v w d1 c ks (following v c d1)
          → ((e : ℕ) (es : List ℕ) (d2 : D)
              → Next v w d1 c ks e es d2
              → Writes v w d2
                  (e ∷ es)
                  (suc n)
                  (chunks v bytes (suc n) (suc i))
                  e
                  tt
                  (rounds v bytes n (suc i) e d2))
          → Writes v w d
              (c ∷ ks)
              (suc (suc n))
              (chunks v bytes (suc (suc n)) i)
              c
              tt
              (rounds v bytes (suc n) i c d)
      step d1 wrote ch (no_room q) more = no_space (rw (wrote, q) refl)
      step d1 wrote ch (goes_on e es d2 nx q) more =
          close d1 d2 e es wrote ch nx q (more e es d2 nx)
