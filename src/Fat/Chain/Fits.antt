-- ===== src/Fat/Chain/Fits.antt =====
-- Writing data that the chain has room for needs no free cluster.
use vyper.Prelude.{
  ℕ, zero, suc, ◌+◌, ◌-◌, ◌*◌, ◌/◌, ◌≡◌, ◌≤◌, Result, refl, ap, sym, ◌∙◌, false, leb, ltb, Bytes,
  ok, err, ◌++◌, List, [], ◌∷◌, arith, length, length-append, replicate,
}
use mathlib.Core.List.{append-nil}
use mathlib.Core.Path.{subst}
use native.Mathlib.Nat.{suc-mul}
use vyper.Block.Device.{Message, no_free_clusters}
use vyper.Fat.Volume.{and_then, pure, eoc, Volume, View, Lawful}
use vyper.Fat.Chain.{
  following, write_from, finish, chunk, write_chain, write_clusters, clusters_needed, read_chain,
}
use vyper.Fat.Chain.Follow.{Chain, Chain-same, contents}
use vyper.Fat.Chain.Write.{rounds, length-chunk}
use vyper.Fat.Chain.Pieces.{padded, needed_pos}
use vyper.Fat.Chain.Save.{Saves, Saved, saved, refused, write_chain_lem, opened, regroup}

module _ {D : Type 0} (v : Volume D) (w : View v) (lawful : Lawful v w) where
  rounds-ok :
      (bytes : Bytes) (n i c : ℕ) (ks : List ℕ) (d : D)
      → w.Ready d
      → Chain v (w.entry d) c (c ∷ ks)
      → n ≤ length ks
      → (d' : D) × (rounds v bytes n i c d ≡ (ok tt, d'))
  unfolding write_from finish following
  rounds-ok bytes zero i c ks d r (_, ic, out, h) room =
      let (d1, wrote, ch1) =
        lawful.write_ok d c (chunk v bytes i) r ic (length-chunk v w lawful bytes i) in
      let (d2, set, ch2) = lawful.set_ok d1 c eoc ch1.ready ic in
      (d2, rw (wrote, set, lawful.get_ok d2 c ch2.ready ic) refl)
  rounds-ok bytes (suc n) i c [] d r h room = absurd (omega arith)
  rounds-ok bytes (suc n) i c (k ∷ ks) d r (_, ic, out, h) room =
      let (d1, wrote, ch) =
        lawful.write_ok d c (chunk v bytes i) r ic (length-chunk v w lawful bytes i) in
      let (e, ik, out', h') = h in
      let few = lawful.few in
      let next : w.entry d1 c ≡ k = ch.entries c ic ∙ e in
      let more : leb eoc k ≡ false = ground (arith, ik.high) in
      let chain =
        Chain-same v (w.entry d) (w.entry d1) k (k ∷ ks) (λ j ij m. ch.entries j ij)
          (refl, ik, out', h') in
      let (d2, rest) = rounds-ok bytes n (suc i) k ks d1 ch.ready chain (omega arith) in
      (d2, rw (wrote, lawful.get_ok d1 c ch.ready ic, next, more) rest)

  write_chain-ok :
      (start : ℕ) (ks : List ℕ) (bytes : Bytes) (d : D)
      → w.Ready d
      → Chain v (w.entry d) start (start ∷ ks)
      → 1 ≤ length bytes
      → clusters_needed v bytes ≤ suc (length ks)
      → (d' : D) × (write_chain v start bytes d ≡ (ok start, d'))
  unfolding write_clusters
  write_chain-ok start ks bytes d r h some_data room =
      let low = h.1.low in
      let old : ltb start 2 ≡ false = ground arith in
      let pos = needed_pos v bytes lawful.some_bytes some_data in
      let n = clusters_needed v bytes - 1 in
      let (d', run) = rounds-ok bytes n 0 start ks d r h (omega arith) in
      (
        d',
        rw (opened v w lawful start bytes d some_data, old)
            (regroup v w lawful (write_from v bytes n 0 start d) (finish v) (λ _. pure start)
              ∙ ap (λ t. and_then t (λ _. pure start)) run),
      )

  -- In a working volume, where data of at least a byte needs no more clusters than the chain has:
  -- `write_chain` succeeds.
  pub write_chain-fits :
      (start : ℕ) (ks : List ℕ) (bytes : Bytes) (d : D)
      → w.Ready d
      → Chain v (w.entry d) start (start ∷ ks)
      → 1 ≤ length bytes
      → clusters_needed v bytes ≤ suc (length ks)
      → (ws : List ℕ) × (d' : D) × (write_chain v start bytes d ≡ (ok start, d'))
        × Saved v w d (start ∷ ks) bytes start ws d'
  write_chain-fits start ks bytes d r h some_data room =
      let (d', run) = write_chain-ok start ks bytes d r h some_data room in
      go d' run (write_chain_lem v w lawful start ks bytes d r h some_data)
    where
      go :
          (d' : D)
          → write_chain v start bytes d ≡ (ok start, d')
          → Saves v (λ c. c ≡ start) w d (start ∷ ks) bytes (write_chain v start bytes d)
          → (ws : List ℕ) × (d' : D) × (write_chain v start bytes d ≡ (ok start, d'))
            × Saved v w d (start ∷ ks) bytes start ws d'
      go d' run (refused e) = absurd (clash (sym (ap (λ p. p.0) run) ∙ e))
        where
          clash : ¬ (◌≡◌ {A = Result Message ℕ} (ok start) (err no_free_clusters))
          clash q = cc
      go d' run (saved first ws d2 same s q) = (
        ws,
        d2,
        q ∙ ap (λ c. (ok c, d2)) same,
        subst (λ c. Saved v w d (start ∷ ks) bytes c ws d2) same s,
      )

  length-contents :
      (d : D) (entry : ℕ → ℕ) (c : ℕ) (ks : List ℕ)
      → w.Ready d
      → Chain v entry c ks
      → length (contents v (w.content d) ks) ≡ length ks * v.bytes_per_cluster
  length-contents d entry c [] r h = omega arith
  length-contents d entry c (k ∷ ks) r (e, i, out, h) = omega (
    arith,
    length-append (w.content d k) (contents v (w.content d) ks),
    lawful.content_length d k r i,
    length-contents d entry (entry k) ks r h,
    suc-mul (length ks) v.bytes_per_cluster,
  )

  whole : (n m : ℕ) → 1 ≤ m → (n * m + m - 1) / m ≡ n
  whole n m h = grind arith

  needed_exact :
      (bytes : Bytes) (n : ℕ) → length bytes ≡ n * v.bytes_per_cluster → clusters_needed v bytes ≡ n
  unfolding clusters_needed
  needed_exact bytes n size =
      ap (λ k. (k + v.bytes_per_cluster - 1) / v.bytes_per_cluster) size
      ∙ whole n v.bytes_per_cluster lawful.some_bytes

  abbrev zeros : ℕ → Bytes
  zeros n = replicate n 0

  -- Data of the length of the chain is written to the chain, and read back as it is.
  pub rewrite_lem :
      (start : ℕ) (ks : List ℕ) (bytes : Bytes) (d : D)
      → w.Ready d
      → Chain v (w.entry d) start (start ∷ ks)
      → length bytes ≡ length (contents v (w.content d) (start ∷ ks))
      → (ws : List ℕ) × (d' : D) × (write_chain v start bytes d ≡ (ok start, d'))
        × Saved v w d (start ∷ ks) bytes start ws d'
        × ((fuel : ℕ) → suc (length ks) ≤ fuel → read_chain v fuel start d' ≡ ok bytes)
  rewrite_lem start ks bytes d r h same =
      let m = v.bytes_per_cluster in
      let n = suc (length ks) in
      let size : length bytes ≡ n * m =
        same ∙ length-contents d (w.entry d) start (start ∷ ks) r h in
      let count = needed_exact bytes n size in
      let some_data : 1 ≤ length bytes =
        omega (arith, size, lawful.some_bytes, suc-mul (length ks) m) in
      let (ws, d', run, s) =
        write_chain-fits start ks bytes d r h some_data (omega (arith, count)) in
      let none_left : n * m - length bytes ≡ 0 = omega (arith, size) in
      (
        ws,
        d',
        run,
        s,
        λ fuel enough.
            s.reads fuel (omega (arith, count))
            ∙ ap ok (
                ap (padded v bytes) count
                ∙ (ap (λ k. bytes ++ zeros k) none_left ∙ append-nil bytes)),
      )
