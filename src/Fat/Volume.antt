-- ===== src/Fat/Volume.antt =====
-- What the chains of fat32.rs stand on: the entries of the allocation table and the clusters of
-- data, as operations on a state, with the laws that a working volume keeps.
use vyper.Prelude.{
  map_err, ℕ, ◌+◌, ◌%◌, ◌^◌, ◌≡◌, ◌≤◌, ◌<◌, if◌then◌else◌, ◌==◌, Bytes, Result, ok, err, panic,
  stuck, length, replicate,
}
use vyper.Block.Device.{Message}

-- A routine that reads and changes the device, and fails with an `E`.
abbrev pub Call : Type 0 → Type 0 → Type 0 → Type 0
Call E D A = D → Result E A × D

abbrev pub Io : Type 0 → Type 0 → Type 0
Io = Call Message

module _ {E D A B : Type 0} where
  abbrev pub and_then : Result E A × D → (A → Call E D B) → Result E B × D
  and_then (ok a, d) next = next a d
  and_then (err e, d) next = (err e, d)
  and_then (panic, d) next = (panic, d)
  and_then (stuck, d) next = (stuck, d)

  infixl 5 ◌>>=◌ ◌>>◌
  abbrev pub ◌>>=◌ : Call E D A → (A → Call E D B) → Call E D B
  call >>= next = λ d. and_then (call d) next

  abbrev pub ◌>>◌ : Call E D A → Call E D B → Call E D B
  call >> next = call >>= λ _. next

module _ {E D A : Type 0} where
  abbrev pub pure : A → Call E D A
  pure a d = (ok a, d)

  abbrev pub fail : E → Call E D A
  fail e d = (err e, d)

  -- A call that only reads.
  abbrev pub reading : (D → Result E A) → Call E D A
  reading call d = (call d, d)

-- `map_err(|_| e)`
abbrev pub with_error : {E F D A : Type 0} → F → Call E D A → Call F D A
with_error e call d = let (r, d') = call d in (map_err (λ _. e) r, d')

abbrev pub eoc : ℕ
eoc = 0x0FFFFFF8

abbrev pub fat_free : ℕ
fat_free = 0

pub record Volume (D : Type 0) : Type 0 where
  pub get_fat_entry : ℕ → D → Result Message ℕ
  pub set_fat_entry : ℕ → ℕ → Io D (Unit {0})
  pub zero_cluster : ℕ → Io D (Unit {0})
  pub read_cluster : ℕ → Bytes → D → Result Message Bytes
  pub write_cluster : ℕ → Bytes → Io D (Unit {0})
  pub total_clusters : ℕ
  pub bytes_per_cluster : ℕ

module _ {D : Type 0} (v : Volume D) where
  -- The clusters that the volume has.
  pub record InRange (c : ℕ) : Type 0 where
    pub low : 2 ≤ c
    pub high : c < v.total_clusters + 2

  -- What a working volume holds: an entry and the data of each cluster.
  pub record View : Type 1 where
    pub Ready : D → Type 0
    pub entry : D → ℕ → ℕ
    pub content : D → ℕ → Bytes

  -- A state after a change of one entry and of the data of one cluster.
  pub record Changed (w : View) (d : D) (entry' : ℕ → ℕ) (content' : ℕ → Bytes) (d' : D)
      : Type 0 where
    pub ready : w.Ready d'
    pub entries : (k : ℕ) → InRange k → w.entry d' k ≡ entry' k
    pub contents : (k : ℕ) → InRange k → w.content d' k ≡ content' k

  abbrev pub put {ℓ} : {A : Type ℓ} → (ℕ → A) → ℕ → A → ℕ → A
  put f c a k = if k == c then a else f k

  -- A working volume: every call on a cluster that it has succeeds, and changes what it should.
  pub record Lawful (w : View) : Type 0 where
    pub few : v.total_clusters + 2 ≤ eoc
    pub some_bytes : 1 ≤ v.bytes_per_cluster
    pub get_ok : (d : D) (c : ℕ) → w.Ready d → InRange c → v.get_fat_entry c d ≡ ok (w.entry d c)
    pub read_ok :
        (d : D) (c : ℕ) (buf : Bytes)
        → w.Ready d
        → InRange c
        → length buf ≡ v.bytes_per_cluster
        → v.read_cluster c buf d ≡ ok (w.content d c)
    pub content_length :
        (d : D) (c : ℕ) → w.Ready d → InRange c → length (w.content d c) ≡ v.bytes_per_cluster
    pub set_ok :
        (d : D) (c value : ℕ)
        → w.Ready d
        → InRange c
        → (d' : D) × (v.set_fat_entry c value d ≡ (ok tt, d'))
          × Changed w d (put (w.entry d) c (value % 2 ^ 28)) (w.content d) d'
    pub write_ok :
        (d : D) (c : ℕ) (buf : Bytes)
        → w.Ready d
        → InRange c
        → length buf ≡ v.bytes_per_cluster
        → (d' : D) × (v.write_cluster c buf d ≡ (ok tt, d'))
          × Changed w d (w.entry d) (put (w.content d) c buf) d'
    pub zero_ok :
        (d : D) (c : ℕ)
        → w.Ready d
        → InRange c
        → (d' : D) × (v.zero_cluster c d ≡ (ok tt, d'))
          × Changed w d (w.entry d) (put (w.content d) c (replicate v.bytes_per_cluster 0)) d'
