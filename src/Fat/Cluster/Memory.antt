-- ===== src/Fat/Cluster/Memory.antt =====
-- The device in memory is one on which no access fails.
use vyper.Prelude.{
  ℕ, zero, suc, ◌≡◌, ◌<◌, refl, true, ltb, Bytes, ok, List, [], ◌∷◌, ◌∙◌, length, get_or, set,
  arith, length-set,
}
use vyper.Block.Device.Memory.{memory, memory-Lawful}
use vyper.Fat.Cluster.Device.{Healthy}

-- The sectors have 512 bytes.
abbrev pub AllWhole : List Bytes → Type 0
AllWhole [] = Unit
AllWhole (sector ∷ sectors) = (length sector ≡ 512) × AllWhole sectors

abbrev pub WholeDisk : ℕ → List Bytes → Type 0
WholeDisk total d = (length d ≡ total) × AllWhole d

AllWhole-get : (d : List Bytes) (s : ℕ) → AllWhole d → s < length d → length (get_or d s []) ≡ 512
AllWhole-get [] s h k = elim k [ ]
AllWhole-get (b ∷ d) zero h k = h.0
AllWhole-get (b ∷ d) (suc s) h k = AllWhole-get d s h.1 (omega arith)

AllWhole-set :
    (d : List Bytes) (s : ℕ) (buf : Bytes) → AllWhole d → length buf ≡ 512 → AllWhole (set d s buf)
AllWhole-set [] s buf h whole = tt
AllWhole-set (b ∷ d) zero buf h whole = (whole, h.1)
AllWhole-set (b ∷ d) (suc s) buf h whole = (h.0, AllWhole-set d s buf h.1 whole)

module _ (total : ℕ) (d : List Bytes) (s : ℕ) (fits : WholeDisk total d) (h : s < total) where
  inside : ltb s (length d) ≡ true
  inside = ground arith

  pub reads_lem : memory.read_sector d s ≡ ok (get_or d s [])
  reads_lem = rw inside refl

  pub size_lem : length (get_or d s []) ≡ 512
  size_lem = AllWhole-get d s fits.1 (omega (arith, fits.0))

  pub writes_lem :
      (buf : Bytes)
      → length buf ≡ 512
      → ((memory.write_sector d s buf).0 ≡ ok tt) × WholeDisk total (memory.write_sector d s buf).1
  writes_lem buf whole =
      rw inside (refl, (length-set d s buf ∙ fits.0, AllWhole-set d s buf fits.1 whole))

abbrev pub memory-Healthy : (total : ℕ) → Healthy memory total
memory-Healthy total = record {
  Fits = WholeDisk total;
  lawful = memory-Lawful;
  reads = λ d s fits h. (get_or d s [], reads_lem total d s fits h, size_lem total d s fits h);
  writes = λ d s buf fits h whole. writes_lem total d s fits h buf whole;
}
