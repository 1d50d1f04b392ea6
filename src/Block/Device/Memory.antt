-- ===== src/Block/Device/Memory.antt =====
-- A block device in memory: the sectors that it has are the entries of a list.
use vyper.Prelude.{
  ℕ, ◌≡◌, ◌≢◌, inl, inr, sym, some, if◌then◌else◌, ltb, Bytes, ok, err, List, [], length, get_or,
  set, arith, get_or-set_self, get_or-set_ne, length-set, Bool-cases,
}
use vyper.Block.Device.{BlockDevice, device_error}
use vyper.Block.Device.Laws.{Lawful}

abbrev pub memory : BlockDevice (List Bytes)
memory = record {
  read_sector = λ d lba. if ltb lba (length d) then ok (get_or d lba []) else err (device_error 1);
  write_sector =
      λ d lba buf. if ltb lba (length d) then (ok tt, set d lba buf) else (err (device_error 1), d);
  sector_count = λ d. some (length d);
}

pub memory-Lawful : Lawful memory
memory-Lawful = record { read_written = written; others_kept = kept }
  where
    written :
        (d : List Bytes) (lba : ℕ) (buf : Bytes)
        → (memory.write_sector d lba buf).0 ≡ ok tt
        → memory.read_sector (memory.write_sector d lba buf).1 lba ≡ ok buf
    written d lba buf e = elim (Bool-cases (ltb lba (length d))) [
      | inl i ↦ ground (arith, get_or-set_self d lba buf [], length-set d lba buf)
      | inr o ↦ ground arith
    ]

    kept :
        (d : List Bytes) (lba k : ℕ) (buf : Bytes)
        → k ≢ lba
        → memory.read_sector (memory.write_sector d lba buf).1 k ≡ memory.read_sector d k
    kept d lba k buf h = elim (Bool-cases (ltb lba (length d))) [
      | inl i ↦ ground (arith, get_or-set_ne d lba k buf [] (λ e. h (sym e)), length-set d lba buf)
      | inr o ↦ ground arith
    ]
