-- ===== src/Block/Table/Examples.antt =====
-- A boot record of two partitions, and GPT headers of a device.
use vyper.Prelude.{
  ℕ, ◌≡◌, ◌++◌, refl, Bytes, ok, err, List, [], ◌∷◌, replicate, to_le, arith, if◌then◌else◌, ◌==◌,
  none,
}
use vyper.Block.Device.{BlockDevice, device_error}
use vyper.Block.Table.{parse_mbr, parse_gpt, linux, fat32}
use vyper.Block.Table.Mbr.{RawEntry, layout_all, listed_all, parse_mbr_lem}
use vyper.Block.Table.Gpt.{IsSector, Returns, parse_gpt-Returns}

abbrev raw : ℕ → ℕ → ℕ → RawEntry
raw kind from many = record {
  status = 0;
  first_chs = (0, 1, 0);
  ptype = kind;
  last_chs = (9, 9, 9);
  start = from;
  count = many;
}

abbrev entries : List RawEntry
entries = raw 0x83 2048 70000 ∷ raw 0 0 0 ∷ raw 0x0C 72048 100 ∷ raw 0xEE 1 1 ∷ []

two_listed :
    listed_all 0 entries
    ≡ record { index = 0; start_lba = 2048; sector_count = 70000; partition_type = linux }
      ∷ record { index = 2; start_lba = 72048; sector_count = 100; partition_type = fat32 }
      ∷ []
two_listed = refl

parse_mbr_lem_example :
    parse_mbr (replicate 446 0 ++ (layout_all entries ++ (0x55 ∷ 0xAA ∷ [])))
    ≡ ok (listed_all 0 entries)
parse_mbr_lem_example = parse_mbr_lem (replicate 446 0) entries (0x55 ∷ 0xAA ∷ []) refl refl (
  omega arith,
  omega arith,
  (omega arith, omega arith, (omega arith, omega arith, (omega arith, omega arith, tt))),
)

-- The header of `n` entries of `size` bytes.
abbrev header : ℕ → ℕ → Bytes
header n size =
    69
    ∷ 70
    ∷ 73
    ∷ 32
    ∷ 80
    ∷ 65
    ∷ 82
    ∷ 84
    ∷ (replicate 64 0 ++ (to_le 8 2 ++ (to_le 4 n ++ (to_le 4 size ++ replicate 424 0))))

-- The state of the device is the size in its header.
abbrev gpt_disk : BlockDevice ℕ
gpt_disk = record {
  read_sector = λ size lba. ok (if lba == 1 then header 128 size else replicate 512 0);
  write_sector = λ size lba buf. (err (device_error 1), size);
  sector_count = λ size. none;
}

gpt_disk-IsSector : (size : ℕ) (lba : ℕ) → IsSector (gpt_disk.read_sector size lba)
gpt_disk-IsSector size lba = ground arith

parse_gpt-Returns_example : Returns (parse_gpt gpt_disk 128)
parse_gpt-Returns_example =
    parse_gpt-Returns gpt_disk gpt_disk-IsSector 128 (header 128 128) refl (omega arith)
      (omega arith)
