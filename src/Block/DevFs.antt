-- ===== src/Block/DevFs.antt =====
-- vcore/src/vfs/block/mod.rs: the device files. A file reads and writes one sector at a time.
pub mod Laws
mod Examples
use vyper.Prelude.{
  ℕ, ◌+◌, ◌-◌, ◌*◌, ◌/◌, ◌%◌, ◌^◌, min, Bool, true, false, not, ◌||◌, Option, none, some, List, [],
  ◌∷◌, ◌++◌, if◌then◌else◌, ltb, ◌==◌, Bytes, bytes_eq, Result, ok, err, panic, stuck, ◌>>=◌,
  map_err, ok_or, length, take, drop, replicate,
}
use vyper.Vfs.Types.{
  FileType, device, directory, Metadata, DirEntry, VfsError, VfsResult, not_found, is_a_directory,
  not_a_directory, io_error, invalid_path, permission_denied, SeekFrom, seek_target, OpenFlags,
  start, current, from_end,
}
use vyper.Block.Device.{BlockDevice, Message, num_blocks, sector_size}

-- The map of devices: its entries in the order of their names, and each name once.
abbrev pub Devices : Type 0 → Type 0
Devices D = List (Bytes × D)

abbrev pub bytes_lt : Bytes → Bytes → Bool
bytes_lt xs [] = false
bytes_lt [] (y ∷ ys) = true
bytes_lt (x ∷ xs) (y ∷ ys) = if x == y then bytes_lt xs ys else ltb x y

pub record BlockDeviceHandle : Type 0 where
  pub device_name : Bytes
  pub position : ℕ

abbrev pub trim_start : Bytes → Bytes
trim_start [] = []
trim_start (c ∷ cs) = let rest = trim_start cs in if c == 47 then rest else c ∷ cs

module _ {D : Type 0} where
  unfoldable pub get : Bytes → Devices D → Option D
  get name [] = none
  get name ((n, d) ∷ ds) = let rest = get name ds in if bytes_eq n name then some d else rest

  unfoldable pub register_device : Devices D → Bytes → D → Devices D
  register_device [] name d = (name, d) ∷ []
  register_device ((n, e) ∷ ds) name d =
      let rest = register_device ds name d in
      if bytes_eq n name
      then (name, d) ∷ ds
      else if bytes_lt name n
      then (name, d) ∷ ((n, e) ∷ ds)
      else (n, e) ∷ rest

  -- `unregister_device`: the map it leaves; a name is in it once.
  unfoldable pub unregister_device : Devices D → Bytes → Devices D
  unregister_device [] name = []
  unregister_device ((n, e) ∷ ds) name =
      let rest = unregister_device ds name in if bytes_eq n name then rest else (n, e) ∷ rest

  -- A device in the map after a write to it.
  unfoldable pub put : Devices D → Bytes → D → Devices D
  put [] name d = []
  put ((n, e) ∷ ds) name d =
      let rest = put ds name d in if bytes_eq n name then (n, d) ∷ ds else (n, e) ∷ rest

  -- The keys, as `readdir` lists them.
  abbrev pub entries : Devices D → List DirEntry
  entries [] = []
  entries ((n, d) ∷ ds) = record { name = n; file_type = device } ∷ entries ds

abbrev pub io : {A : Type 0} → Result Message A → VfsResult A
io r = map_err (λ e. io_error) r

-- A sector with bytes written over it at an offset.
abbrev pub patched : Bytes → ℕ → Bytes → Bytes
patched sector offset bytes = take offset sector ++ (bytes ++ drop (offset + length bytes) sector)

module _ {D : Type 0} (dev : BlockDevice D) where
  -- What `read` copies of a device at a position, and the position that it leaves.
  unfoldable pub read_at : D → ℕ → ℕ → VfsResult (Bytes × ℕ)
  read_at d position len =
      let offset = position % sector_size in
      io (dev.read_sector d ((position / sector_size) % 2 ^ 32)) >>= λ sector.
      let to_read = min len (sector_size - offset) in
      ok (take to_read (drop offset sector), position + to_read)

  -- `read` into a buffer of `len` bytes: the bytes that it copies.
  unfoldable pub read : Devices D → BlockDeviceHandle → ℕ → VfsResult Bytes × BlockDeviceHandle
  read devices h len =
      elim (ok_or not_found (get h.device_name devices) >>= λ d. read_at d h.position len) [
        | ok (bytes, p) ↦ (ok bytes, record h { position = p })
        | err e ↦ (err e, h)
        | panic ↦ (panic, h)
        | stuck ↦ (stuck, h)
      ]

  -- The sector that `write` starts from: where it does not fill all of it, the one on the device.
  abbrev pub old_sector : D → ℕ → ℕ → Bytes → VfsResult Bytes
  old_sector d block_num offset buf =
      if not (offset == 0) || ltb (length buf) sector_size
      then io (dev.read_sector d block_num)
      else ok (replicate sector_size 0)

  -- `write` to a device at a position: the number of bytes written, and the device left.
  unfoldable pub write_at : D → ℕ → Bytes → VfsResult ℕ × D
  write_at d position buf =
      let block_num = (position / sector_size) % 2 ^ 32 in
      let offset = position % sector_size in
      elim (old_sector d block_num offset buf) [
        | ok sector ↦
            (let to_write = min (length buf) (sector_size - offset) in
              let (r, d') =
                dev.write_sector d block_num (patched sector offset (take to_write buf)) in
              (io r >>= λ u. ok to_write, d'))
        | err e ↦ (err e, d)
        | panic ↦ (panic, d)
        | stuck ↦ (stuck, d)
      ]

  unfoldable pub write :
      Devices D → BlockDeviceHandle → Bytes → VfsResult ℕ × BlockDeviceHandle × Devices D
  write devices h buf = elim (get h.device_name devices) [
    | none ↦ (err not_found, h, devices)
    | some d ↦
        (let (r, d') = write_at d h.position buf in
          (
            r,
            elim r [ ok n ↦ record h { position = h.position + n } | _ ↦ h ],
            put devices h.device_name d',
          ))
  ]

  abbrev pub device_size : D → ℕ
  device_size d = num_blocks dev d * sector_size

  abbrev pub seek_to : BlockDeviceHandle → Option ℕ → VfsResult ℕ × BlockDeviceHandle
  seek_to h none = (err invalid_path, h)
  seek_to h (some p) = (ok p, record h { position = p })

  unfoldable pub seek : Devices D → BlockDeviceHandle → SeekFrom → VfsResult ℕ × BlockDeviceHandle
  seek devices h (start n) = seek_to h (seek_target 0 h.position (start n))
  seek devices h (current n) = seek_to h (seek_target 0 h.position (current n))
  seek devices h (from_end n) = elim (get h.device_name devices) [
    | none ↦ (err not_found, h)
    | some d ↦ seek_to h (seek_target (device_size d) h.position (from_end n))
  ]

  unfoldable pub device_metadata : Devices D → Bytes → VfsResult Metadata
  device_metadata devices name = do
    d ← ok_or not_found (get name devices)
    ok (record { file_type = device; size = device_size d })

  unfoldable pub open_device : Devices D → Bytes → OpenFlags → VfsResult BlockDeviceHandle
  open_device devices path flags =
      let name = trim_start path in
      if bytes_eq name []
      then err is_a_directory
      else (ok_or not_found (get name devices) >>= λ d.
          ok (record { device_name = name; position = 0 }))

  unfoldable pub readdir : Devices D → Bytes → VfsResult (List DirEntry)
  readdir devices path =
      if not (bytes_eq (trim_start path) []) then err not_a_directory else ok (entries devices)

  unfoldable pub metadata : Devices D → Bytes → VfsResult Metadata
  metadata devices path =
      let name = trim_start path in
      if bytes_eq name []
      then ok (record { file_type = directory; size = 0 })
      else device_metadata devices name

-- `mkdir`, `remove` and `rmdir`
unfoldable pub refused : {D : Type 0} → Devices D → Bytes → VfsResult (Unit {0})
refused devices path = err permission_denied
