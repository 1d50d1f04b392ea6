-- ===== src/Fat/Calls.antt =====
-- The calls of `Fat32Fs`, on a volume.
pub mod Open
mod Examples
use vyper.Prelude.{
  ℕ, ◌-◌, ◌%◌, ◌^◌, Bool, true, false, not, Option, none, some, List, [], ◌∷◌, ◌++◌, map,
  if◌then◌else◌, ltb, leb, Option, Bytes, bytes_eq, Result, ok, err, panic, stuck, length, take,
  replicate,
}
use vyper.Block.Device.{BlockDevice, Message, invalid_boot_sector, not_fat32}
use vyper.Vfs.Types.{
  VfsError, VfsResult, not_found, already_exists, not_a_directory, is_a_directory, not_empty,
  invalid_path, io_error, FileType, file, directory, Metadata, DirEntry, OpenFlags, contains,
  o_creat, o_append, o_trunc,
}
use vyper.Fat.Bpb
use vyper.Fat.Volume.{Call, ◌>>=◌, ◌>>◌, pure, fail, reading, with_error, Volume}
use vyper.Fat.Chain.{read_chain, write_chain, free_chain, allocate_cluster}
use vyper.Fat.Entry
use vyper.Fat.Dir.{FatDirEntry}
use vyper.Fat.Handle.{FatFileHandle}
use vyper.Fat.Fs.{
  cluster_of, is_dir, trim, read_directory, find_in_directory, add_dir_entry, update_dir_entry,
  remove_dir_entry, resolve_path, split_path,
}

-- `Fat32Fs::new`
unfoldable pub new : {D : Type 0} → BlockDevice D → D → Result Message Bpb.Bpb
new dev d = elim (dev.read_sector d 0) [
  | ok sector ↦ elim (Bpb.parse sector) [
    | none ↦ err invalid_boot_sector
    | some bpb ↦ if leb bpb.sectors_per_fat 0 then err not_fat32 else ok bpb
  ]
  | err e ↦ err e
  | panic ↦ panic
  | stuck ↦ stuck
]

-- `ok_or` of a call.
abbrev pub or_fail : {A D : Type 0} → VfsError → Option A → Call VfsError D A
or_fail e none = fail e
or_fail e (some a) = pure a

-- `.` or `..`, of a new directory
abbrev pub dot_entry : Bytes → ℕ → Entry.ShortDirEntry
dot_entry name cluster = Entry.new name 0x10 cluster 0

abbrev pub dot_name : Bytes
dot_name = b'.' ∷ replicate 10 0x20

abbrev pub dot_dot_name : Bytes
dot_dot_name = b'.' ∷ b'.' ∷ replicate 9 0x20

abbrev pub no_entries : List FatDirEntry → Bool
no_entries [] = true
no_entries (e ∷ es) = false

abbrev pub file_type_of : FatDirEntry → FileType
file_type_of e = if is_dir e then directory else file

abbrev pub dir_entry : FatDirEntry → DirEntry
dir_entry e = record { name = e.name; file_type = file_type_of e }

module _ {D : Type 0} (v : Volume D) (upper lower : List ℕ → List ℕ) (root fuel : ℕ) where
  -- `split_path(path).map_err(InvalidPath)` and `find_in_directory(..).map_err(IoError)`
  unfoldable pub locate : List ℕ → Call VfsError D (ℕ × List ℕ × Option FatDirEntry)
  locate path = do
    (parent, name) ← with_error invalid_path (split_path v upper lower root fuel path)
    found ← with_error io_error (reading (find_in_directory v upper lower root fuel parent name))
    pure (parent, name, found)

  -- The cluster that the data of a file is written from.
  unfoldable pub save_data : ℕ → Bytes → Call VfsError D ℕ
  save_data old_cluster bytes =
      if bytes_eq bytes []
      then (if leb 2 old_cluster
          then with_error io_error (free_chain v fuel old_cluster)
          else pure tt)
        >> pure 0
      else with_error io_error (write_chain v old_cluster bytes)

  unfoldable pub sync_file : List ℕ → ℕ → Bytes → Call VfsError D (Unit {0})
  sync_file path old_cluster bytes = do
    (parent, name, found) ← locate path
    entry ← or_fail not_found found
    new_cluster ← save_data old_cluster bytes
    let short = record (Entry.set_cluster entry.short_entry new_cluster) {
      size = length bytes % 2 ^ 32;
    }
    with_error io_error
        (update_dir_entry v upper lower root fuel parent (record entry { short_entry = short }))

  -- `Drop`: an error is ignored.
  unfoldable pub close : FatFileHandle → D → D
  close h d = if h.dirty then (sync_file h.path h.cluster h.bytes d).1 else d

  unfoldable pub open_data : FatDirEntry → D → VfsResult Bytes
  open_data entry d =
      if ltb (cluster_of entry) 2 then ok [] else elim (read_chain v fuel (cluster_of entry) d) [
        | ok bytes ↦ ok (take entry.short_entry.size bytes)
        | err e ↦ err io_error
        | panic ↦ panic
        | stuck ↦ stuck
      ]

  unfoldable pub open_file : List ℕ → OpenFlags → Call VfsError D FatFileHandle
  open_file path flags = do
    (_, entry_opt) ← with_error not_found (reading (resolve_path v upper lower root fuel path))
    elim entry_opt [
      | some entry ↦ if is_dir entry then fail is_a_directory else do
        bytes ← reading (open_data entry)
        pure (record {
          path = path;
          cluster = cluster_of entry;
          size = entry.short_entry.size;
          position = if contains flags o_append then length bytes else 0;
          bytes = if contains flags o_trunc then [] else bytes;
          dirty = contains flags o_trunc;
          flags = flags;
        })
      | none ↦ if not (contains flags o_creat) then fail not_found else do
        (parent, name) ← with_error invalid_path (split_path v upper lower root fuel path)
        with_error io_error (add_dir_entry v upper lower root fuel parent name 0x20 0 0)
        pure (record {
          path = path;
          cluster = 0;
          size = 0;
          position = 0;
          bytes = [];
          dirty = false;
          flags = flags;
        })
    ]

  -- The first cluster of a new directory. `dir_data[32..64]` panics in a cluster of fewer bytes.
  unfoldable pub dir_data : ℕ → ℕ → Result Message Bytes
  dir_data dir_cluster parent =
      if ltb v.bytes_per_cluster 64
      then panic
      else ok (
          Entry.serialize (dot_entry dot_name dir_cluster)
          ++ (Entry.serialize (dot_entry dot_dot_name parent)
              ++ replicate (v.bytes_per_cluster - 64) 0))

  unfoldable pub mkdir : List ℕ → Call VfsError D (Unit {0})
  mkdir path = do
    (parent, name, found) ← locate path
    elim found [
      | some entry ↦ fail already_exists
      | none ↦ (do
        dir_cluster ← with_error io_error (allocate_cluster v)
        bytes ← with_error io_error (reading (λ _. dir_data dir_cluster parent))
        with_error io_error (v.write_cluster dir_cluster bytes)
        with_error io_error (add_dir_entry v upper lower root fuel parent name 0x10 dir_cluster 0))
    ]

  unfoldable pub remove : List ℕ → Call VfsError D (Unit {0})
  remove path = do
    (parent, name, found) ← locate path
    entry ← or_fail not_found found
    if is_dir entry then fail is_a_directory else do
      if leb 2 (cluster_of entry)
          then with_error io_error (free_chain v fuel (cluster_of entry))
          else pure tt
      with_error io_error (remove_dir_entry v upper lower root fuel parent entry)

  unfoldable pub rmdir : List ℕ → Call VfsError D (Unit {0})
  rmdir path = do
    (parent, name, found) ← locate path
    entry ← or_fail not_found found
    if not (is_dir entry) then fail not_a_directory else do
      entries ←
          with_error io_error (reading (read_directory v upper lower root fuel (cluster_of entry)))
      if not (no_entries entries) then fail not_empty else do
        with_error io_error (free_chain v fuel (cluster_of entry))
        with_error io_error (remove_dir_entry v upper lower root fuel parent entry)

  -- The entry that a path leads to, for `readdir` and `metadata`.
  unfoldable pub entry_at : List ℕ → Call VfsError D FatDirEntry
  entry_at path = do
    (_, found) ← with_error not_found (reading (resolve_path v upper lower root fuel path))
    or_fail not_found found

  unfoldable pub readdir : List ℕ → Call VfsError D (List DirEntry)
  readdir path = do
    cluster ← if bytes_eq (trim path) [] then pure root else (do
      entry ← entry_at path
      if not (is_dir entry) then fail not_a_directory else pure (cluster_of entry))
    entries ← with_error io_error (reading (read_directory v upper lower root fuel cluster))
    pure (map dir_entry entries)

  unfoldable pub metadata : List ℕ → Call VfsError D Metadata
  metadata path =
      if bytes_eq (trim path) [] then pure (record { file_type = directory; size = 0 }) else do
        entry ← entry_at path
        pure (record { file_type = file_type_of entry; size = entry.short_entry.size })
