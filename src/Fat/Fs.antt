-- ===== src/Fat/Fs.antt =====
-- The directories and the file system of fat32.rs on a volume. The texts are lists of characters.
-- `upper` and `lower` are the case mappings of Unicode, and a loop over a chain makes at most `fuel`
-- rounds.
pub mod Remove
pub mod Examples
use vyper.Prelude.{
  ℕ, ◌+◌, ◌/◌, Bool, not, ◌&&◌, Option, none, some, List, [], ◌∷◌, ◌++◌, map, if◌then◌else◌, ◌==◌,
  ltb, leb, Bytes, bytes_eq, Result, ok, err, panic, stuck, length,
}
use vyper.Block.Device.{
  Message, path_not_found, not_a_directory as not_dir, invalid_path as bad_path,
  parent_is_not_a_directory,
}
use vyper.Vfs.FilePath.{slash, split}
use vyper.Vfs.Cursor.{resize}
use vyper.Fat.Volume.{Io, ◌>>=◌, ◌>>◌, pure, fail, reading, Volume}
use vyper.Fat.Chain.{read_chain, write_chain, get_last_cluster}
use vyper.Fat.Entry.{ShortDirEntry}
use vyper.Fat.Entry
use vyper.Fat.Long
use vyper.Fat.Name.{make_short_name, needs_lfn, rsplit}
use vyper.Fat.Dir.{
  FatDirEntry, read_entries, find_entry, find_slots, put_slots, delete_slots, updated,
}

-- `FatDirEntry::cluster` and `FatDirEntry::is_directory`
abbrev pub cluster_of : FatDirEntry → ℕ
cluster_of e = Entry.cluster e.short_entry

abbrev pub is_dir : FatDirEntry → Bool
is_dir e = Entry.is_directory e.short_entry

-- `path.split('/').filter(|s| !s.is_empty())`
unfoldable pub not_empty_parts : List (List ℕ) → List (List ℕ)
not_empty_parts [] = []
not_empty_parts (p ∷ ps) = if bytes_eq p [] then not_empty_parts ps else p ∷ not_empty_parts ps

-- `trim_matches('/')`
unfoldable pub trim_start : List ℕ → List ℕ
trim_start [] = []
trim_start (c ∷ cs) = if c == slash then trim_start cs else c ∷ cs

unfoldable pub trim_end : List ℕ → List ℕ
trim_end [] = []
trim_end (c ∷ cs) =
    let rest = trim_end cs in if (c == slash) && bytes_eq rest [] then [] else c ∷ rest

unfoldable pub trim : List ℕ → List ℕ
trim path = trim_end (trim_start path)

module _ {D : Type 0} (v : Volume D) (upper lower : List ℕ → List ℕ) (root fuel : ℕ) where
  unfoldable pub read_directory : ℕ → D → Result Message (List FatDirEntry)
  read_directory dir_cluster d = elim (read_chain v fuel dir_cluster d) [
    | ok bytes ↦ ok (read_entries bytes)
    | err e ↦ err e
    | panic ↦ panic
    | stuck ↦ stuck
  ]

  unfoldable pub find_in_directory : ℕ → List ℕ → D → Result Message (Option FatDirEntry)
  find_in_directory dir_cluster name d = elim (read_directory dir_cluster d) [
    | ok entries ↦ ok (find_entry lower (lower name) entries)
    | err e ↦ err e
    | panic ↦ panic
    | stuck ↦ stuck
  ]

  -- The data of the directory, grown by a cluster where it has no room, and the offset.
  unfoldable pub find_free_dir_slots : ℕ → ℕ → Io D (Bytes × ℕ)
  find_free_dir_slots dir_cluster slots_needed = do
    bytes ← reading (read_chain v fuel dir_cluster)
    let (found, free, start) = find_slots (length bytes / 32) 0 slots_needed 0 0 bytes
    elim found [
      | some offset ↦ pure (bytes, offset)
      | none ↦ (do
        last ← reading (get_last_cluster v fuel dir_cluster)
        pure (
          resize bytes (length bytes + v.bytes_per_cluster),
          if ltb 0 free then start else length bytes,
        ))
    ]

  unfoldable pub long_entries : List ℕ → List Long.LfnEntry
  long_entries name =
      if needs_lfn name then Long.create_lfn_entries name (make_short_name upper name) else []

  unfoldable pub add_dir_entry : ℕ → List ℕ → ℕ → ℕ → ℕ → Io D (Unit {0})
  add_dir_entry dir_cluster name attr cluster size = do
    (bytes, offset) ← find_free_dir_slots dir_cluster (length (long_entries name) + 1)
    let short_entry = Entry.new (make_short_name upper name) attr cluster size
    bytes' ← reading (λ _.
        put_slots bytes offset
          (map Long.serialize (long_entries name) ++ (Entry.serialize short_entry ∷ [])))
    write_chain v dir_cluster bytes'
    pure tt

  unfoldable pub update_dir_entry : ℕ → FatDirEntry → Io D (Unit {0})
  update_dir_entry dir_cluster entry = do
    bytes ← reading (read_chain v fuel dir_cluster)
    bytes' ← reading (λ _. updated bytes entry)
    write_chain v dir_cluster bytes'
    pure tt

  unfoldable pub remove_dir_entry : ℕ → FatDirEntry → Io D (Unit {0})
  remove_dir_entry dir_cluster entry = do
    bytes ← reading (read_chain v fuel dir_cluster)
    write_chain v dir_cluster (delete_slots entry.entry_count entry.entry_offset bytes)
    pure tt

  -- The loop of `resolve_path`.
  unfoldable pub resolve_from : ℕ → List (List ℕ) → D → Result Message (ℕ × Option FatDirEntry)
  resolve_from current_cluster [] d = ok (current_cluster, none)
  resolve_from current_cluster (part ∷ parts) d = elim (find_in_directory current_cluster part d) [
    | ok none ↦ err path_not_found
    | ok (some entry) ↦
        let rest = resolve_from (cluster_of entry) parts d in
        if leb (length parts) 0
        then ok (current_cluster, some entry)
        else if not (is_dir entry)
        then err not_dir
        else rest
    | err e ↦ err e
    | panic ↦ panic
    | stuck ↦ stuck
  ]

  unfoldable pub resolve_path : List ℕ → D → Result Message (ℕ × Option FatDirEntry)
  resolve_path path = resolve_from root (not_empty_parts (split path))

  unfoldable pub parent_cluster : Option FatDirEntry → Result Message ℕ
  parent_cluster none = ok root
  parent_cluster (some e) = if is_dir e then ok (cluster_of e) else err parent_is_not_a_directory

  unfoldable pub split_path : List ℕ → Io D (ℕ × List ℕ)
  split_path path =
      let trimmed = trim path in
      if bytes_eq trimmed [] then fail bad_path else elim (rsplit slash trimmed) [
        | none ↦ pure (root, trimmed)
        | some (parent_path, name) ↦ (do
          (_, parent_entry) ← reading (resolve_path parent_path)
          cluster ← reading (λ _. parent_cluster parent_entry)
          pure (cluster, name))
      ]
