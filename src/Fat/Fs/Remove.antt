-- ===== src/Fat/Fs/Remove.antt =====
-- `remove_dir_entry` on a working volume.
use vyper.Prelude.{
  ℕ, zero, suc, ◌+◌, ◌*◌, ◌≡◌, ◌≤◌, refl, ap, sym, ◌∙◌, Bytes, ok, List, [], ◌∷◌, ◌++◌, length, set,
  length-set,
}
use vyper.Fat.Volume.{Volume, View, Lawful}
use vyper.Fat.Chain.{read_chain}
use vyper.Fat.Chain.Follow.{Chain, contents, read_chain_lem}
use vyper.Fat.Chain.Step.{KeepsOthers}
use vyper.Fat.Chain.Fits.{rewrite_lem}
use vyper.Fat.Dir.{FatDirEntry, read_entries, delete_slots}
use vyper.Fat.Dir.Slots.{AllSlots}
use vyper.Fat.Dir.Items.{Item, slots_of, entry_of_item, entries_of_all, IsItem, AllItems}
use vyper.Fat.Dir.Image.{IsEnd, image}
use vyper.Fat.Dir.Delete.{offset_behind, read_entries-delete_slots}
use vyper.Fat.Fs.{read_directory, remove_dir_entry}

length-delete_slots :
    (n offset : ℕ) (bytes : Bytes) → length (delete_slots n offset bytes) ≡ length bytes
unfolding delete_slots
length-delete_slots zero offset bytes = refl
length-delete_slots (suc n) offset bytes =
    length-delete_slots n (offset + 32) (set bytes offset 0xE5) ∙ length-set bytes offset 0xE5

module _ {D : Type 0} (v : Volume D) (w : View v) (lawful : Lawful v w)
    (upper lower : List ℕ → List ℕ) (root fuel : ℕ) where
  pub read_directory_ok :
      (dir : ℕ) (d : D) (bytes : Bytes)
      → read_chain v fuel dir d ≡ ok bytes
      → read_directory v upper lower root fuel dir d ≡ ok (read_entries bytes)
  unfolding read_directory
  read_directory_ok dir d bytes e = rw (e, read_directory) refl

  -- In a working volume, of a directory in a chain of clusters, with a round for each cluster, whose
  -- data is the image of valid items and an end: `remove_dir_entry` of the entry of an item
  -- succeeds; before, `read_directory` lists the entry between those of the other items, and
  -- afterwards it lists exactly the others; and a cluster in use outside of the directory keeps its
  -- entry and its data.
  pub remove_dir_entry_lem :
      (dir : ℕ) (ks : List ℕ) (d : D) (before after : List Item) (t : Item) (tail : List Bytes)
      (e : FatDirEntry)
      → w.Ready d
      → Chain v (w.entry d) dir (dir ∷ ks)
      → suc (length ks) ≤ fuel
      → contents v (w.content d) (dir ∷ ks) ≡ image (before ++ (t ∷ after)) tail
      → AllItems before × IsItem t × AllItems after × AllSlots tail × IsEnd tail
      → entry_of_item t (offset_behind before) ≡ e ∷ []
      → (d' : D) × (remove_dir_entry v upper lower root fuel dir e d ≡ (ok tt, d'))
        × (read_directory v upper lower root fuel dir d
            ≡ ok (
                entries_of_all before 0
                ++ (e ∷ entries_of_all after (offset_behind before + length (slots_of t) * 32))))
        × (read_directory v upper lower root fuel dir d'
            ≡ ok (
                entries_of_all before 0
                ++ entries_of_all after (offset_behind before + length (slots_of t) * 32)))
        × KeepsOthers v w d (dir ∷ ks) d'
  unfolding remove_dir_entry
  remove_dir_entry_lem dir ks d before after t tail e r h enough here (hb, ht, ha, size, last) q =
      let bytes = image (before ++ (t ∷ after)) tail in
      let read : read_chain v fuel dir d ≡ ok bytes =
        read_chain_lem v w lawful fuel dir (dir ∷ ks) d r h enough ∙ ap ok here in
      let (listed, left) = read_entries-delete_slots before after t tail hb ht ha size last e q in
      let marked = delete_slots e.entry_count e.entry_offset bytes in
      let same : length marked ≡ length (contents v (w.content d) (dir ∷ ks)) =
        length-delete_slots e.entry_count e.entry_offset bytes ∙ ap length (sym here) in
      let (ws, d', run, s, again) = rewrite_lem v w lawful dir ks marked d r h same in
      (
        d',
        rw (read, run) refl,
        read_directory_ok dir d bytes read ∙ ap ok listed,
        read_directory_ok dir d' marked (again fuel enough) ∙ ap ok left,
        s.others,
      )
