-- ===== src/Fat/Fs/Examples.antt =====
-- The directory of Fat.Dir.Examples in the clusters 2 and 3 of the disk of Fat.Chain.Examples.
use vyper.Prelude.{ℕ, ◌≡◌, refl, Bytes, ok, List, [], ◌∷◌, ◌++◌, take, drop, replicate, arith}
use vyper.Fat.Bpb.{fat_start_sector, data_start_sector, cluster_to_sector}
use vyper.Fat.Entry
use vyper.Fat.Long
use vyper.Fat.Cluster.Memory.{WholeDisk}
use vyper.Fat.Chain.Follow.{Chain, contents}
use vyper.Fat.Chain.Step.{KeepsOthers}
use vyper.Fat.Chain.Examples.{table, volume, view, volume-Lawful, in_range}
use vyper.Fat.Dir.Items.{entries_of_all}
use vyper.Fat.Dir.Image.{image}
use vyper.Fat.Dir.Examples.{
  before, target, target_entry, target_entry_lem, empty_slots, before-AllItems, target-IsItem,
  empty-AllSlots,
}
use vyper.Fat.Fs.{read_directory, remove_dir_entry}
use vyper.Fat.Fs.Remove.{remove_dir_entry_lem}

abbrev pub bytes_2 : Bytes
bytes_2 = image (before ++ (target ∷ [])) empty_slots

abbrev pub disk : List Bytes
disk =
    replicate 512 0
    ∷ table
    ∷ take 512 bytes_2
    ∷ drop 512 bytes_2
    ∷ replicate 512 4
    ∷ replicate 512 5
    ∷ replicate 512 6
    ∷ replicate 512 7
    ∷ []

abbrev pub same_name : List ℕ → List ℕ
same_name cs = cs

disk-WholeDisk : WholeDisk 8 disk
unfolding Entry.serialize Entry.new Long.serialize Long.create_lfn_entries Long.lfn_entries Long.new
    Long.fill
disk-WholeDisk = (refl, (refl, (refl, (refl, (refl, (refl, (refl, (refl, (refl, tt)))))))))

from_2 : Chain volume (view.entry disk) 2 (2 ∷ 3 ∷ [])
unfolding fat_start_sector
from_2 = (
  refl,
  in_range 2 (omega arith) (omega arith),
  refl,
  (refl, in_range 3 (omega arith) (omega arith), refl, omega arith),
)

stored : contents volume (view.content disk) (2 ∷ 3 ∷ []) ≡ bytes_2
unfolding cluster_to_sector data_start_sector Entry.serialize Entry.new Long.serialize
    Long.create_lfn_entries Long.lfn_entries Long.new Long.fill
stored = refl

remove_dir_entry_lem_example :
    (d' : List Bytes) × (remove_dir_entry volume same_name same_name 2 2 2 target_entry disk
      ≡ (ok tt, d'))
    × (read_directory volume same_name same_name 2 2 2 disk
        ≡ ok (entries_of_all before 0 ++ (target_entry ∷ [])))
    × (read_directory volume same_name same_name 2 2 2 d' ≡ ok (entries_of_all before 0 ++ []))
    × KeepsOthers volume view disk (2 ∷ 3 ∷ []) d'
remove_dir_entry_lem_example =
    remove_dir_entry_lem volume view volume-Lawful same_name same_name 2 2 2 (3 ∷ []) disk before []
      target empty_slots target_entry disk-WholeDisk from_2 (omega arith) stored
      (before-AllItems, target-IsItem, tt, empty-AllSlots, refl) target_entry_lem
