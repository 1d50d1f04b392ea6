-- ===== src/Dents/Examples.antt =====
-- A listing of three entries in two calls.
use vyper.Prelude.{ℕ, ◌≡◌, refl, List, [], ◌∷◌, map, arith}
use vyper.Vfs.Types.{DirEntry, file, directory, device}
use vyper.Dents.{list_all, fill, getdents, collect, next}
use vyper.Dents.Round.{user_entry}
use vyper.Dents.Listing.{opened_dir, list_all_lem}

abbrev entries : List DirEntry
entries =
    record { name = b'a' ∷ []; file_type = directory }
    ∷ record { name = b'b' ∷ b'c' ∷ []; file_type = file }
    ∷ record { name = []; file_type = device }
    ∷ []

list_all_lem_example : list_all 4 259 [] (opened_dir ℕ [] entries 0) ≡ map user_entry entries
list_all_lem_example = list_all_lem ℕ [] entries 259 [] 4 (omega arith) (omega arith) (omega arith)

-- Nine bytes hold the first two records only.
small_buffer : list_all 4 9 [] (opened_dir ℕ [] entries 0) ≡ map user_entry entries
unfolding list_all fill getdents collect next
small_buffer = refl
