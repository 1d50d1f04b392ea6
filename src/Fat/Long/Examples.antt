-- ===== src/Fat/Long/Examples.antt =====
-- A name of two entries.
use vyper.Prelude.{bytes, ◌≡◌, refl, List, ℕ, map, [], ◌∷◌}
use vyper.Fat.Long.{create_lfn_entries, lfn_entries, lfn_checksum, new, sequence_number, fill}

abbrev long_name : List ℕ
long_name = bytes "a long file.txt"

abbrev short_name : List ℕ
short_name = bytes "A_LONG_FTXT"

two_entries : map sequence_number (create_lfn_entries long_name short_name) ≡ 2 ∷ 1 ∷ []
unfolding create_lfn_entries lfn_entries sequence_number new fill lfn_checksum
two_entries = refl
