-- ===== src/Vfs/Cursor/Examples.antt =====
-- A file of three bytes.
use vyper.Prelude.{
  ◌≡◌, ◌+◌, ◌-◌, ◌≤◌, ◌<◌, refl, ok, panic, [], ◌∷◌, Bytes, ◌⊎◌, length, take, drop, min,
}
use vyper.Vfs.Cursor.{read_at, write_at, copy_at, resize}
use vyper.Vfs.Cursor.Laws.{read_at_lem}

abbrev three : Bytes
three = 1 ∷ 2 ∷ 3 ∷ []

read_at_lem_example :
    ((4 ≤ length three)
      × (read_at three 4 2
          ≡ ok (take (min 2 (length three - 4)) (drop 4 three), 4 + min 2 (length three - 4))))
    ⊎ ((length three < 4) × (read_at three 4 2 ≡ panic))
read_at_lem_example = read_at_lem three 4 2

gap : write_at three 5 (9 ∷ []) ≡ ok (1 ∷ 2 ∷ 3 ∷ 0 ∷ 0 ∷ 9 ∷ [], 6)
unfolding write_at copy_at resize
gap = refl
