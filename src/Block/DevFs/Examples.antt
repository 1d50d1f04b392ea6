-- ===== src/Block/DevFs/Examples.antt =====
-- A device of two sectors.
use vyper.Prelude.{◌≡◌, ◌+◌, ◌-◌, ◌%◌, refl, min, Bytes, ok, List, [], ◌∷◌, replicate}
use vyper.Block.Device.{sector_size}
use vyper.Block.Device.Memory.{memory, memory-Lawful}
use vyper.Block.DevFs.{read_at, write_at, patched}
use vyper.Block.DevFs.Laws.{sector_read-write}

abbrev blank : List Bytes
blank = replicate 512 0 ∷ replicate 512 0 ∷ []

abbrev three : Bytes
three = 7 ∷ 8 ∷ 9 ∷ []

-- The write starts at the last two bytes of the first sector.
abbrev after : List Bytes
after = patched (replicate 512 0) 510 (7 ∷ 8 ∷ []) ∷ replicate 512 0 ∷ []

short_write : write_at memory blank 510 three ≡ (ok 2, after)
unfolding write_at
short_write = refl

sector_read-write_example :
    (2 ≡ min 3 (sector_size - 510 % sector_size))
    × (read_at memory after 510 2 ≡ ok (7 ∷ 8 ∷ [], 510 + 2))
sector_read-write_example =
    sector_read-write memory memory-Lawful blank 510 three 2 after refl short_write
