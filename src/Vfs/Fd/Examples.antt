-- ===== src/Vfs/Fd/Examples.antt =====
-- A table of open files with two files in it; a handle is a number here.
use vyper.Prelude.{ℕ, ◌≡◌, refl, ok}
use vyper.Vfs.Fd.{FdTable, file, new, alloc, close, close_slot, first_free}
use vyper.Vfs.Fd.Laws.{IsValid, new-IsValid, alloc-IsValid}

abbrev one_open : FdTable ℕ
one_open = (alloc new (file 7)).1

one_open-IsValid : IsValid one_open
one_open-IsValid = alloc-IsValid new (file 7) new-IsValid

next_slot : (alloc one_open (file 9)).0 ≡ ok 4
unfolding alloc new first_free
next_slot = refl

reused : (alloc (close one_open 3).1 (file 9)).0 ≡ ok 3
unfolding alloc new first_free close close_slot
reused = refl
