-- ===== src/Pmm/Examples.antt =====
-- Ten pages, of which 0, 1 and 3 are taken.
use vyper.Prelude.{◌≡◌, ◌⊎◌, ◌<◌, ℕ, refl, some, none, true, [], ◌∷◌, arith, ltb, ◌&&◌, ◌*◌, ◌/◌}
use vyper.Pmm.{BitmapAllocator, alloc_page, free_page, page_size, first_free}
use vyper.Pmm.Bits.{test_bit, set_bit}
use vyper.Pmm.Inv.{IsValid}
use vyper.Pmm.Alloc.{Allocated, Freed, alloc_page_lem, free_page_lem}

abbrev memory : BitmapAllocator
memory = record {
  bitmap = 0b1011 ∷ 0b11111100 ∷ [];
  bitmap_size = 2;
  total_pages = 10;
  usable_pages = 9;
  free_pages = 7;
}

memory-IsValid : IsValid memory
unfolding test_bit
memory-IsValid = record { counted = refl; covered = omega arith; addressed = omega arith }

alloc_page_lem_example :
    ((page : ℕ) × ((alloc_page memory).0 ≡ some (page * page_size))
      × Allocated memory (alloc_page memory).1 page)
    ⊎ ((alloc_page memory ≡ (none, memory))
        × ((k : ℕ) → k < memory.total_pages → test_bit memory.bitmap k ≡ true)
        × (memory.free_pages ≡ 0))
alloc_page_lem_example = alloc_page_lem memory memory-IsValid

free_page_lem_example :
    Freed memory
      (free_page memory 12345)
      (12345 / page_size)
      (ltb (12345 / page_size) memory.total_pages && test_bit memory.bitmap (12345 / page_size))
free_page_lem_example = free_page_lem memory 12345 memory-IsValid

abbrev after_alloc : BitmapAllocator
after_alloc = record {
  bitmap = 0b1111 ∷ 0b11111100 ∷ [];
  bitmap_size = 2;
  total_pages = 10;
  usable_pages = 9;
  free_pages = 6;
}

page_two : alloc_page memory ≡ (some 8192, after_alloc)
unfolding alloc_page first_free test_bit set_bit
page_two = refl
