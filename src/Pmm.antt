-- ===== src/Pmm.antt =====
-- vcore/src/mem/pmm.rs: the bitmap of physical pages. A set bit is a page that is not free. The
-- memory behind the pointer `bitmap` is a list of bytes. Every access of the code is of a
-- page below `total_pages`, for which `IsValid` says that the list is long enough.
pub mod Bits
pub mod Inv
pub mod Alloc
mod Examples
use vyper.Prelude.{
  ℕ, zero, suc, ◌+◌, ◌-◌, ◌*◌, ◌/◌, ◌%◌, ◌^◌, min, max, Bool, true, false, not, ◌&&◌, Option, none,
  some, List, [], ◌∷◌, if◌then◌else◌, ltb, leb, ◌==◌, replicate,
}
use Bits.{Bitmap, set_bit, clear_bit, test_bit}

abbrev pub page_size : ℕ
page_size = 4096

abbrev pub u64_limit : ℕ
u64_limit = 2 ^ 64

pub record BitmapAllocator : Type 0 where
  pub bitmap : Bitmap
  pub bitmap_size : ℕ
  pub total_pages : ℕ
  pub usable_pages : ℕ
  pub free_pages : ℕ

-- The loop of `alloc_page`: the first page from `i` on whose bit is clear, of the `n` that are left.
unfoldable pub first_free : Bitmap → ℕ → ℕ → Option ℕ
first_free bitmap i zero = none
first_free bitmap i (suc n) =
    let rest = first_free bitmap (suc i) n in if not (test_bit bitmap i) then some i else rest

-- A wrapping `free_pages -= 1`.
abbrev pub decrement : ℕ → ℕ
decrement n = (n + (u64_limit - 1)) % u64_limit

abbrev pub increment : ℕ → ℕ
increment n = (n + 1) % u64_limit

unfoldable pub alloc_page : BitmapAllocator → Option ℕ × BitmapAllocator
alloc_page self = elim (first_free self.bitmap 0 self.total_pages) [
  | none ↦ (none, self)
  | some i ↦ (
    some ((i * page_size) % u64_limit),
    record self { bitmap = set_bit self.bitmap i; free_pages = decrement self.free_pages },
  )
]

unfoldable pub free_page : BitmapAllocator → ℕ → BitmapAllocator
free_page self addr =
    let page = addr / page_size in
    if ltb page self.total_pages && test_bit self.bitmap page
    then record self { bitmap = clear_bit self.bitmap page; free_pages = increment self.free_pages }
    else self
