-- ===== src/Pmm/Alloc.antt =====
-- What `alloc_page` and `free_page` of pmm.rs promise.
use vyper.Prelude.{
  ℕ, suc, ◌+◌, ◌-◌, ◌*◌, ◌/◌, ◌%◌, ◌^◌, ◌<◌, ◌≡◌, refl, ap, sym, ◌∙◌, Bool, true, false, ◌&&◌,
  Option, none, some, if◌then◌else◌, ◌==◌, ltb, length, ◌⊎◌, arith, inl, inr, Bool-cases,
}
use mathlib.Core.Path.{subst}
use mathlib.Core.Option.{some-injective}
use vyper.Pmm.{BitmapAllocator, first_free, alloc_page, free_page, page_size}
use vyper.Pmm.Bits.{
  set_bit, clear_bit, test_bit, test_bit-set_bit, test_bit-clear_bit, length-set_bit,
  length-clear_bit,
}
use vyper.Pmm.Inv.{
  IsValid, IsLowest, clear_count-bound, clear_count-set_bit, clear_count-clear_bit,
  first_free-IsLowest, first_free-none, clear_count-full, clear_count-some,
}

-- A page was handed out.
pub record Allocated (self self' : BitmapAllocator) (page : ℕ) : Type 0 where
  pub lowest : IsLowest self.bitmap 0 self.total_pages page
  pub taken :
      (j : ℕ) → test_bit self'.bitmap j ≡ (if j == page then true else test_bit self.bitmap j)
  pub same_memory : self'.total_pages ≡ self.total_pages
  pub one_less : self.free_pages ≡ suc self'.free_pages
  pub valid : IsValid self'

alloc_found :
    (self : BitmapAllocator) (page : ℕ)
    → IsValid self
    → IsLowest self.bitmap 0 self.total_pages page
    → Allocated self
        (record self {
          bitmap = set_bit self.bitmap page;
          free_pages = (self.free_pages + (2 ^ 64 - 1)) % 2 ^ 64;
        })
        page
alloc_found self page v low =
    let bound = clear_count-bound self.bitmap self.total_pages in
    let positive = clear_count-some self.bitmap page self.total_pages low.in_range low.free in
    let inside : page < 8 * length self.bitmap = omega (arith, low.in_range, v.covered) in
    let fewer : self.free_pages ≡ suc ((self.free_pages + (2 ^ 64 - 1)) % 2 ^ 64) =
      omega (arith, bound, positive, v.counted, v.addressed) in
    record {
      lowest = low;
      taken = λ j. test_bit-set_bit self.bitmap page j inside;
      same_memory = refl;
      one_less = fewer;
      valid = record {
        counted = ground (
          arith,
          clear_count-set_bit self.bitmap page self.total_pages inside low.free,
          v.counted,
          fewer,
          low.in_range,
        );
        covered = omega (arith, length-set_bit self.bitmap page, v.covered);
        addressed = v.addressed;
      };
    }

-- From a valid allocator, `alloc_page` returns the address of the lowest free page and takes it:
-- all other pages keep their state, the counter is one less, and the allocator stays valid. It
-- returns none only where no page is free, and then the counter is 0 and nothing has changed.
pub alloc_page_lem :
    (self : BitmapAllocator)
    → IsValid self
    → ((page : ℕ) × ((alloc_page self).0 ≡ some (page * page_size))
        × Allocated self (alloc_page self).1 page)
      ⊎ ((alloc_page self ≡ (none, self))
          × ((k : ℕ) → k < self.total_pages → test_bit self.bitmap k ≡ true)
          × (self.free_pages ≡ 0))
unfolding alloc_page
alloc_page_lem self v = go (first_free self.bitmap 0 self.total_pages) refl
  where
    go :
        (o : Option ℕ)
        → first_free self.bitmap 0 self.total_pages ≡ o
        → ((page : ℕ) × ((alloc_page self).0 ≡ some (page * page_size))
            × Allocated self (alloc_page self).1 page)
          ⊎ ((alloc_page self ≡ (none, self))
              × ((k : ℕ) → k < self.total_pages → test_bit self.bitmap k ≡ true)
              × (self.free_pages ≡ 0))
    go none e =
        let full = first_free-none self.bitmap 0 self.total_pages e in
        inr (
          rw (e, alloc_page) refl,
          (λ k b. full k (omega arith) (omega arith)),
          v.counted
              ∙ clear_count-full self.bitmap self.total_pages
                  (λ k b. full k (omega arith) (omega arith)),
        )
    go (some page) e =
        let low = first_free-IsLowest self.bitmap self.total_pages page e in
        inl (
          page,
          rw (e, alloc_page) (ap some (omega (arith, v.addressed, low.in_range))),
          rw (e, alloc_page) (alloc_found self page v low),
        )

-- The page of an address was given back, or nothing happened.
pub record Freed (self self' : BitmapAllocator) (page : ℕ) (done : Bool) : Type 0 where
  pub cleared :
      (j : ℕ)
      → test_bit self'.bitmap j ≡ (if done && (j == page) then false else test_bit self.bitmap j)
  pub counted : self'.free_pages ≡ self.free_pages + (if done then 1 else 0)
  -- Only the bits and the counter can differ, and where nothing is freed neither does.
  pub rest : self' ≡ record self { bitmap = self'.bitmap; free_pages = self'.free_pages }
  pub unchanged : done ≡ false → self' ≡ self
  pub sized : length self'.bitmap ≡ length self.bitmap
  pub valid : IsValid self'

freed :
    (self : BitmapAllocator) (page : ℕ)
    → IsValid self
    → ltb page self.total_pages ≡ true
    → test_bit self.bitmap page ≡ true
    → Freed self
        (record self {
          bitmap = clear_bit self.bitmap page;
          free_pages = (self.free_pages + 1) % 2 ^ 64;
        })
        page
        true
freed self page v below held =
    let inside : page < 8 * length self.bitmap = ground (arith, v.covered) in
    let more = clear_count-clear_bit self.bitmap page self.total_pages inside held in
    let bound = clear_count-bound (clear_bit self.bitmap page) self.total_pages in
    let next : (self.free_pages + 1) % 2 ^ 64 ≡ self.free_pages + 1 =
      ground (arith, more, bound, v.counted, v.addressed) in
    record {
      cleared = λ j. test_bit-clear_bit self.bitmap page j inside;
      counted = next;
      rest = refl;
      unchanged = λ e. cc;
      sized = length-clear_bit self.bitmap page;
      valid = record {
        counted = ground (arith, more, v.counted, next);
        covered = omega (arith, length-clear_bit self.bitmap page, v.covered);
        addressed = v.addressed;
      };
    }

-- From a valid allocator, `free_page` clears the bit of the page of its address, where that is a
-- page of the memory that is not free, keeps every other bit, adds one to the counter, and changes
-- no other field; otherwise it leaves the allocator as it was. The allocator stays valid.
pub free_page_lem :
    (self : BitmapAllocator) (addr : ℕ)
    → IsValid self
    → Freed self
        (free_page self addr)
        (addr / page_size)
        (ltb (addr / page_size) self.total_pages && test_bit self.bitmap (addr / page_size))
unfolding free_page
free_page_lem self addr v = elim (Bool-cases (ltb (addr / page_size) self.total_pages)) [
  | inr outside ↦ rw (outside, free_page) (same self v (addr / page_size))
  | inl below ↦ elim (Bool-cases (test_bit self.bitmap (addr / page_size))) [
    | inr clear ↦ rw (below, clear, free_page) (same self v (addr / page_size))
    | inl held ↦ rw (below, held, free_page) (freed self (addr / page_size) v below held)
  ]
]
  where
    same : (self : BitmapAllocator) → IsValid self → (page : ℕ) → Freed self self page false
    same self v page = record {
      cleared = λ j. refl;
      counted = omega arith;
      rest = refl;
      unchanged = λ e. refl;
      sized = refl;
      valid = v;
    }

-- From a valid allocator, freeing a page that was just handed out frees all and only what was free before.
pub free_page-alloc_page :
    (self : BitmapAllocator) (addr : ℕ) (self' : BitmapAllocator)
    → IsValid self
    → alloc_page self ≡ (some addr, self')
    → ((j : ℕ) → test_bit (free_page self' addr).bitmap j ≡ test_bit self.bitmap j)
      × ((free_page self' addr).free_pages ≡ self.free_pages)
free_page-alloc_page self addr self' v e = elim (alloc_page_lem self v) [
  | inr (failed, full, empty) ↦ absurd (cc)
  | inl (page, given, done) ↦
      back page (some-injective _ _ (sym (ap (λ r. r.0) e) ∙ given))
        (subst (λ s. Allocated self s page) (ap (λ r. r.1) e) done)
]
  where
    back :
        (page : ℕ)
        → addr ≡ page * page_size
        → Allocated self self' page
        → ((j : ℕ) → test_bit (free_page self' addr).bitmap j ≡ test_bit self.bitmap j)
          × ((free_page self' addr).free_pages ≡ self.free_pages)
    back page at done =
        let low = done.lowest in
        let f = free_page_lem self' addr done.valid in
        let here : addr / page_size ≡ page = omega arith in
        (
          λ j. ground (
            arith,
            f.cleared j,
            done.taken j,
            done.taken page,
            low.free,
            low.in_range,
            here,
            done.same_memory,
          ),
          ground (
            arith,
            f.counted,
            done.one_less,
            done.taken page,
            low.in_range,
            here,
            done.same_memory,
          ),
        )
