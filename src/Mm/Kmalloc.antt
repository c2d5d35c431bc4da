-- ===== src/Mm/Kmalloc.antt =====
-- `kmalloc` of Kernel/src/mm/mm.c on every branch.
use wheatley.Common.{ℕ, ◌*◌, ◌^◌, ◌+◌, ◌<◌, ◌≤◌, ◌≡◌, refl, sym, true, false, arith}
use wheatley.Mm.{
  Mm, Outcome, ok, lock, unlock, alloc_max_size, no_page, get_page_bit, find_page, pages_for,
  take_pages, kmalloc,
}
use wheatley.Mm.FirstFit.{Fits, NoFit, FirstFit, found, missing, find_page-FirstFit}
use wheatley.Mm.Consistent.{marked}
use wheatley.Mm.Calls.{
  IsSound, Owns, take_pages-IsSound, Fits-inside, take_pages-marked, take_pages-Owns,
  take_pages-others, take_pages-ram, take_pages-grows, take_pages-size, IsSound-with, Owns-with,
}

-- The `n` pages from `page` on have gone from free to one live entry; no other page has changed.
pub record Allocated (m m' : Mm) (page n : ℕ) : Type 0 where
  pub in_bitmap : page < m.page_count * 8
  pub before_end : page + n < m.page_count * 8
  pub were_free : Fits m n page
  pub first : NoFit m n 0 page
  pub taken : get_page_bit m' ≡ marked (get_page_bit m) true page n
  pub owned : (i : ℕ) × Owns m' page n i
  pub others : (p k j : ℕ) → Owns m p k j → 0 < k → Owns m' p k j
  pub grows : m'.alloc_count ≤ m.alloc_count + 1
  pub same_size : m'.page_count ≡ m.page_count
  pub same_ram : m'.ram ≡ m.ram
  pub sound : IsSound m'
  pub unlocked : m'.locked ≡ false

-- The ends of a call: the first run of free pages, or NULL and nothing changed.
pub data Kmalloc (m : Mm) (n : ℕ) (r : Outcome ℕ) : Type 0 where
  allocated : (page : ℕ) (m' : Mm) → r ≡ ok (page * 4096) m' → Allocated m m' page n → Kmalloc m n r
  out_of_memory : r ≡ ok 0 m → NoFit m n 0 (m.page_count * 8) → Kmalloc m n r

kmalloc-page :
    (m : Mm) (len page : ℕ)
    → m.locked ≡ false
    → find_page (lock m) (pages_for len) ≡ page
    → page < 2 ^ 31
    → kmalloc m len ≡ ok (page * 4096) (unlock (take_pages (lock m) page (pages_for len)))
unfolding kmalloc
kmalloc-page m len page idle e lt = ground arith

pub unlock_self : (m : Mm) → m.locked ≡ false → unlock m ≡ m
unlock_self m e = λ i. record m { locked = sym e i }

kmalloc-null :
    (m : Mm) (len : ℕ)
    → m.locked ≡ false
    → find_page (lock m) (pages_for len) ≡ no_page
    → kmalloc m len ≡ ok 0 m
unfolding kmalloc
kmalloc-null m len idle e = ground (arith, unlock_self m idle)

kmalloc_found :
    (m : Mm) (len : ℕ)
    → IsSound m
    → m.locked ≡ false
    → m.alloc_count < alloc_max_size
    → m.page_count * 8 < 2 ^ 31
    → pages_for len < 2 ^ 16
    → FirstFit (lock m) (pages_for len) 0 (m.page_count * 8) (find_page (lock m) (pages_for len))
    → Kmalloc m (pages_for len) (kmalloc m len)
unfolding get_page_bit
kmalloc_found m len inv idle room few short (found lo hi fits before) =
    let n = pages_for len in
    let page = find_page (lock m) n in
    let sound = IsSound-with m true m.ram inv in
    let low : page < 2 ^ 32 = omega arith in
    let taken = take_pages (lock m) page n in
    let (i, o) = take_pages-Owns (lock m) page n sound room short low in
    allocated page (unlock (take_pages (lock m) page n))
      (kmalloc-page m len page idle refl (omega arith))
      (record {
        in_bitmap = hi;
        before_end = Fits-inside (lock m) n page sound hi fits;
        were_free = fits;
        first = before;
        taken = take_pages-marked (lock m) page n sound room short low;
        owned = (i, Owns-with taken false taken.ram page n i o);
        others = λ p k j q pos. Owns-with taken false taken.ram p k j (
            take_pages-others (lock m) page n sound room short low fits p k j
              (Owns-with m true m.ram p k j q) pos);
        grows = take_pages-grows (lock m) page n sound room short low;
        same_size = take_pages-size (lock m) page n sound room short low;
        same_ram = take_pages-ram (lock m) page n sound room short low;
        sound =
            IsSound-with taken false taken.ram
              (take_pages-IsSound (lock m) page n sound room short low hi fits);
        unlocked = refl;
      })
kmalloc_found m len inv idle room few short (missing e none_fits) =
    out_of_memory (kmalloc-null m len idle e) none_fits

-- In a consistent, unlocked allocator with room in its table and a bitmap of fewer than 2^31 pages,
-- `kmalloc` of fewer than 2^16 pages returns the first run of free pages, which go from free to one
-- live entry while no other page and no other live block changes, and the allocator is consistent
-- and unlocked; or it returns NULL, changes nothing, and there is no run of that many free pages.
pub kmalloc-Kmalloc :
    (m : Mm) (len : ℕ)
    → IsSound m
    → m.locked ≡ false
    → m.alloc_count < alloc_max_size
    → m.page_count * 8 < 2 ^ 31
    → pages_for len < 2 ^ 16
    → Kmalloc m (pages_for len) (kmalloc m len)
kmalloc-Kmalloc m len inv idle room few short =
    kmalloc_found m len inv idle room few short (find_page-FirstFit (lock m) (pages_for len))
