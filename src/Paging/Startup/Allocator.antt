-- ===== src/Paging/Startup/Allocator.antt =====
-- `mm_init` and, right after it, `vmm_init`, as `kernel_main` of Kernel/src/main.c calls them: the
-- allocator that the first leaves is ready for the page tables of the second.
use wheatley.Common.{
  true, ap₂, ◌∙◌, not, ◌||◌, ℕ, suc, ◌+◌, ◌*◌, ◌^◌, ◌≤◌, ◌<◌, ◌≡◌, ◌≢◌, refl, false, Option, none,
  List, arith,
}
use wheatley.Mm.{Mm, ok, panic, hang, alloc_max_size}
use wheatley.Mm.Init.{Entry, mm_init, alloc_pages, find_space}
use wheatley.Mm.Init.FreePages.{bitmap_size, filled, mm_init-filled, get-filled, set_aside, in_free}
use wheatley.Mm.Init.Blocks.{IsValid}
use wheatley.Mm.Init.Sound.{used_count, Sound, mm_init-Sound, last-free}
use wheatley.Paging.{State, Memory}
use wheatley.Paging.Kernel.{kernel_pages, kernel_pages-Gives}
use wheatley.Paging.Startup.{VmmEntry, vmm_init}
use wheatley.Paging.Startup.Entries.{AllFit, MemoryFits}
use wheatley.Paging.Startup.Translates.{Booted, kernel_entries, kernel_tables, vmm_init-Booted}

-- The two calls, on the same memory map; `none` where one of them does not return.
unfoldable pub memory_init :
    Mm → Memory → List VmmEntry → List Entry → Option (ℕ × State kernel_pages)
memory_init m mem sections entries = elim (mm_init m entries) [
  | ok done m' ↦ vmm_init kernel_pages (record { mem = mem; source = m' }) sections entries
  | panic reason m' ↦ none
  | hang ↦ none
]

-- After `mm_init`, the `n` pages from `start` on are free: they lie in free entries, in the bitmap, and are
-- not set aside.
pub record HasRun (m : Mm) (entries : List Entry) (start n : ℕ) : Type 0 where
  pub in_bits : start + n ≤ bitmap_size m entries * 8
  pub in_free_entries : (k : ℕ) → k < n → in_free entries (start + k) ≡ true
  pub not_set_aside :
      (k : ℕ)
      → k < n
      → set_aside
          (find_space entries (alloc_pages + bitmap_size m entries))
          (bitmap_size m entries)
          (start + k)
        ≡ false

-- On an unlocked allocator with an empty table, and a memory map with room for the tables, whose
-- entries do not overlap, with the used and the free ones ending before the last page of a bitmap that
-- has the first 16 MB: when the table has room for the used entries, for one page, for three pages for
-- each region of 2 MB that a loop comes to and for n more, as many pages in a row are free, and
-- the memory is below 2^31 pages, sections and memory at most 2 GB each, both calls return, with a
-- page map that says what `vmm_init` is to make of it and an allocator that gives n pages more.
pub memory_init-Booted :
    (n : ℕ) (m : Mm) (mem : Memory) (sections : List VmmEntry) (entries : List Entry) (start : ℕ)
    → m.locked ≡ false
    → m.alloc_count ≡ 0
    → find_space entries (alloc_pages + bitmap_size m entries) ≢ 0
    → IsValid (bitmap_size m entries) entries
    → bitmap_size m entries * 8 < 2 ^ 31
    → AllFit sections
    → MemoryFits entries
    → used_count entries + suc (kernel_tables kernel_pages sections entries n) ≤ alloc_max_size
    → HasRun m entries start (suc (kernel_tables kernel_pages sections entries n))
    → Booted kernel_pages
        (kernel_entries kernel_pages sections entries)
        n
        (memory_init m mem sections entries)
unfolding memory_init
memory_init-Booted n m mem sections entries start idle blank space valid few fit memory_fit room
      run =
    let place = find_space entries (alloc_pages + bitmap_size m entries) in
    let m' = filled m entries idle place in
    let e = mm_init-filled m entries idle _ refl space in
    let s : Sound m entries idle blank valid (omega arith) m' =
      mm_init-Sound m entries idle blank valid (omega arith) m' e in
    let (out, long) = last-free (bitmap_size m entries) entries valid in
    rw (e, memory_init)
      (vmm_init-Booted kernel_pages kernel_pages-Gives n (record { mem = mem; source = m' })
        sections entries fit memory_fit
        (record {
          sound = s.sound;
          idle = s.unlocked;
          room = omega (arith, s.count, room);
          few = omega (arith, s.size, few);
          null_taken = get-filled m entries idle place 0 (omega arith) ∙ ground arith;
          start = start;
          in_bits = omega (arith, s.size, run.in_bits);
          run = λ k lt.
              let b = run.in_bits in
              get-filled m entries idle place (start + k) (omega arith)
              ∙ ap₂ (λ x y. not x || y) (run.in_free_entries k lt) (run.not_set_aside k lt);
        }))
