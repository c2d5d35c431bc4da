-- ===== src/Paging/Tests.antt =====
-- Page tables built by the kernel's allocator: runs, and the theorems at an empty top table.
use wheatley.Common.{
  bit-none, ◌%◌, ◌∷◌, ℕ, zero, suc, ◌+◌, ◌<◌, ◌≡◌, refl, true, false, Option, none, some, List, [],
  arith, update, bit, ◌==◌, if◌then◌else◌,
}
use mathlib.Core.Path.{subst}
use wheatley.Mm.{Mm, get_page_bit}
use wheatley.Paging.{State, PageMap, vmm_map_page, vmm_unmap_page, paging_map_page}
use wheatley.Paging.Kernel.{kernel_pages, kernel_pages-Gives, IsReady, OwnsPage}
use wheatley.Paging.Startup.{VmmEntry, vmm_init}
use wheatley.Paging.Startup.Entries.{
  section_tables, memory_tables, region_tables, region_tables_lem,
}
use wheatley.Paging.Startup.Translates.{Booted, kernel_entries, kernel_tables, vmm_init-Booted}
use wheatley.Paging.Tree.{IsTree}
use wheatley.Paging.Map.{Map, vmm_map_page-Map}
use wheatley.Paging.Unmap.{Unmap, vmm_unmap_page-Unmap}
use wheatley.Paging.Boot.{paging_map_page-vmm_map_page}

-- Page 4 holds the top table; pages 5 to 14 are free.
abbrev allocator : Mm
allocator = record {
  pages = λ _. 0xffff_801f;
  page_count = 2;
  allocs = λ _. record { page_start = 4; page_count = 1; used = true };
  alloc_count = 1;
  locked = false;
  ram = λ _. 0;
}

allocator-held : (k : ℕ) → k < 1 → get_page_bit allocator (4 + k) ≡ true
unfolding get_page_bit bit
allocator-held zero lt = refl
allocator-held (suc k) lt = absurd (omega arith)

allocator-last : get_page_bit allocator 15 ≡ true
unfolding get_page_bit bit
allocator-last = refl

allocator-null : get_page_bit allocator 0 ≡ true
unfolding get_page_bit bit
allocator-null = refl

allocator-run : (k : ℕ) → k < 3 → get_page_bit allocator (5 + k) ≡ false
unfolding get_page_bit bit
allocator-run zero lt = refl
allocator-run (suc zero) lt = refl
allocator-run (suc (suc zero)) lt = refl
allocator-run (suc (suc (suc k))) lt = absurd (omega arith)

allocator-IsReady : IsReady 3 allocator
allocator-IsReady = record {
  sound = record {
    agrees = record {
      room = omega arith;
      small = λ i lt. omega arith;
      unique = λ i j lt_i lt_j e. omega arith;
      held = λ i k lt live in_range. allocator-held k in_range;
      apart = λ i j k l lt_i lt_j live_i live_j k_lt l_lt e. omega arith;
    };
    last = allocator-last;
    inside = λ i lt live. omega arith;
  };
  idle = refl;
  room = omega arith;
  few = omega arith;
  null_taken = allocator-null;
  start = 5;
  in_bits = omega arith;
  run = allocator-run;
}

abbrev empty : State kernel_pages
empty = record { mem = λ _. 0; source = allocator }

abbrev page_map : PageMap
page_map = record { top_level = 0x4000; locked = false }

abbrev top_only : ℕ → Option (List ℕ)
top_only = update (λ _. none) 0x4000 (some [])

top_only_inv : (t : ℕ) (p : List ℕ) → top_only t ≡ some p → 0x4000 ≡ t
top_only_inv t p r = ground arith

empty-IsTree : IsTree kernel_pages empty 0x4000 top_only
empty-IsTree = record {
  root = refl;
  owned = λ t p r.
      let at = top_only_inv t p r in
      subst (OwnsPage allocator) at (record {
        holder = (0, record { below = omega arith; start = refl; size = refl; in_use = refl });
        aligned = refl;
        pos = omega arith;
        word = omega arith;
      });
  down = λ t i p r len lt on. cc;
}

vmm_map_page-Map_example :
    Map kernel_pages empty 0x4000 0xffff800000201000 0x9003 0
      (vmm_map_page kernel_pages empty (some page_map) 0x9000 0xffff800000201000 3)
vmm_map_page-Map_example =
    vmm_map_page-Map kernel_pages empty page_map top_only 0x9000 0xffff800000201000 3 0 empty-IsTree
      refl allocator-IsReady

vmm_unmap_page-Unmap_example :
    Unmap kernel_pages empty 0x4000 0xffff800000201000
      (vmm_unmap_page kernel_pages empty (some page_map) 0xffff800000201000)
vmm_unmap_page-Unmap_example =
    vmm_unmap_page-Unmap kernel_pages empty page_map top_only 0xffff800000201000 empty-IsTree refl

paging_map_page-vmm_map_page_example :
    paging_map_page kernel_pages empty 0x4000 0x9000 0x201000 3
    ≡ vmm_map_page kernel_pages empty (some page_map) 0x9000 0x201000 3
paging_map_page-vmm_map_page_example =
    paging_map_page-vmm_map_page kernel_pages empty 0x4000 0x9000 0x201000 3 (omega arith)

-- One section of two pages at the top of the addresses.
abbrev text : List VmmEntry
text = record { phys_addr = 0x200000; virt_addr = 0xffffffff80000000; pages = 2 } ∷ []

-- 32 MB, of which the first five pages and the last one are taken, and no other entry of the allocation table.
abbrev big_allocator : Mm
big_allocator = record allocator {
  pages = λ i. if i == 0 then 0x1f else if i == 255 then 0x8000_0000 else 0;
  page_count = 0x400;
}

big_allocator-held : (k : ℕ) → k < 1 → get_page_bit big_allocator (4 + k) ≡ true
unfolding get_page_bit bit
big_allocator-held zero lt = refl
big_allocator-held (suc k) lt = absurd (omega arith)

big_allocator-last : get_page_bit big_allocator 8191 ≡ true
unfolding get_page_bit bit
big_allocator-last = refl

big_allocator-null : get_page_bit big_allocator 0 ≡ true
unfolding get_page_bit bit
big_allocator-null = refl

big_allocator-run : (k : ℕ) → k < 1024 → get_page_bit big_allocator (32 + k) ≡ false
unfolding get_page_bit
big_allocator-run k lt = ground (arith, bit-none ((32 + k) % 32))

big_allocator-IsReady : (n : ℕ) → n < 1024 → IsReady n big_allocator
big_allocator-IsReady n few = record {
  sound = record {
    agrees = record {
      room = omega arith;
      small = λ i lt. omega arith;
      unique = λ i j lt_i lt_j e. omega arith;
      held = λ i k lt live in_range. big_allocator-held k in_range;
      apart = λ i j k l lt_i lt_j live_i live_j k_lt l_lt e. omega arith;
    };
    last = big_allocator-last;
    inside = λ i lt live. omega arith;
  };
  idle = refl;
  room = omega (arith, few);
  few = omega arith;
  null_taken = big_allocator-null;
  start = 32;
  in_bits = omega (arith, few);
  run = λ k lt. big_allocator-run k (omega (arith, few));
}

abbrev blank : State kernel_pages
blank = record { mem = λ _. 7; source = big_allocator }

-- The top table, one region for the section and 128 for the first 256 MB.
text-kernel_tables : suc (kernel_tables kernel_pages text [] 0) ≡ 388
unfolding section_tables memory_tables region_tables
text-kernel_tables = omega (
  arith,
  region_tables_lem 0xffffffff80000000 0 1 (region_tables 0 0 0x10000 0),
  region_tables_lem 0 0 0xffff 0,
)

vmm_init-Booted_example :
    Booted kernel_pages
      (kernel_entries kernel_pages text [])
      0
      (vmm_init kernel_pages blank text [])
vmm_init-Booted_example =
    vmm_init-Booted kernel_pages kernel_pages-Gives 0 blank text [] ((omega arith, omega arith), tt)
      tt
      (big_allocator-IsReady (suc (kernel_tables kernel_pages text [] 0))
        (omega (arith, text-kernel_tables)))
