-- ===== src/Paging/Startup/Tests.antt =====
-- The two calls at a memory map of 80 MB, of which the first 16 MB are used.
use wheatley.Common.{◌≤◌, ℕ, ◌+◌, ◌≡◌, refl, inl, false, List, [], ◌∷◌, arith}
use wheatley.Mm.{Mm, pages_for}
use wheatley.Mm.Init.{Entry, free, used, find_space, alloc_pages, total_pages, is_free}
use wheatley.Mm.Init.FreePages.{bitmap_size}
use wheatley.Mm.Init.Sound.{used_count}
use wheatley.Paging.Kernel.{kernel_pages}
use wheatley.Paging.Startup.{VmmEntry}
use wheatley.Paging.Startup.Entries.{
  region_tables, region_tables_lem, section_tables, memory_tables,
}
use wheatley.Paging.Startup.Translates.{kernel_tables}
use wheatley.Paging.Startup.Devices.{Request, page, memory, kernel_memory, table_entries, AllShort}
use wheatley.Paging.Startup.Allocator.{HasRun}
use wheatley.Paging.Startup.Devices.Working.{Working, kernel_memory-Working}

abbrev blank : Mm
blank = record {
  pages = λ _. 0;
  page_count = 0;
  allocs = λ _. record { page_start = 0; page_count = 0; used = false };
  alloc_count = 0;
  locked = false;
  ram = λ _. 0;
}

abbrev memory_map : List Entry
memory_map =
    record { type = used; start = 0; pages = 0x1000 }
    ∷ record { type = free; start = 0x1000000; pages = 0x3ff9 }
    ∷ []

abbrev text : List VmmEntry
text = record { phys_addr = 0x200000; virt_addr = 0xffffffff80000000; pages = 2 } ∷ []

size : bitmap_size blank memory_map ≡ 0xa00
unfolding total_pages
size = refl

space : find_space memory_map (alloc_pages + bitmap_size blank memory_map) ≡ 0x1000000
unfolding find_space total_pages is_free
space = refl

text-region_tables : (n : ℕ) → region_tables 0xffffffff80000000 0 2 n ≡ 3 + n
unfolding region_tables
text-region_tables n = omega (arith, region_tables_lem 0xffffffff80000000 0 1 n)

low-region_tables : (n : ℕ) → region_tables 0 0 0x1000 n ≡ 24 + n
unfolding region_tables
low-region_tables n = omega (arith, region_tables_lem 0 0 0xfff n)

high-region_tables : (n : ℕ) → region_tables 0x1000000 0 0x3ff9 n ≡ 96 + n
unfolding region_tables
high-region_tables n = omega (arith, region_tables_lem 0x1000000 0 0x3ff8 n)

last-region_tables : (n : ℕ) → region_tables 0 0 0x10000 n ≡ 384 + n
unfolding region_tables
last-region_tables n = omega (arith, region_tables_lem 0 0 0xffff n)

-- 1 region for the section, 8 and 32 for the two entries, 128 for the first 256 MB.
text-kernel_tables : (n : ℕ) → kernel_tables kernel_pages text memory_map n ≡ 507 + n
unfolding section_tables memory_tables
text-kernel_tables n =
    let last = region_tables 0 0 0x10000 n in
    let high = region_tables 0x1000000 0 0x3ff9 last in
    let e1 = text-region_tables (region_tables 0 0 0x1000 high) in
    let e2 = low-region_tables high in
    let e3 = high-region_tables last in
    let e4 = last-region_tables n in omega (arith, e1, e2, e3, e4)

memory_map-used_count : used_count memory_map ≡ 1
unfolding used_count
memory_map-used_count = refl

-- A page of the screen, its copy and the terminal's, the HPET and the local APIC.
abbrev drivers : List Request
drivers = page 0xfd000000 ∷ memory 0x20000 ∷ memory 0x1f000 ∷ page 0xfed00000 ∷ page 0xfee00000 ∷ []

drivers-table_entries : table_entries drivers 0 ≡ 72
unfolding pages_for
drivers-table_entries = refl

drivers-AllShort : AllShort drivers
unfolding pages_for
drivers-AllShort = ((omega arith, omega arith), ((omega arith, omega arith), tt))

-- The pages from 32 MB on.
free_run : (n : ℕ) → n ≤ 3000 → HasRun blank memory_map 0x2000 n
free_run n few = record {
  in_bits = omega (arith, size);
  in_free_entries = λ k lt. ground arith;
  not_set_aside = λ k lt. rw (space, size) (ground arith);
}

kernel_memory-Working_example :
    Working text memory_map drivers 0 (kernel_memory blank (λ _. 7) text memory_map drivers)
kernel_memory-Working_example =
    kernel_memory-Working 0 blank (λ _. 7) text memory_map drivers 0x2000 refl refl
      (λ z. omega (arith, space, z))
      (
        (λ q. (omega arith, omega arith, omega arith, omega (arith, size)), λ q. absurd (cc q)),
        (inl (omega arith), tt),
        ((λ q. absurd (cc q), λ q. omega (arith, size)), tt, omega (arith, size)),
      )
      (omega (arith, size)) ((omega arith, omega arith), tt)
      ((omega arith, omega arith), ((omega arith, omega arith), tt)) drivers-AllShort
      (omega (
        arith,
        text-kernel_tables (table_entries drivers 0),
        drivers-table_entries,
        memory_map-used_count,
      ))
      (free_run _
        (omega (arith, text-kernel_tables (table_entries drivers 0), drivers-table_entries)))
