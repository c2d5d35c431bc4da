-- ===== src/Mm/Init/Tests.antt =====
-- `mm_init` of Kernel/src/mm/init.c at a memory map with one free entry and one used.
use wheatley.Common.{◌+◌, ◌≡◌, refl, false, List, [], ◌∷◌}
use wheatley.Mm.{Mm, Outcome}
use wheatley.Mm.Init.{total_pages, Entry, free, used, find_space, alloc_pages}
use wheatley.Mm.Init.FreePages.{bitmap_size}

abbrev blank : Mm
blank = record {
  pages = λ _. 0;
  page_count = 0;
  allocs = λ _. record { page_start = 0; page_count = 0; used = false };
  alloc_count = 0;
  locked = false;
  ram = λ _. 0;
}

-- 64 MB from 16 MB on, behind 16 MB that are used.
abbrev memory_map : List Entry
memory_map =
    record { type = used; start = 0; pages = 0x1000 }
    ∷ record { type = free; start = 0x1000000; pages = 0x3ff9 }
    ∷ []

tables_at : find_space memory_map (alloc_pages + bitmap_size blank memory_map) ≡ 0x1000000
unfolding find_space wheatley.Mm.Init.total_pages wheatley.Mm.Init.is_free
tables_at = refl
