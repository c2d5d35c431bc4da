-- ===== src/Paging/Startup/Devices/Working.antt =====
-- The kernel's page map after `kernel_main` of Kernel/src/main.c has set up its memory and its drivers.
use wheatley.Common.{
  ℕ, suc, ◌+◌, ◌*◌, ◌^◌, ◌≤◌, ◌<◌, ◌≡◌, ◌≢◌, refl, ◌∙◌, false, Option, some, List,
}
use wheatley.Common.{◌>>=◌}
use wheatley.Mm.{Mm, alloc_max_size}
use wheatley.Mm.Init.{Entry, alloc_pages, find_space}
use wheatley.Mm.Init.FreePages.{bitmap_size}
use wheatley.Mm.Init.Blocks.{IsValid}
use wheatley.Mm.Init.Sound.{used_count}
use wheatley.Paging.{State, Memory}
use wheatley.Paging.Kernel.{kernel_pages, IsReady}
use wheatley.Paging.Tree.{page_entry, IsTree}
use wheatley.Paging.Identity.{On, LeadsToSelf}
use wheatley.Paging.Startup.{VmmEntry}
use wheatley.Paging.Startup.Entries.{AllFit, MemoryFits}
use wheatley.Paging.Startup.Translates.{Booted, booted, kernel_entries, kernel_tables}
use wheatley.Paging.Startup.Allocator.{HasRun, memory_init, memory_init-Booted}
use wheatley.Paging.Startup.Devices.{
  Request, serve, kernel_memory, table_entries, addresses, AllShort,
}
use wheatley.Paging.Startup.Devices.Served.{served, serve-Served}

-- The kernel's page map: that of `vmm_init`, but for the pages of devices.
pub record KernelMap (sections : List VmmEntry) (entries : List Entry) (rs : List Request) (top : ℕ)
    (st : State kernel_pages) : Type 0 where
  pub role : ℕ → Option (List ℕ)
  pub tree : IsTree kernel_pages st top role
  pub devices : (v : ℕ) → On v (addresses rs) → LeadsToSelf st.mem top v
  pub others :
      (v : ℕ)
      → ¬ On v (addresses rs)
      → page_entry st.mem top v ≡ kernel_entries kernel_pages sections entries v

pub data Working (sections : List VmmEntry) (entries : List Entry) (rs : List Request) (n : ℕ)
    (r : Option (ℕ × State kernel_pages)) : Type 0 where
  working :
      (top : ℕ) (st : State kernel_pages)
      → r ≡ some (top, st)
      → KernelMap sections entries rs top st
      → IsReady n st.source
      → Working sections entries rs n r

served-Working :
    (n : ℕ) (sections : List VmmEntry) (entries : List Entry) (rs : List Request)
    (r : Option (ℕ × State kernel_pages))
    → AllShort rs
    → Booted kernel_pages (kernel_entries kernel_pages sections entries) (table_entries rs n) r
    → Working sections entries rs n (r >>= λ (top, st). serve st top rs >>= λ st'. some (top, st'))
served-Working n sections entries rs r short (booted top st e s) =
    elim (serve-Served top n st s.role rs s.tree s.ready short) [
      | served st' e' h ready ↦
          working top st' (rw e (rw e' refl))
            (record {
              role = h.role;
              tree = h.tree;
              devices = h.leads;
              others = λ v off. h.others v off ∙ s.entries v;
            })
            ready
    ]

-- `mm_init` and `vmm_init`, on an unlocked allocator with an empty table, and a memory map with room for
-- the tables, whose entries do not overlap, with the used and the free ones ending before the last
-- page of a bitmap that has the first 16 MB, and the used ones of fewer than 2^16 pages; the memory
-- below 2^31 pages, sections and memory at most 2 GB each; and then any sequence of calls of
-- `vmm_map_page`, of an address onto itself, and of `kmalloc`, for one page to 2^16 - 1 pages. What is
-- needed is one page, three for each region of 2 MB that a loop of `vmm_init` comes to, three for each
-- page mapped, those of each block, and n more; the allocator's table has entries for as many and for
-- the used entries of the map, and somewhere as many pages in a row lie in free entries, from 16 MB on
-- and not among those set aside for the tables. Then all calls return: the pages mapped are
-- present, writable and lead to themselves, every other page has the entry that `vmm_init` is to
-- make, and the allocator may be asked for n pages more.
pub kernel_memory-Working :
    (n : ℕ) (m : Mm) (mem : Memory) (sections : List VmmEntry) (entries : List Entry)
    (rs : List Request) (start : ℕ)
    → m.locked ≡ false
    → m.alloc_count ≡ 0
    → find_space entries (alloc_pages + bitmap_size m entries) ≢ 0
    → IsValid (bitmap_size m entries) entries
    → bitmap_size m entries * 8 < 2 ^ 31
    → AllFit sections
    → MemoryFits entries
    → AllShort rs
    → used_count entries + suc (kernel_tables kernel_pages sections entries (table_entries rs n))
      ≤ alloc_max_size
    → HasRun m entries start
        (suc (kernel_tables kernel_pages sections entries (table_entries rs n)))
    → Working sections entries rs n (kernel_memory m mem sections entries rs)
unfolding kernel_memory
kernel_memory-Working n m mem sections entries rs start idle blank space valid few fit memory_fit
      short room run =
    served-Working n sections entries rs (memory_init m mem sections entries) short (
      memory_init-Booted (table_entries rs n) m mem sections entries start idle blank space valid
        few fit memory_fit room run)
