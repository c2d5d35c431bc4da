-- ===== src/Paging/Boot.antt =====
-- `Paging_MapPage` of Bootloader/src/paging.c beside `vmm_map_page` of Kernel/src/mm/vmm.c.
use wheatley.Common.{ℕ, ◌≡◌, refl, ◌≢◌, Bool, true, false, Option, some, arith, ◌==◌}
use wheatley.Paging.{
  PageSource, State, get_next_level, descend, write_at, write_entry, vmm_map_page,
  paging_get_next_level, paging_descend, paging_map_page,
}

module _ (P : PageSource) where
  next-eq : (st : State P) (t i : ℕ) → paging_get_next_level P st t i ≡ get_next_level P st t i true
  unfolding paging_get_next_level get_next_level
  next-eq st t i = refl

  descend-eq :
      (st : State P) (t i : ℕ) (k : ℕ → State P → Option (Bool × State P))
      → paging_descend P st t i k ≡ descend P st t i true k
  unfolding paging_descend descend paging_get_next_level get_next_level
  descend-eq st t i k = refl

  -- Over the same source of pages, the boot loader maps a page of a table that is not NULL exactly
  -- as the kernel does through an unlocked page map with that table, memory included.
  pub paging_map_page-vmm_map_page :
      (st : State P) (top phys virt flags : ℕ)
      → top ≢ 0
      → paging_map_page P st top phys virt flags
        ≡ vmm_map_page P st (some (record { top_level = top; locked = false })) phys virt flags
  unfolding paging_map_page vmm_map_page write_entry write_at paging_descend descend
      paging_get_next_level get_next_level
  paging_map_page-vmm_map_page st top phys virt flags ne =
      let null : (top == 0) ≡ false = ground arith in rw null
