-- ===== src/Madt/Mapping.antt =====
-- The page map of the kernel after `madt_init` of Kernel/src/fw/madt.c, which maps the page of the local
-- APIC's registers.
use wheatley.Common.{ℕ, suc, ◌+◌, ◌<◌, ◌≡◌, refl, Option, List, [], ◌∷◌}
use wheatley.Madt.{Memory, Madt, length_of, madt_init, done}
use wheatley.Madt.Walk.{Records, IsRecord, Fits}
use wheatley.Madt.Sorted.{Few, Sorted, no_records, madt_init-Sorted}
use wheatley.Paging.{Gives, PageSource, State}
use wheatley.Paging.Tree.{IsTree}
use wheatley.Paging.Identity.{map_each, MapsSelves, map_each-MapsSelves}

module _ (mem : Memory) (madt table_length lapic_address : ℕ) (there : 0 < madt)
    (fits : Fits mem (madt + table_length)) (long : 0x2c < table_length)
    (nonzero : (r : ℕ) → IsRecord mem (madt + table_length) (madt + 0x2c) r → 0 < length_of mem r)
    (few : (rs : List ℕ) → Records mem (madt + table_length) (madt + 0x2c) rs → Few mem rs)
    (P : PageSource) (top : ℕ) where
  -- For a table at an address that is not NULL, longer than its header, within 64 bits, whose records
  -- have lengths other than 0 and which has fewer than 256 records of each type: with the table's
  -- length as fuel `madt_init` ends, each array holds the addresses of all records of its type in
  -- the table's order, and the local APIC's address is the last record's that overrides it, or the
  -- header's. In a page map that is a tree, with a source that gives three pages, its call of
  -- vmm_map_page leaves the page of that address present, writable and leading to itself, and every
  -- other page with the entry that it had.
  pub madt_init-Maps :
      Gives P
      → (n : ℕ) (st : State P) (role : ℕ → Option (List ℕ)) → IsTree P st top role
      → P.IsReady (suc (suc (suc n))) st.source
      → (rs : List ℕ) × (m : Madt) × (mapped : List ℕ) × Records mem
          (madt + table_length)
          (madt + 0x2c)
          rs
        × (madt_init mem table_length madt table_length lapic_address no_records ≡ done m mapped)
        × Sorted mem lapic_address rs m
        × (mapped ≡ m.lapic_addr ∷ [])
        × MapsSelves P top st mapped n (map_each P top st mapped)
  madt_init-Maps gives n st role tree some_pages =
      let (rs, m, chain, e, sorted) =
        madt_init-Sorted mem madt table_length lapic_address there fits long nonzero few in
      (
        rs,
        m,
        m.lapic_addr ∷ [],
        chain,
        e,
        sorted,
        refl,
        map_each-MapsSelves P top gives n st role (m.lapic_addr ∷ []) tree some_pages,
      )
