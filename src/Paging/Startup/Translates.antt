-- ===== src/Paging/Startup/Translates.antt =====
-- `vmm_init` of Kernel/src/mm/vmm.c as a whole.
use wheatley.Common.{
  ℕ, suc, ◌/◌, ◌%◌, ◌^◌, ◌<◌, ◌≡◌, refl, sym, ap, ◌≢◌, inl, inr, false, Option, none, some, List,
  [], ◌∷◌, arith, ◌==◌, Bool-cases, update, fill,
}
use mathlib.Core.Path.{subst}
use wheatley.Common.{◌>>=◌}
use wheatley.Mm.Init.{Entry}
use wheatley.Paging.{Gives, PageSource, State, Memory, slot}
use wheatley.Paging.Masks.{is_present}
use wheatley.Paging.Tree.{walk_absent}
use wheatley.Paging.Startup.{VmmEntry, map_range, map_sections, map_memory, vmm_init}
use wheatley.Paging.Startup.Entries.{
  Entries, range, sections_on, memory_on, AllFit, MemoryFits, region_tables, section_tables,
  memory_tables,
}
use wheatley.Paging.Startup.Loops.{
  Stands, Filled, filled, map_range-Filled, map_sections-Filled, map_memory-Filled,
}

abbrev pub no_entries : Entries
no_entries v = 0

only : (top : ℕ) → ℕ → Option (List ℕ)
only top = update (λ _. none) top (some [])

only_inv : (top t : ℕ) (p : List ℕ) → only top t ≡ some p → top ≡ t
unfolding only
only_inv top t p e = ground arith

fill-zero : (mem : Memory) (top i : ℕ) → i < 512 → fill mem top 4096 0 (slot top i) ≡ 0
fill-zero mem top i lt = ground arith

fill-absent :
    (mem : Memory) (top i : ℕ) → i < 512 → is_present (fill mem top 4096 0 (slot top i)) ≡ false
fill-absent mem top i lt = ap is_present (fill-zero mem top i lt)

module _ (P : PageSource) where
  -- A new table with no entries, in a page of its own.
  pub new_table-Stands :
      (n top : ℕ) (mem : Memory) (before source : P.Source)
      → P.IsReady (suc n) before
      → P.IsReady n source
      → P.alloc before ≡ some (top, source)
      → top ≢ 0
      → Stands P top no_entries n (record { mem = fill mem top 4096 0; source = source })
  unfolding only
  new_table-Stands n top mem before source ready later e ne = record {
    role = only top;
    tree = record {
      root = ground arith;
      owned = λ t p at.
          let (own, not_before) = P.alloc_fresh n top before source ready e ne in
          subst (P.Owned source) (only_inv top t p at) own;
      down = λ t i p at len lt on.
          let off : is_present (fill mem top 4096 0 (slot t i)) ≡ false =
            subst (λ x. is_present (fill mem top 4096 0 (slot x i)) ≡ false) (only_inv top t p at)
              (fill-absent mem top i lt) in
          cc;
    };
    entries = λ v.
        walk_absent (fill mem top 4096 0) top (v / 2 ^ 39 % 512) (v / 2 ^ 30 % 512)
          ((v / 2 ^ 21 % 512) ∷ (v / 2 ^ 12 % 512) ∷ [])
          (fill-absent mem top (v / 2 ^ 39 % 512) (omega arith));
    ready = later;
  }

  -- What the kernel's page map says: the sections, over them the memory map, and over both the first
  -- 256 MB at their own addresses.
  abbrev pub kernel_entries : List VmmEntry → List Entry → Entries
  kernel_entries sections memory =
      range (memory_on (sections_on no_entries sections) memory) 0 0 0 0x10000

  abbrev pub kernel_tables : List VmmEntry → List Entry → (n : ℕ) → ℕ
  kernel_tables sections memory n =
      section_tables sections (memory_tables memory (region_tables 0 0 0x10000 n))

  pub data Booted (m : Entries) (n : ℕ) (r : Option (ℕ × State P)) : Type 0 where
    booted : (top : ℕ) (st : State P) → r ≡ some (top, st) → Stands P top m n st → Booted m n r

  then-Booted :
      (m m' : Entries) (n n' top : ℕ) (r : Option (State P)) (k : State P → Option (ℕ × State P))
      → Filled P top m n r
      → ((st : State P) → Stands P top m n st → Booted m' n' (k st))
      → Booted m' n' (r >>= k)
  then-Booted m m' n n' top r k (filled st e s) next =
      subst (Booted m' n') (sym (ap (λ x. x >>= k) e)) (next st s)

  -- The loops, once there is a top table.
  loops-Booted :
      Gives P
      → (n top : ℕ) (st : State P) (sections : List VmmEntry) (memory : List Entry)
      → AllFit sections
      → MemoryFits memory
      → Stands P top no_entries (kernel_tables sections memory n) st
      → Booted (kernel_entries sections memory) n (
          map_sections P st top sections >>= λ st1. map_memory P st1 top memory >>= λ st2.
          map_range P st2 top 0 0 0 0x10000 >>= λ st3. some (top, st3))
  loops-Booted gives n top st sections memory fit memory_fit s =
      let m1 = sections_on no_entries sections in
      let n1 = memory_tables memory (region_tables 0 0 0x10000 n) in
      then-Booted m1 _ n1 n top _ _
        (map_sections-Filled P top gives no_entries n1 st sections fit s)
        λ st1 s1.
          then-Booted (memory_on m1 memory) _ (region_tables 0 0 0x10000 n) n top _ _
            (map_memory-Filled P top gives m1 (region_tables 0 0 0x10000 n) st1 memory memory_fit
              s1)
            λ st2 s2.
              then-Booted (kernel_entries sections memory) _ n n top _ _
                (map_range-Filled P top gives (memory_on m1 memory) n st2 0 0 0x10000 (omega arith)
                  (omega arith) s2)
                λ st3 s3. booted top st3 refl s3

  -- `vmm_init`, with a source that gives one page and three for each region of 2 MB that a loop comes
  -- to, and with sections and memory of at most 2 GB each: it returns a top table through which the
  -- processor finds each page as the last of the loops that covers it says, and no entry for any
  -- other page.
  pub vmm_init-Booted :
      Gives P
      → (n : ℕ) (st : State P) (sections : List VmmEntry) (memory : List Entry) → AllFit sections
      → MemoryFits memory
      → P.IsReady (suc (kernel_tables sections memory n)) st.source
      → Booted (kernel_entries sections memory) n (vmm_init P st sections memory)
  unfolding vmm_init
  vmm_init-Booted gives n st sections memory fit memory_fit ready =
      let (top, source, e, later) =
        P.alloc_returns (kernel_tables sections memory n) st.source ready in
      elim (Bool-cases (top == 0)) [
        | inl null ↦
            let z : top ≡ 0 = ground arith in
            absurd (gives (kernel_tables sections memory n) top st.source source ready e z)
        | inr there ↦
            let ne : top ≢ 0 = λ z. ground arith in
            rw e (
              loops-Booted gives n top _ sections memory fit memory_fit (
                new_table-Stands (kernel_tables sections memory n) top st.mem st.source source ready
                  later e ne))
      ]
