-- ===== src/Paging/Startup/Loops.antt =====
-- The loops of `vmm_init` of Kernel/src/mm/vmm.c against what they are to make of the page map.
use wheatley.Common.{
  ℕ, zero, suc, ◌+◌, ◌%◌, ◌^◌, ◌≤◌, bit_or, ◌≡◌, refl, sym, ap, ◌∙◌, inl, inr, true, false, Bool,
  if◌then◌else◌, ◌<◌, ◌≢◌, Option, some, List, [], ◌∷◌, arith, ◌==◌, Bool-cases,
}
use mathlib.Core.Path.{subst}
use wheatley.Common.{◌>>=◌}
use wheatley.Mm.Init.{Entry}
use wheatley.Paging.{Gives, PageSource, State, vmm_map_page}
use wheatley.Paging.Tree.{page_entry, walk, IsTree}
use wheatley.Paging.Covered.{HasTables, HasTables-region}
use wheatley.Paging.Again.{after, vmm_map_page-again}
use wheatley.Paging.Map.{
  write_entry_lem, SamePage, Map, mapped, exhausted, Mapped, vmm_map_page-Map,
}
use wheatley.Paging.Startup.{VmmEntry, offset_of, map_one, map_range, map_sections, map_memory}
use wheatley.Paging.Startup.Entries.{
  Entries, page_of, install, range, sections_on, memory_on, AllFit, MemoryFits, region_tables,
  starts, offset_of_lem, section_tables, memory_tables, range_start, range_next, indices-same,
}

module _ (P : PageSource) (top : ℕ) where
  -- The tables below `top` are a tree and say `m`, and `n` more pages may be asked for.
  pub record Stands (m : Entries) (n : ℕ) (st : State P) : Type 0 where
    pub role : ℕ → Option (List ℕ)
    pub tree : IsTree P st top role
    pub entries : (v : ℕ) → page_entry st.mem top v ≡ m v
    pub ready : P.IsReady n st.source

  -- A loop over pages returns, and the tables say `m`.
  pub data Filled (m : Entries) (n : ℕ) (r : Option (State P)) : Type 0 where
    filled : (st : State P) → r ≡ some st → Stands m n st → Filled m n r

  then-Filled :
      (m m' : Entries) (n n' : ℕ) (r : Option (State P)) (k : State P → Option (State P))
      → Filled m n r
      → ((st : State P) → Stands m n st → Filled m' n' (k st))
      → Filled m' n' (r >>= k)
  then-Filled m m' n n' r k (filled st e s) next =
      subst (Filled m' n') (sym (ap (λ x. x >>= k) e)) (next st s)

  -- The tables after one page more is mapped.
  pub Mapped-Stands :
      (m : Entries) (k n : ℕ) (st st' : State P) (virt value : ℕ)
      → Stands m k st
      → Mapped P st st' top virt value
      → P.IsReady n st'.source
      → Stands (install m virt value) n st'
  Mapped-Stands m k n st st' virt value s h ready = record {
    role = h.role;
    tree = h.tree;
    entries = λ v. elim (Bool-cases (page_of v == page_of virt)) [
      | inl same ↦
          let at : page_of v ≡ page_of virt = ground arith in
          rw same (ap (walk st'.mem top) (indices-same v virt at) ∙ h.here)
      | inr other ↦
          let ne : ¬ SamePage v virt = λ at. ground arith in
          rw other (h.elsewhere v ne ∙ s.entries v)
    ];
    ready = ready;
  }

  -- How the mapping of a page ends: as a loop does, and the tables for `v` are there.
  data FilledAt (v : ℕ) (m : Entries) (n : ℕ) (r : Option (State P)) : Type 0 where
    filled_at :
        (st : State P) → r ≡ some st → Stands m n st → HasTables st.mem top v → FilledAt v m n r

  then-FilledAt :
      (v : ℕ) (m m' : Entries) (n n' : ℕ) (r : Option (State P)) (k : State P → Option (State P))
      → FilledAt v m n r
      → ((st : State P) → Stands m n st → HasTables st.mem top v → Filled m' n' (k st))
      → Filled m' n' (r >>= k)
  then-FilledAt v m m' n n' r k (filled_at st e s t) next =
      subst (Filled m' n') (sym (ap (λ x. x >>= k) e)) (next st s t)

  -- A page with three pages at hand for its tables.
  map_one-new :
      Gives P
      → (m : Entries) (n : ℕ) (st : State P) (phys virt : ℕ) → Stands m (suc (suc (suc n))) st
      → FilledAt virt (install m virt (bit_or phys 0b11)) n (map_one P st top phys virt)
  unfolding map_one
  map_one-new gives m n st phys virt s = finish (
      vmm_map_page-Map P st (record { top_level = top; locked = false }) s.role phys virt 0b11 n
        s.tree refl s.ready)
    where
      finish :
          Map P st top virt
            (bit_or phys 0b11)
            n
            (vmm_map_page P st (some (record { top_level = top; locked = false })) phys virt 0b11)
          → FilledAt virt (install m virt (bit_or phys 0b11)) n (map_one P st top phys virt)
      finish (mapped st' e h ready) =
          filled_at st' (rw (e, map_one))
            (Mapped-Stands m (suc (suc (suc n))) n st st' virt (bit_or phys 0b11) s h ready)
            h.covered
      finish (exhausted st' before j e ready out) =
          absurd (gives j 0 before st'.source ready out refl)

  -- A page whose tables are there.
  map_one-again :
      (m : Entries) (n : ℕ) (st : State P) (phys virt : ℕ)
      → Stands m n st
      → HasTables st.mem top virt
      → FilledAt virt (install m virt (bit_or phys 0b11)) n (map_one P st top phys virt)
  unfolding map_one vmm_map_page
  map_one-again m n st phys virt s t =
      let value = bit_or phys 0b11 in
      let (e, h) = vmm_map_page-again P st top s.role s.tree virt value t in
      let st' = after P st top s.role s.tree virt value t in
      filled_at st'
        (ap (λ x. x >>= λ (written, x). some x)
          (write_entry_lem P st top s.role s.tree virt value n true ∙ e))
        (Mapped-Stands m n n st st' virt value s h s.ready) h.covered

  -- The tables for a page serve the next page, unless that starts a region.
  way_on :
      (mem : ℕ → ℕ) (virt j : ℕ)
      → j + 1 < 2 ^ 19
      → page_of virt + j + 1 < 2 ^ 36
      → HasTables mem top ((virt + offset_of j) % 2 ^ 64)
      → starts virt (j + 1) ≡ false
      → HasTables mem top ((virt + offset_of (j + 1)) % 2 ^ 64)
  way_on mem virt j few low t inside =
      HasTables-region mem top ((virt + offset_of j) % 2 ^ 64) ((virt + offset_of (j + 1)) % 2 ^ 64)
        (rw (offset_of_lem j (omega arith), offset_of_lem (j + 1) few)
          (let odd : (page_of virt + (j + 1)) % 512 ≢ 0 = λ z. ground arith in omega arith))
        t

  -- A page of a loop, with the pages that its tables may need at hand.
  map_one-Filled :
      Gives P
      → (m : Entries) (n : ℕ) (st : State P) (phys virt : ℕ) (b : Bool)
      → Stands m (if b then suc (suc (suc n)) else n) st
      → (b ≡ false → HasTables st.mem top virt)
      → FilledAt virt (install m virt (bit_or phys 0b11)) n (map_one P st top phys virt)
  map_one-Filled gives m n st phys virt true s way = map_one-new gives m n st phys virt s
  map_one-Filled gives m n st phys virt false s way = map_one-again m n st phys virt s (way refl)

  -- The loop over pages, where the tables for the first are there unless it starts a region.
  range_from :
      Gives P
      → (m : Entries) (n : ℕ) (st : State P) (phys virt j rounds : ℕ) → j + rounds ≤ 2 ^ 19
      → page_of virt + j + rounds ≤ 2 ^ 36
      → Stands m (region_tables virt j rounds n) st
      → (0 < rounds → starts virt j ≡ false → HasTables st.mem top ((virt + offset_of j) % 2 ^ 64))
      → Filled (range m phys virt j rounds) n (map_range P st top phys virt j rounds)
  unfolding map_range region_tables
  range_from gives m n st phys virt j zero few low s way =
      subst (λ x. Filled x n (some st)) (sym (range_start m phys virt j)) (filled st refl s)
  range_from gives m n st phys virt j (suc rounds) few low s way =
      let first = (virt + offset_of j) % 2 ^ 64 in
      let value = bit_or ((phys + offset_of j) % 2 ^ 64) 0b11 in
      let rest = region_tables virt (j + 1) rounds n in
      subst (λ x. Filled x n (map_range P st top phys virt j (suc rounds)))
        (range_next m phys virt j rounds (omega arith) (omega arith))
        (then-FilledAt first (install m first value) _ rest n _ _
          (map_one-Filled gives m rest st _ first (starts virt j) s (way (omega arith)))
          (λ st' s' t.
            range_from gives (install m first value) n st' phys virt (j + 1) rounds (omega arith)
              (omega arith) s'
              (λ some_left inside. way_on st'.mem virt j (omega arith) (omega arith) t inside)))

  pub map_range-Filled :
      Gives P
      → (m : Entries) (n : ℕ) (st : State P) (phys virt rounds : ℕ) → rounds ≤ 2 ^ 19
      → page_of virt + rounds ≤ 2 ^ 36
      → Stands m (region_tables virt 0 rounds n) st
      → Filled (range m phys virt 0 rounds) n (map_range P st top phys virt 0 rounds)
  map_range-Filled gives m n st phys virt rounds few low s =
      range_from gives m n st phys virt 0 rounds (omega arith) (omega arith) s
        (λ some_left inside. cc)

  pub map_sections-Filled :
      Gives P
      → (m : Entries) (n : ℕ) (st : State P) (sections : List VmmEntry) → AllFit sections
      → Stands m (section_tables sections n) st
      → Filled (sections_on m sections) n (map_sections P st top sections)
  unfolding map_sections section_tables
  map_sections-Filled gives m n st [] fit s = filled st refl s
  map_sections-Filled gives m n st (entry ∷ entries) ((few, low), fit) s =
      then-Filled _ _ _ n _ _
        (map_range-Filled gives m (section_tables entries n) st entry.phys_addr entry.virt_addr
          entry.pages (omega arith) (omega arith) s)
        (λ st' s'.
          map_sections-Filled gives (range m entry.phys_addr entry.virt_addr 0 entry.pages) n st'
            entries fit s')

  pub map_memory-Filled :
      Gives P
      → (m : Entries) (n : ℕ) (st : State P) (memory : List Entry) → MemoryFits memory
      → Stands m (memory_tables memory n) st
      → Filled (memory_on m memory) n (map_memory P st top memory)
  unfolding map_memory memory_tables
  map_memory-Filled gives m n st [] fit s = filled st refl s
  map_memory-Filled gives m n st (entry ∷ entries) ((few, low), fit) s =
      then-Filled _ _ _ n _ _
        (map_range-Filled gives m (memory_tables entries n) st entry.start entry.start entry.pages
          (omega arith) (omega arith) s)
        (λ st' s'.
          map_memory-Filled gives (range m entry.start entry.start 0 entry.pages) n st' entries fit
            s')
