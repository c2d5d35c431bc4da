-- ===== src/Loader/Main/Agreement.antt =====
-- The page tables that Bootloader/src/main.c jumps with, and those that Kernel/src/mm/vmm.c makes of what
-- it hands over.
use wheatley.Common.{
  ℕ, suc, ◌+◌, ◌*◌, ◌^◌, ◌≤◌, ◌<◌, ◌≡◌, refl, sym, ap, ◌∙◌, ◌≢◌, inl, inr, Bool, true, false, ◌&&◌,
  ◌||◌, some, List, [], ◌∷◌, ◌++◌, arith, ltb, leb, Bool-cases,
}
use mathlib.Core.Path.{subst}
use wheatley.Common.{ok}
use wheatley.Mm.{Mm, alloc_max_size}
use wheatley.Mm.Init.{Entry, alloc_pages, find_space}
use wheatley.Mm.Init.FreePages.{bitmap_size}
use wheatley.Mm.Init.Blocks.{IsValid}
use wheatley.Mm.Init.Sound.{used_count}
use wheatley.Paging.{PageSource, State, Memory}
use wheatley.Paging.Tree.{page_entry}
use wheatley.Paging.Kernel.{kernel_pages}
use wheatley.Paging.Startup.{VmmEntry}
use wheatley.Paging.Startup.Entries.{Entries, page_of, sections_on, memory_on, AllFit, MemoryFits}
use wheatley.Paging.Startup.Loops.{Stands}
use wheatley.Paging.Startup.Translates.{Booted, booted, no_entries, kernel_entries, kernel_tables}
use wheatley.Paging.Startup.Allocator.{HasRun, memory_init, memory_init-Booted}
use wheatley.Loader.Segments.Tables.{
  IsAligned, page_tables, load_segments-Maps, stack_section, define_stack-Maps, Maps-then,
}
use wheatley.Loader.Main.{Machine, Handoff, handoff_entry, handoff_of, efi_main}
use wheatley.Loader.Main.HandedOver.{efi_main-Stages, prepare_handoff-ok}

-- The page of `v` is one of those of the entry.
abbrev pub in_section : VmmEntry → (v : ℕ) → Bool
in_section entry v =
    leb (page_of entry.virt_addr) (page_of v)
    && ltb (page_of v) (page_of entry.virt_addr + entry.pages)

abbrev pub in_sections : List VmmEntry → (v : ℕ) → Bool
in_sections [] v = false
in_sections (entry ∷ entries) v = let rest = in_sections entries v in in_section entry v || rest

abbrev pub in_memory : List Entry → (v : ℕ) → Bool
in_memory [] v = false
in_memory (entry ∷ entries) v =
    let rest = in_memory entries v in
    leb (page_of entry.start) (page_of v) && ltb (page_of v) (page_of entry.start + entry.pages)
    || rest

sections_on-same :
    (es : List VmmEntry) (m m' : Entries) (v : ℕ)
    → m v ≡ m' v
    → sections_on m es v ≡ sections_on m' es v
sections_on-same [] m m' v e = e
sections_on-same (entry ∷ es) m m' v e = sections_on-same es _ _ v (ground arith)

-- Of a page that lies in a section, what was said before does not matter.
sections_on-any :
    (es : List VmmEntry) (m m' : Entries) (v : ℕ)
    → in_sections es v ≡ true
    → sections_on m es v ≡ sections_on m' es v
sections_on-any [] m m' v inside = cc inside
sections_on-any (entry ∷ es) m m' v inside = elim (Bool-cases (in_section entry v)) [
  | inl here ↦ sections_on-same es _ _ v (ground arith)
  | inr before ↦ sections_on-any es _ _ v (ground arith)
]

memory_on-outside :
    (es : List Entry) (m : Entries) (v : ℕ) → in_memory es v ≡ false → memory_on m es v ≡ m v
memory_on-outside [] m v out = refl
memory_on-outside (entry ∷ es) m v out = memory_on-outside es _ v (ground arith) ∙ ground arith

-- The sections behind the hand-over's own: the segments and the stack.
abbrev pub behind_first : List VmmEntry → List VmmEntry
behind_first [] = []
behind_first (entry ∷ entries) = entries

AllFit-behind : (es : List VmmEntry) → AllFit es → AllFit (behind_first es)
AllFit-behind [] fits = tt
AllFit-behind (e ∷ es) (fit, fits) = fits

module _ (P : PageSource) (m : Machine) (there : m.cur_page ≢ 0) (aligned : IsAligned m.efi)
    (st st' : State P) (h : Handoff) (e : efi_main P m st ≡ ok (h, st')) where
  -- The tables of the jump have the segments and the stack.
  efi_main-Stands :
      (before : Entries) (n : ℕ)
      → AllFit (behind_first h.vmm_entry)
      → Stands P m.cur_page before (page_tables (behind_first h.vmm_entry) n) st
      → (first : VmmEntry) × (h.vmm_entry ≡ first ∷ behind_first h.vmm_entry)
        × Stands P m.cur_page (sections_on before (behind_first h.vmm_entry)) n st'
  unfolding handoff_of
  efi_main-Stands before n fits stands =
      let s = efi_main-Stages P m st st' h e in
      let (handoff, at, one) = prepare_handoff-ok m s.first s.prepared in
      let (es, maps) =
        load_segments-Maps P m.efi m.cur_page there aligned m.phdr_table m.phdr_entry_size
          (record { tables = st; entries = s.first; actions = [] }) s.loaded 0 m.phdr_entries_num
          s.loads in
      let (all, on_all) =
        Maps-then P m.cur_page m.efi there (record { tables = st; entries = s.first; actions = [] })
          s.loaded s.last es (stack_section s.stack ∷ []) maps
          (define_stack-Maps P m.efi m.cur_page there s.loaded s.last m.phdr_entries_num s.stack
            s.defined) in
      let is : h.vmm_entry ≡ handoff_entry m handoff ∷ (es ++ (stack_section s.stack ∷ [])) =
        ap (λ x. x.vmm_entry) (sym s.handed)
        ∙ all
        ∙ ap (λ x. x ++ (es ++ (stack_section s.stack ∷ []))) (sym one) in
      let rest : es ++ (stack_section s.stack ∷ []) ≡ behind_first h.vmm_entry =
        sym (ap behind_first is) in
      (
        handoff_entry m handoff,
        is ∙ ap (λ x. handoff_entry m handoff ∷ x) rest,
        subst (λ x. Stands P m.cur_page (sections_on before (behind_first h.vmm_entry)) n x)
            s.tables
            (subst
              (λ x.
                AllFit x
                → Stands P m.cur_page before (page_tables x n) st
                → Stands P m.cur_page (sections_on before x) n s.last.tables)
              rest (on_all before n) fits stands),
      )

  -- The kernel comes to a page map of its own, in which the page of `v` is where it was.
  pub data Agrees (allocator : Mm) (mem : Memory) (v : ℕ) : Type 0 where
    agrees :
        (top : ℕ) (kernel : State kernel_pages)
        → memory_init allocator mem h.vmm_entry h.pmm_entry ≡ some (top, kernel)
        → page_entry kernel.mem top v ≡ page_entry st'.mem m.cur_page v
        → Agrees allocator mem v

  kernel_entries-sections_on :
      (before : Entries) (first : VmmEntry) (v : ℕ)
      → h.vmm_entry ≡ first ∷ behind_first h.vmm_entry
      → in_sections (behind_first h.vmm_entry) v ≡ true
      → in_memory h.pmm_entry v ≡ false
      → 0x10000 ≤ page_of v
      → kernel_entries kernel_pages h.vmm_entry h.pmm_entry v
        ≡ sections_on before (behind_first h.vmm_entry) v
  kernel_entries-sections_on before first v is inside out high =
      let all = sections_on no_entries h.vmm_entry in
      let above : kernel_entries kernel_pages h.vmm_entry h.pmm_entry v
          ≡ memory_on all h.pmm_entry v =
        ground arith in
      above
      ∙ memory_on-outside h.pmm_entry all v out
      ∙ ap (λ x. sections_on no_entries x v) is
      ∙ sections_on-any (behind_first h.vmm_entry) _ before v inside

  -- When the boot loader comes to the jump, with its segments aligned to pages and into tables with three
  -- pages left for each page mapped, and the kernel then sets up its allocator and its page map from what
  -- it was handed: under the conditions for these to return, enough free pages among them, each page
  -- of a segment or of the stack that is in no entry of the memory map and not in the first 256 MB has
  -- the same entry in the kernel's page map as in the boot loader's.
  pub efi_main-Agrees :
      (before : Entries)
      → Stands P m.cur_page before (page_tables (behind_first h.vmm_entry) 0) st
      → (allocator : Mm) (mem : Memory) (start : ℕ) → allocator.locked ≡ false
      → allocator.alloc_count ≡ 0
      → find_space h.pmm_entry (alloc_pages + bitmap_size allocator h.pmm_entry) ≢ 0
      → IsValid (bitmap_size allocator h.pmm_entry) h.pmm_entry
      → bitmap_size allocator h.pmm_entry * 8 < 2 ^ 31
      → AllFit h.vmm_entry
      → MemoryFits h.pmm_entry
      → used_count h.pmm_entry + suc (kernel_tables kernel_pages h.vmm_entry h.pmm_entry 0)
        ≤ alloc_max_size
      → HasRun allocator h.pmm_entry start
          (suc (kernel_tables kernel_pages h.vmm_entry h.pmm_entry 0))
      → (v : ℕ) → in_sections (behind_first h.vmm_entry) v ≡ true
      → in_memory h.pmm_entry v ≡ false
      → 0x10000 ≤ page_of v
      → Agrees allocator mem v
  efi_main-Agrees before stands allocator mem start idle blank space valid few fit memory_fit room
        run v inside out high =
      let (first, is, on_jump) = efi_main-Stands before 0 (AllFit-behind h.vmm_entry fit) stands in
      finish first is on_jump (
        memory_init-Booted 0 allocator mem h.vmm_entry h.pmm_entry start idle blank space valid few
          fit memory_fit room run)
    where
      finish :
          (first : VmmEntry)
          → h.vmm_entry ≡ first ∷ behind_first h.vmm_entry
          → Stands P m.cur_page (sections_on before (behind_first h.vmm_entry)) 0 st'
          → Booted kernel_pages
              (kernel_entries kernel_pages h.vmm_entry h.pmm_entry)
              0
              (memory_init allocator mem h.vmm_entry h.pmm_entry)
          → Agrees allocator mem v
      finish first is on_jump (booted top kernel e s) = agrees top kernel e (
          s.entries v
          ∙ kernel_entries-sections_on before first v is inside out high
          ∙ sym (on_jump.entries v))
