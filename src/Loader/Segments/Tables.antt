-- ===== src/Loader/Segments/Tables.antt =====
-- The page tables of Bootloader/src/main.c after the segments and the stack are mapped.
use wheatley.Common.{
  ℕ, zero, suc, ◌+◌, ◌≡◌, refl, sym, ap, ◌∙◌, ◌≢◌, some, List, [], ◌∷◌, ◌++◌, arith,
}
use Prim.Native.String.{String}
use mathlib.Core.Path.{subst}
use mathlib.Core.List.{append_assoc, append-nil}
use wheatley.Common.{Result, ok, and_then-ok, ok_inj, needed}
use wheatley.Paging.{PageSource, State}
use wheatley.Paging.Startup.{VmmEntry}
use wheatley.Paging.Startup.Entries.{Entries, range, sections_on, Fits, AllFit, tables}
use wheatley.Paging.Startup.Loops.{Stands}
use wheatley.Loader.Segments.{
  ProgramHeader, Efi, Progress, elf_segt_load, page_count, entry_of, push_entry, map_pages,
  load_segment, load_segments, define_stack,
}
use wheatley.Loader.Segments.Mapped.{Placed, placed, out, map_pages-Placed}
use wheatley.Loader.Segments.Entries.{Header, is_null, is_load, load_segment-Header, push_entry-ok}

-- Three tables for each page of the sections, and `n` more.
unfoldable pub page_tables : List VmmEntry → (n : ℕ) → ℕ
page_tables [] n = n
page_tables (entry ∷ entries) n = tables entry.pages (page_tables entries n)

-- The kernel's segments are aligned to pages.
abbrev pub IsAligned : Efi → Type 0
IsAligned efi =
    (position : ℕ) (phdr : ProgramHeader)
    → efi.read_header position ≡ some phdr
    → phdr.type ≡ elf_segt_load
    → phdr.alignment ≡ 4096

abbrev pub stack_section : ℕ → VmmEntry
stack_section stack = record { phys_addr = stack; virt_addr = stack; pages = 8 }

module _ (P : PageSource) (efi : Efi) (cur_page : ℕ) (there : cur_page ≢ 0) where
  Placed-ok :
      (msg : String) (m : Entries) (n : ℕ) (r : Result (State P)) (st : State P)
      → Placed P cur_page msg m n r
      → r ≡ ok st
      → Stands P cur_page m n st
  Placed-ok msg m n r st (placed st' e s) q =
      subst (Stands P cur_page m n) (ok_inj st' st (sym e ∙ q)) s
  Placed-ok msg m n r st (out before after e none_left) q = cc (sym e ∙ q)

  -- What a call of `map_pages` that returns makes of the tables.
  mapped-Stands :
      (msg : String) (m : Entries) (n : ℕ) (st st' : State P) (entry : VmmEntry)
      → map_pages P st cur_page entry.phys_addr entry.virt_addr 4096 0 entry.pages msg ≡ ok st'
      → Fits entry.virt_addr entry.pages
      → Stands P cur_page m (tables entry.pages n) st
      → Stands P cur_page (range m entry.phys_addr entry.virt_addr 0 entry.pages) n st'
  mapped-Stands msg m n st st' entry e (few, low) s =
      Placed-ok msg _ n _ st'
        (map_pages-Placed P cur_page msg there m n st entry.phys_addr entry.virt_addr 0 entry.pages
          (omega arith) (omega arith) s)
        e

  -- The sections that are added to `p` stand in the tables of `p'`.
  abbrev pub Maps : (p p' : Progress P) → List VmmEntry → Type 0
  Maps p p' es =
      (p'.entries ≡ p.entries ++ es)
      × ((m : Entries) (n : ℕ)
          → AllFit es
          → Stands P cur_page m (page_tables es n) p.tables
          → Stands P cur_page (sections_on m es) n p'.tables)

  module _ (aligned : IsAligned efi) (phdr_table phdr_entry_size : ℕ) where
    step-Maps :
        (p p1 p' : Progress P) (i : ℕ) (es : List VmmEntry)
        → Header P efi cur_page phdr_table phdr_entry_size p p1 i
        → Maps p1 p' es
        → (es' : List VmmEntry) × Maps p p' es'
    unfolding page_tables entry_of page_count
    step-Maps p p1 p' i es (is_null phdr at empty same) maps =
        (es, subst (λ x. Maps x p' es) (sym same) maps)
    step-Maps p p1 p' i es (is_load phdr phys at is given adds) (more, stands) = (
      entry_of phdr phys ∷ es,
      (
        more ∙ ap (λ x. x ++ es) adds.entries ∙ append_assoc p.entries (entry_of phdr phys ∷ []) es,
        λ m n (fit, fits) s.
            let whole = aligned _ phdr at is in
            stands _ n fits (
              mapped-Stands "failed to map page" m (page_tables es n) p.tables p1.tables
                (entry_of phdr phys)
                (subst
                  (λ a.
                    map_pages P p.tables cur_page phys phdr.vaddr a 0 (page_count phdr)
                      "failed to map page"
                    ≡ ok p1.tables)
                  whole adds.mapped)
                fit s),
      ),
    )

    -- When the loop over the program headers returns, the tables have the sections that it added.
    pub load_segments-Maps :
        (p p' : Progress P) (i rounds : ℕ)
        → load_segments P efi cur_page p phdr_table phdr_entry_size i rounds ≡ ok p'
        → (es : List VmmEntry) × Maps p p' es
    unfolding load_segments page_tables
    load_segments-Maps p p' i zero e =
        let same = ok_inj p p' e in
        (
          [],
          (
            ap (λ x. x.entries) (sym same) ∙ sym (append-nil p.entries),
            λ m n fit s. subst (λ x. Stands P cur_page m n x.tables) same s,
          ),
        )
    load_segments-Maps p p' i (suc rounds) e =
        let (p1, first, rest) =
          and_then-ok (load_segment P efi cur_page p phdr_table phdr_entry_size i) _ p' e in
        let (es, maps) = load_segments-Maps p1 p' (i + 1) rounds rest in
        step-Maps p p1 p' i es
          (load_segment-Header P efi cur_page phdr_table phdr_entry_size p p1 i first) maps

  pub define_stack-Maps :
      (p p' : Progress P) (call stack : ℕ)
      → define_stack P efi cur_page p call ≡ ok (stack, p')
      → Maps p p' (stack_section stack ∷ [])
  unfolding define_stack page_tables
  define_stack-Maps p p' call stack e =
      let (s, at, e1) = needed (efi.allocate_pages call 8) _ _ (stack, p') e (λ q. cc q) in
      let (tables, mapped, e2) =
        and_then-ok (map_pages P p.tables cur_page s s 0x1000 0 8 "failed to map the stack") _
          (stack, p') e1 in
      let (entries, pushed, e3) =
        and_then-ok (push_entry p.entries (stack_section s)) _ (stack, p') e2 in
      let (few, same) = push_entry-ok p.entries entries _ pushed in
      let all = ok_inj _ (stack, p') e3 in
      subst (λ x. Maps p x.1 (stack_section x.0 ∷ [])) all
        (
          sym same,
          λ m n (fit, end) st.
              mapped-Stands "failed to map the stack" m n p.tables tables (stack_section s) mapped
                fit st,
        )

page_tables-append :
    (es fs : List VmmEntry) (n : ℕ) → page_tables (es ++ fs) n ≡ page_tables es (page_tables fs n)
unfolding page_tables
page_tables-append [] fs n = refl
page_tables-append (e ∷ es) fs n = ap (tables e.pages) (page_tables-append es fs n)

sections_on-append :
    (es fs : List VmmEntry) (m : Entries)
    → sections_on m (es ++ fs) ≡ sections_on (sections_on m es) fs
sections_on-append [] fs m = refl
sections_on-append (e ∷ es) fs m = sections_on-append es fs _

AllFit-append : (es fs : List VmmEntry) → AllFit (es ++ fs) → AllFit es × AllFit fs
AllFit-append [] fs fits = (tt, fits)
AllFit-append (e ∷ es) fs (fit, fits) = let (l, r) = AllFit-append es fs fits in ((fit, l), r)

-- What one part maps, and then another.
pub Maps-then :
    (P : PageSource) (cur_page : ℕ) (efi : Efi) (there : cur_page ≢ 0) (p p1 p2 : Progress P)
    (es fs : List VmmEntry)
    → Maps P efi cur_page there p p1 es
    → Maps P efi cur_page there p1 p2 fs
    → Maps P efi cur_page there p p2 (es ++ fs)
Maps-then P cur_page efi there p p1 p2 es fs (more, stands) (more', stands') = (
  more' ∙ ap (λ x. x ++ fs) more ∙ append_assoc p.entries es fs,
  λ m n fits s.
      let (fit, fit') = AllFit-append es fs fits in
      subst (λ x. Stands P cur_page x n p2.tables) (sym (sections_on-append es fs m))
        (stands' (sections_on m es) n fit' (
          stands m (page_tables fs n) fit
            (subst (λ k. Stands P cur_page m k p.tables) (page_tables-append es fs n) s))),
)
