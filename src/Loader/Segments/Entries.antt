-- ===== src/Loader/Segments/Entries.antt =====
-- Which entries and actions the loop over program headers of Bootloader/src/main.c makes.
use wheatley.Common.{
  ℕ, zero, suc, ◌+◌, ◌*◌, ◌%◌, ◌^◌, ◌≤◌, ◌<◌, ◌≡◌, sym, ap, ◌∙◌, inl, inr, not, some, List, [], ◌∷◌,
  ◌++◌, arith, ltb, ◌==◌, if◌then◌else◌, Bool-cases, length, length-append,
}
use mathlib.Core.Path.{subst}
use mathlib.Core.List.{append-nil, append_assoc}
use wheatley.Common.{ok, failed_assertion, fault, and_then-ok, passed_not, ok_inj, needed}
use wheatley.Paging.{PageSource}
use wheatley.Paging.Startup.{VmmEntry}
use wheatley.Loader.Segments.{
  ProgramHeader, elf_segt_null, elf_segt_load, Efi, Action, clear, load, push_entry, page_count,
  entry_of, Progress, map_pages, place_segment, load_segment, load_segments,
}

-- What the headers from number `i` on, `rounds` of them, ask for: nothing for the null type; for LOAD
-- an entry for the memory that was allocated, which is cleared and filled from the file.
pub data Loads (efi : Efi) (phdr_table phdr_entry_size : ℕ)
    : (i rounds : ℕ) → List VmmEntry → List Action → Type 0 where
  no_more : {i : ℕ} → Loads efi phdr_table phdr_entry_size i zero [] []
  null :
      {i rounds : ℕ} {entries : List VmmEntry} {actions : List Action} (phdr : ProgramHeader)
      → efi.read_header ((phdr_table + i * phdr_entry_size) % 2 ^ 64) ≡ some phdr
      → phdr.type ≡ elf_segt_null
      → Loads efi phdr_table phdr_entry_size (i + 1) rounds entries actions
      → Loads efi phdr_table phdr_entry_size i (suc rounds) entries actions
  segment :
      {i rounds : ℕ} {entries : List VmmEntry} {actions : List Action} (phdr : ProgramHeader)
      (phys : ℕ)
      → efi.read_header ((phdr_table + i * phdr_entry_size) % 2 ^ 64) ≡ some phdr
      → phdr.type ≡ elf_segt_load
      → efi.allocate_pages i (page_count phdr) ≡ some phys
      → Loads efi phdr_table phdr_entry_size (i + 1) rounds entries actions
      → Loads efi phdr_table phdr_entry_size i
          (suc rounds)
          (entry_of phdr phys ∷ entries)
          (clear phys phdr.memsz ∷ load phdr.offset phdr.filesz phys ∷ actions)

pub push_entry-ok :
    (entries entries' : List VmmEntry) (entry : VmmEntry)
    → push_entry entries entry ≡ ok entries'
    → (length entries < 6) × (entries ++ (entry ∷ []) ≡ entries')
unfolding push_entry
push_entry-ok entries entries' entry e = elim (Bool-cases (ltb (length entries) 6)) [
  | inl few ↦
      let got : ok (entries ++ (entry ∷ [])) ≡ ok entries' = ground arith in (ground arith, cc got)
  | inr full ↦ let got : fault ≡ ok entries' = ground arith in cc got
]

module _ (P : PageSource) (efi : Efi) (cur_page phdr_table phdr_entry_size : ℕ) where
  -- What one more segment adds.
  pub record Adds (p p' : Progress P) (phdr : ProgramHeader) (phys : ℕ) : Type 0 where
    pub few : length p.entries < 6
    pub entries : p'.entries ≡ p.entries ++ (entry_of phdr phys ∷ [])
    pub actions :
        p'.actions ≡ p.actions ++ (clear phys phdr.memsz ∷ load phdr.offset phdr.filesz phys ∷ [])
    pub mapped :
        map_pages P p.tables cur_page phys phdr.vaddr phdr.alignment 0
          (page_count phdr)
          "failed to map page"
        ≡ ok p'.tables

  place_segment-Adds :
      (p p' : Progress P) (i : ℕ) (phdr : ProgramHeader)
      → place_segment P efi cur_page p i phdr ≡ ok p'
      → (phys : ℕ) × (efi.allocate_pages i (page_count phdr) ≡ some phys) × Adds p p' phdr phys
  unfolding place_segment
  place_segment-Adds p p' i phdr e =
      let (ne, e1) = passed_not (phdr.alignment == 0) _ _ p' e (λ q. cc q) in
      let (phys, at, e2) = needed (efi.allocate_pages i (page_count phdr)) _ _ p' e1 (λ q. cc q) in
      let (tables, mapped, e3) =
        and_then-ok
          (map_pages P p.tables cur_page phys phdr.vaddr phdr.alignment 0 (page_count phdr)
            "failed to map page")
          _ p' e2 in
      let (entries, pushed, e4) = and_then-ok (push_entry p.entries (entry_of phdr phys)) _ p' e3 in
      let (few, same) = push_entry-ok p.entries entries (entry_of phdr phys) pushed in
      let (moved, e5) = passed_not (not (efi.set_position phdr.offset)) _ _ p' e4 (λ q. cc q) in
      let (was_read, e6) =
        passed_not (not (efi.read phdr.offset phdr.filesz)) _ _ p' e5 (λ q. cc q) in
      let same_all = ok_inj _ p' e6 in
      (
        phys,
        at,
        record {
          few = few;
          entries = sym (ap (λ x. x.entries) same_all) ∙ sym same;
          actions = sym (ap (λ x. x.actions) same_all);
          mapped = mapped ∙ ap (λ x. ok x.tables) same_all;
        },
      )

  -- The three ways of a header.
  pub data Header (p p' : Progress P) (i : ℕ) : Type 0 where
    is_null :
        (phdr : ProgramHeader)
        → efi.read_header ((phdr_table + i * phdr_entry_size) % 2 ^ 64) ≡ some phdr
        → phdr.type ≡ elf_segt_null
        → p ≡ p'
        → Header p p' i
    is_load :
        (phdr : ProgramHeader) (phys : ℕ)
        → efi.read_header ((phdr_table + i * phdr_entry_size) % 2 ^ 64) ≡ some phdr
        → phdr.type ≡ elf_segt_load
        → efi.allocate_pages i (page_count phdr) ≡ some phys
        → Adds p p' phdr phys
        → Header p p' i

  pub load_segment-Header :
      (p p' : Progress P) (i : ℕ)
      → load_segment P efi cur_page p phdr_table phdr_entry_size i ≡ ok p'
      → Header p p' i
  unfolding load_segment
  load_segment-Header p p' i e =
      let position = (phdr_table + i * phdr_entry_size) % 2 ^ 64 in
      let (moved, e1) = passed_not (not (efi.set_position position)) _ _ p' e (λ q. cc q) in
      let (phdr, at, e2) = needed (efi.read_header position) _ _ p' e1 (λ q. cc q) in
      elim (Bool-cases (phdr.type == elf_segt_null)) [
        | inl nothing ↦
            let same : ok p ≡ ok p' = ground arith in
            is_null phdr at (ground arith) (ok_inj p p' same)
        | inr more ↦
            let e3 : (if not (phdr.type == elf_segt_load)
                  then failed_assertion
                  else place_segment P efi cur_page p i phdr)
                ≡ ok p' =
              ground arith in
            let (is_loaded, e4) =
              passed_not (not (phdr.type == elf_segt_load)) _ _ p' e3 (λ q. cc q) in
            let (phys, given, adds) = place_segment-Adds p p' i phdr e4 in
            is_load phdr phys at (ground arith) given adds
      ]

  -- Where the loop over the headers ends.
  abbrev pub Loaded : (p p' : Progress P) (i rounds : ℕ) → Type 0
  Loaded p p' i rounds =
      (entries : List VmmEntry) × (actions : List Action) × Loads efi phdr_table phdr_entry_size i
        rounds entries actions
      × (p'.entries ≡ p.entries ++ entries)
      × (p'.actions ≡ p.actions ++ actions)
      × (length p.entries ≤ 6 → length p'.entries ≤ 6)

  step-Loaded :
      (p p1 p' : Progress P) (i rounds : ℕ)
      → Header p p1 i
      → Loaded p1 p' (i + 1) rounds
      → Loaded p p' i (suc rounds)
  step-Loaded p p1 p' i rounds (is_null phdr at empty same) (es, acts, loads, e, a, few) = (
    es,
    acts,
    null phdr at empty loads,
    e ∙ ap (λ x. x.entries ++ es) (sym same),
    a ∙ ap (λ x. x.actions ++ acts) (sym same),
    λ small. few (subst (λ x. length x.entries ≤ 6) same small),
  )
  step-Loaded p p1 p' i rounds (is_load phdr phys at is given adds) (es, acts, loads, e, a, few) = (
    entry_of phdr phys ∷ es,
    clear phys phdr.memsz ∷ load phdr.offset phdr.filesz phys ∷ acts,
    segment phdr phys at is given loads,
    e ∙ ap (λ x. x ++ es) adds.entries ∙ append_assoc p.entries (entry_of phdr phys ∷ []) es,
    a
        ∙ ap (λ x. x ++ acts) adds.actions
        ∙ append_assoc p.actions (clear phys phdr.memsz ∷ load phdr.offset phdr.filesz phys ∷ [])
            acts,
    λ small. few (
        omega (
          arith,
          ap length adds.entries,
          length-append p.entries (entry_of phdr phys ∷ []),
          adds.few,
        )),
  )

  -- When the loop over the program headers returns, each of them was of the null type or LOAD, and the
  -- entries and the memory actions that it added are those of the LOAD headers in their order: one
  -- entry from the allocated memory to the header's address for as many pages as its size needs, and
  -- that memory cleared and then filled from the file. If there were at most six
  -- entries before, there are at most six after.
  pub load_segments-Loaded :
      (p p' : Progress P) (i rounds : ℕ)
      → load_segments P efi cur_page p phdr_table phdr_entry_size i rounds ≡ ok p'
      → Loaded p p' i rounds
  unfolding load_segments
  load_segments-Loaded p p' i zero e =
      let same = ok_inj p p' e in
      (
        [],
        [],
        no_more,
        ap (λ x. x.entries) (sym same) ∙ sym (append-nil p.entries),
        ap (λ x. x.actions) (sym same) ∙ sym (append-nil p.actions),
        λ small. subst (λ x. length x.entries ≤ 6) same small,
      )
  load_segments-Loaded p p' i (suc rounds) e =
      let (p1, first, rest) =
        and_then-ok (load_segment P efi cur_page p phdr_table phdr_entry_size i) _ p' e in
      step-Loaded p p1 p' i rounds (load_segment-Header p p1 i first)
        (load_segments-Loaded p1 p' (i + 1) rounds rest)
