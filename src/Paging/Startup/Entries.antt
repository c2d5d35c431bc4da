-- ===== src/Paging/Startup/Entries.antt =====
-- The page map of Kernel/src/mm/vmm.c as a function from addresses to entries, and what the loops of
-- `vmm_init` make of it.
use wheatley.Common.{
  ℕ, zero, suc, ◌+◌, ◌-◌, ◌*◌, ◌/◌, ◌%◌, ◌^◌, ◌≤◌, ◌<◌, bit_or, ◌≡◌, fun_ext, inl, inr, ◌&&◌, List,
  [], ◌∷◌, arith, ltb, leb, ◌==◌, if◌then◌else◌, Bool-cases, ◌-◌, ◌||◌, Bool,
}
use wheatley.Mm.Init.{Entry}
use wheatley.Paging.Tree.{indices}
use wheatley.Paging.Startup.{VmmEntry, offset_of}

-- What the processor finds for an address; 0 is an entry that is not present.
abbrev pub Entries : Type 0
Entries = ℕ → ℕ

abbrev pub page_of : ℕ → ℕ
page_of virt = virt / 4096 % 2 ^ 36

-- The page of `virt` leads to `value`.
abbrev pub install : Entries → (virt value : ℕ) → Entries
install m virt value v = if page_of v == page_of virt then value else m v

-- The pages of `virt` from the `j`-th on, `n` of them, lead to those of `phys`.
abbrev pub range : Entries → (phys virt j n : ℕ) → Entries
range m phys virt j n v =
    if leb (page_of virt + j) (page_of v) && ltb (page_of v) (page_of virt + j + n)
    then bit_or ((phys + (page_of v - page_of virt) * 4096) % 2 ^ 64) 0b11
    else m v

abbrev pub sections_on : Entries → List VmmEntry → Entries
sections_on m [] = m
sections_on m (entry ∷ entries) =
    sections_on (range m entry.phys_addr entry.virt_addr 0 entry.pages) entries

abbrev pub memory_on : Entries → List Entry → Entries
memory_on m [] = m
memory_on m (entry ∷ entries) = memory_on (range m entry.start entry.start 0 entry.pages) entries

-- At most 2 GB of pages, whose addresses do not leave the 48 bits that are translated.
abbrev pub Fits : (virt pages : ℕ) → Type 0
Fits virt pages = (pages ≤ 2 ^ 19) × (page_of virt + pages ≤ 2 ^ 36)

abbrev pub AllFit : List VmmEntry → Type 0
AllFit [] = Unit
AllFit (entry ∷ entries) = Fits entry.virt_addr entry.pages × AllFit entries

abbrev pub MemoryFits : List Entry → Type 0
MemoryFits [] = Unit
MemoryFits (entry ∷ entries) = Fits entry.start entry.pages × MemoryFits entries

-- Three tables for each of `pages`, and `n` more.
unfoldable pub tables : (pages n : ℕ) → ℕ
tables zero n = n
tables (suc pages) n = suc (suc (suc (tables pages n)))

pub tables_lem : (pages n : ℕ) → tables pages n ≡ pages * 3 + n
unfolding tables
tables_lem zero n = omega arith
tables_lem (suc pages) n = omega (arith, tables_lem pages n)

-- The page `j` of those of `virt` is the first of them or the first of its 2 MB.
abbrev pub starts : (virt j : ℕ) → Bool
starts virt j = (j == 0) || ((page_of virt + j) % 512 == 0)

-- Three tables for each region of 2 MB that pages from `j` on lie in, and `n` more.
unfoldable pub region_tables : (virt j pages n : ℕ) → ℕ
region_tables virt j zero n = n
region_tables virt j (suc pages) n =
    let rest = region_tables virt (j + 1) pages n in
    if starts virt j then suc (suc (suc rest)) else rest

-- Behind the first page: three for each multiple of 512.
pub region_tables_lem :
    (virt j pages n : ℕ)
    → region_tables virt (j + 1) pages n
      ≡ ((page_of virt + j + 1 + pages + 511) / 512 - (page_of virt + j + 1 + 511) / 512) * 3 + n
unfolding region_tables
region_tables_lem virt j zero n = omega arith
region_tables_lem virt j (suc pages) n =
    let later = region_tables_lem virt (j + 1) pages n in ground arith

-- Pages from the first on lie in one region more than they fill, at most.
pub region_tables-le :
    (virt pages n : ℕ) → region_tables virt 0 pages n ≤ (pages + 510) / 512 * 3 + 3 + n
unfolding region_tables
region_tables-le virt zero n = omega arith
region_tables-le virt (suc pages) n = omega (arith, region_tables_lem virt 0 pages n)

unfoldable pub section_tables : List VmmEntry → (n : ℕ) → ℕ
section_tables [] n = n
section_tables (entry ∷ entries) n =
    region_tables entry.virt_addr 0 entry.pages (section_tables entries n)

unfoldable pub memory_tables : List Entry → (n : ℕ) → ℕ
memory_tables [] n = n
memory_tables (entry ∷ entries) n =
    region_tables entry.start 0 entry.pages (memory_tables entries n)

pub offset_of_lem : (j : ℕ) → j < 2 ^ 19 → offset_of j ≡ j * 4096
unfolding offset_of
offset_of_lem j lt = ground arith

pub range_start : (m : Entries) (phys virt j : ℕ) → range m phys virt j 0 ≡ m
range_start m phys virt j = fun_ext (λ v. ground arith)

pub range_next :
    (m : Entries) (phys virt j n : ℕ)
    → j < 2 ^ 19
    → page_of virt + j < 2 ^ 36
    → range
        (install m ((virt + offset_of j) % 2 ^ 64) (bit_or ((phys + offset_of j) % 2 ^ 64) 0b11))
        phys
        virt
        (j + 1)
        n
      ≡ range m phys virt j (suc n)
range_next m phys virt j n small low = fun_ext λ v. rw (offset_of_lem j small) (
    let here : page_of ((virt + j * 4096) % 2 ^ 64) ≡ page_of virt + j = omega (arith, low) in
    elim (Bool-cases (page_of v == page_of virt + j)) [
      | inl e ↦
          let at : page_of v ≡ page_of virt + j = ground arith in
          let off : page_of v - page_of virt ≡ j = omega (arith, at) in
          rw (here, off, at) (ground arith)
      | inr e ↦ rw here (ground arith)
    ])

pub indices-same : (v w : ℕ) → page_of v ≡ page_of w → indices v ≡ indices w
indices-same v w e =
    let e4 : v / 2 ^ 39 % 512 ≡ w / 2 ^ 39 % 512 = omega (arith, e) in
    let e3 : v / 2 ^ 30 % 512 ≡ w / 2 ^ 30 % 512 = omega (arith, e) in
    let e2 : v / 2 ^ 21 % 512 ≡ w / 2 ^ 21 % 512 = omega (arith, e) in
    let e1 : v / 2 ^ 12 % 512 ≡ w / 2 ^ 12 % 512 = omega (arith, e) in
    λ i. e4 i ∷ e3 i ∷ e2 i ∷ e1 i ∷ []
