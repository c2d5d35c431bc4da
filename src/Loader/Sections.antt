-- ===== src/Loader/Sections.antt =====
-- The sections that Bootloader/src/elfloader.c reads in.
use wheatley.Common.{
  ◌≡◌, refl, ap, ◌∙◌, ◌==◌, Option, none, some, List, [], ◌∷◌, if◌then◌else◌, get_elem?, Bool-cases,
  Option-cases, inl, inr,
}
use wheatley.Loader.{
  SectionHeader, Loaded, is_strtab, load_strtab, load_section, elf_load_sections, sht_symtab,
}

-- The string tables without flags, in order.
abbrev pub string_tables : List SectionHeader → List SectionHeader
string_tables [] = []
string_tables (s ∷ ss) = let rest = string_tables ss in if is_strtab s then s ∷ rest else rest

-- The last symbol table, or the one given.
abbrev pub last_symbol_table : Option SectionHeader → List SectionHeader → Option SectionHeader
last_symbol_table given [] = given
last_symbol_table given (s ∷ ss) =
    last_symbol_table (if s.type == sht_symtab then some s else given) ss

module _ (l : Loaded) (s : SectionHeader) where
  -- What the string-table branches make of the state.
  abbrev strings : Loaded
  strings = if is_strtab s then load_strtab l s else l

  load_section-strings :
      ((load_section l s).shstrtab ≡ strings.shstrtab)
      × ((load_section l s).strtab ≡ strings.strtab)
  unfolding load_section
  load_section-strings = elim (Bool-cases (s.type == sht_symtab)) [
    | inl on ↦ rw on (refl, refl)
    | inr off ↦ rw off (refl, refl)
  ]

  load_strtab-symbol_table : (load_strtab l s).symbol_table ≡ l.symbol_table
  unfolding load_strtab
  load_strtab-symbol_table = elim (Option-cases l.shstrtab) [
    | inl e ↦ rw e refl
    | inr (a, e) ↦
        rw e (elim (Option-cases l.strtab) [ inl f ↦ rw f refl | inr (b, f) ↦ rw f refl ])
  ]

  load_section-symbol_table :
      (load_section l s).symbol_table ≡ (if s.type == sht_symtab then some s else l.symbol_table)
  unfolding load_section
  load_section-symbol_table = elim (Bool-cases (s.type == sht_symtab)) [
    | inl on ↦ rw on refl
    | inr off ↦ elim (Bool-cases (is_strtab s)) [
      | inl string ↦ rw (off, string) load_strtab-symbol_table
      | inr other ↦ rw (off, other) refl
    ]
  ]

elf_load_sections-symbol_table :
    (ss : List SectionHeader) (l : Loaded)
    → (elf_load_sections l ss).symbol_table ≡ last_symbol_table l.symbol_table ss
unfolding elf_load_sections
elf_load_sections-symbol_table [] l = refl
elf_load_sections-symbol_table (s ∷ ss) l =
    elf_load_sections-symbol_table ss (load_section l s)
    ∙ ap (λ t. last_symbol_table t ss) (load_section-symbol_table l s)

-- The string tables of two states.
abbrev Strings : Loaded → (shstrtab strtab : Option SectionHeader) → Type 0
Strings l shstrtab strtab = (l.shstrtab ≡ shstrtab) × (l.strtab ≡ strtab)

load_section-Strings :
    (l : Loaded) (s : SectionHeader) (a b : Option SectionHeader)
    → Strings (strings l s) a b
    → Strings (load_section l s) a b
load_section-Strings l s a b (e, f) = let (g, h) = load_section-strings l s in (g ∙ e, h ∙ f)

both-kept :
    (l : Loaded) (s a b : SectionHeader)
    → Strings l (some a) (some b)
    → Strings (strings l s) (some a) (some b)
unfolding load_strtab
both-kept l s a b (e, f) = elim (Bool-cases (is_strtab s)) [
  | inl on ↦ rw (on, e, f) (refl, refl)
  | inr off ↦ rw off (e, f)
]

load_both :
    (ss : List SectionHeader) (l : Loaded) (a b : SectionHeader)
    → Strings l (some a) (some b)
    → Strings (elf_load_sections l ss) (some a) (some b)
unfolding elf_load_sections
load_both [] l a b st = st
load_both (s ∷ ss) l a b st =
    load_both ss (load_section l s) a b
      (load_section-Strings l s (some a) (some b) (both-kept l s a b st))

load_second :
    (ss : List SectionHeader) (l : Loaded) (a : SectionHeader)
    → Strings l (some a) none
    → Strings (elf_load_sections l ss) (some a) (get_elem? (string_tables ss) 0)
unfolding elf_load_sections load_strtab
load_second [] l a st = st
load_second (s ∷ ss) l a (e, f) = elim (Bool-cases (is_strtab s)) [
  | inl on ↦
      let st : Strings (strings l s) (some a) (some s) = rw (on, e, f) (refl, refl) in
      rw on (load_both ss (load_section l s) a s (load_section-Strings l s (some a) (some s) st))
  | inr off ↦
      let st : Strings (strings l s) (some a) none = rw off (e, f) in
      rw off (load_second ss (load_section l s) a (load_section-Strings l s (some a) none st))
]

load_first :
    (ss : List SectionHeader) (l : Loaded)
    → Strings l none none
    → Strings
        (elf_load_sections l ss)
        (get_elem? (string_tables ss) 0)
        (get_elem? (string_tables ss) 1)
unfolding elf_load_sections load_strtab
load_first [] l st = st
load_first (s ∷ ss) l (e, f) = elim (Bool-cases (is_strtab s)) [
  | inl on ↦
      let st : Strings (strings l s) (some s) none = rw (on, e, f) (refl, refl) in
      rw on (load_second ss (load_section l s) s (load_section-Strings l s (some s) none st))
  | inr off ↦
      let st : Strings (strings l s) none none = rw off (e, f) in
      rw off (load_first ss (load_section l s) (load_section-Strings l s none none st))
]

abbrev pub nothing_loaded : Loaded
nothing_loaded = record { shstrtab = none; strtab = none; symbol_table = none }

-- Of the string tables without flags the first is taken for the sections' names and the second for
-- the symbols' names, and of the symbol tables the last is taken; what is missing stays NULL.
pub elf_load_sections-string_tables :
    (shdrs : List SectionHeader)
    → ((elf_load_sections nothing_loaded shdrs).shstrtab ≡ get_elem? (string_tables shdrs) 0)
      × ((elf_load_sections nothing_loaded shdrs).strtab ≡ get_elem? (string_tables shdrs) 1)
      × ((elf_load_sections nothing_loaded shdrs).symbol_table ≡ last_symbol_table none shdrs)
elf_load_sections-string_tables shdrs =
    let (e, f) = load_first shdrs nothing_loaded (refl, refl) in
    (e, f, elf_load_sections-symbol_table shdrs nothing_loaded)
