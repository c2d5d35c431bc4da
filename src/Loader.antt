-- ===== src/Loader.antt =====
-- Bootloader/src/main.c and elfloader.c: what the boot loader hands over to the kernel: the memory
-- map, and the functions of the kernel's symbol table; and its comparison of GUIDs.
--
-- What the firmware and the kernel's file hold is given as functions and lists. A write behind an
-- array of the hand-over, and a read behind the table of types, is `none`.
mod MemoryMap
mod Sections
mod Symbols
pub mod Segments
mod Main
mod Tests
use wheatley.Common.{
  ℕ, zero, suc, ◌+◌, ◌*◌, ◌/◌, Bool, true, false, ◌&&◌, Option, none, some, List, [], ◌∷◌, ◌++◌,
  ltb, ◌==◌, if◌then◌else◌, length, get_elem?,
}
use wheatley.Mm.Init.{EntryType, free, used, reserved, Entry}

-- `EFI_MEMORY_DESCRIPTOR`, of which these are read.
pub record MemoryDescriptor : Type 0 where
  pub type : ℕ
  pub physical_start : ℕ
  pub number_of_pages : ℕ

abbrev pub efi_type_to_bootproto_type : List EntryType
efi_type_to_bootproto_type =
    reserved ∷ reserved ∷ reserved ∷ free ∷ free ∷ used ∷ used ∷ free ∷ reserved ∷ reserved
    ∷ reserved ∷ reserved ∷ reserved ∷ reserved ∷ []

-- The loop over the memory map of `efi_main`, with the entries handed over so far.
pub memory_map_loop : (ℕ → MemoryDescriptor) → (i rounds : ℕ) → List Entry → Option (List Entry)
memory_map_loop memory_map i zero entries = some entries
memory_map_loop memory_map i (suc rounds) entries =
    let mem_entry = memory_map i in
    elim (get_elem? efi_type_to_bootproto_type mem_entry.type) [
      | none ↦ none
      | some type ↦
          let entry : Entry = record {
            type = type;
            start = mem_entry.physical_start;
            pages = mem_entry.number_of_pages;
          } in
          let rest = memory_map_loop memory_map (i + 1) rounds (entries ++ (entry ∷ [])) in
          if ltb (length entries) 128 then rest else none
    ]

pub hand_over_memory_map :
    (ℕ → MemoryDescriptor) → (memory_map_size descriptor_size : ℕ) → Option (List Entry)
hand_over_memory_map memory_map memory_map_size descriptor_size =
    memory_map_loop memory_map 0 (memory_map_size / descriptor_size / 2 + 1) []

-- `elf_shdr_t`, of which these are read.
pub record SectionHeader : Type 0 where
  pub type : ℕ
  pub flags : ℕ
  pub offset : ℕ
  pub size : ℕ

-- `SHT_SYMTAB` and `SHT_STRTAB`
abbrev pub sht_symtab : ℕ
sht_symtab = 2

abbrev pub sht_strtab : ℕ
sht_strtab = 3

-- The sections that are read in; `none` is NULL.
pub record Loaded : Type 0 where
  pub shstrtab : Option SectionHeader
  pub strtab : Option SectionHeader
  pub symbol_table : Option SectionHeader

pub is_strtab : SectionHeader → Bool
is_strtab shdr = shdr.type == sht_strtab && shdr.flags == 0

-- The two branches for string tables.
pub load_strtab : Loaded → SectionHeader → Loaded
load_strtab l shdr = elim l.shstrtab [
  | none ↦ record l { shstrtab = some shdr }
  | some _ ↦ elim l.strtab [ none ↦ record l { strtab = some shdr } | some _ ↦ l ]
]

pub load_section : Loaded → SectionHeader → Loaded
load_section l shdr =
    let l' = if is_strtab shdr then load_strtab l shdr else l in
    if shdr.type == sht_symtab then record l' { symbol_table = some shdr } else l'

pub elf_load_sections : Loaded → List SectionHeader → Loaded
elf_load_sections l [] = l
elf_load_sections l (shdr ∷ shdrs) = elf_load_sections (load_section l shdr) shdrs

-- `elf_symbol_t`, of which these are read, and `bootproto_symbol_t`.
pub record ElfSymbol : Type 0 where
  pub name : ℕ
  pub info : ℕ
  pub symbol_value : ℕ

pub record HandoffSymbol : Type 0 where
  pub name : List ℕ
  pub addr : ℕ

-- The copy of a name up to its 0, into the 64 characters from the `rounds`th last on.
pub copy_name : (elf_strtab : ℕ → ℕ) → (pos rounds : ℕ) → Option (List ℕ)
copy_name elf_strtab pos zero = none
copy_name elf_strtab pos (suc rounds) =
    let rest = copy_name elf_strtab (pos + 1) rounds in
    if elf_strtab pos == 0
    then some []
    else elim rest [ none ↦ none | some name ↦ some (elf_strtab pos ∷ name) ]

-- `(1 << 4) | 2`, a global function.
abbrev pub expected_info : ℕ
expected_info = 18

pub symbols_loop :
    (elf_strtab : ℕ → ℕ) → List ElfSymbol → List HandoffSymbol → Option (List HandoffSymbol)
symbols_loop elf_strtab [] out = some out
symbols_loop elf_strtab (symbol ∷ symbols) out =
    if symbol.info == expected_info
    then (if ltb (length out) 256
        then elim (copy_name elf_strtab symbol.name 64) [
          | none ↦ none
          | some name ↦
              symbols_loop elf_strtab symbols
                (out ++ (record { name = name; addr = symbol.symbol_value } ∷ []))
        ]
        else none)
    else symbols_loop elf_strtab symbols out

pub elf_load_symbols : (elf_strtab : ℕ → ℕ) → List ElfSymbol → Option (List HandoffSymbol)
elf_load_symbols elf_strtab symbols = symbols_loop elf_strtab symbols []
