-- ===== src/Loader/Tests.antt =====
-- Runs of Bootloader/src/main.c and elfloader.c at small inputs.
use wheatley.Loader.{load_section, load_strtab}
use wheatley.Common.{ℕ, ◌*◌, ◌≡◌, refl, arith, some, List, [], ◌∷◌, get_or}
use wheatley.Mm.Init.{Entry}
use wheatley.Loader.{
  MemoryDescriptor, hand_over_memory_map, SectionHeader, elf_load_sections, ElfSymbol,
  HandoffSymbol, elf_load_symbols,
}
use wheatley.Loader.MemoryMap.{HandedOver, hand_over_memory_map-HandedOver}
use wheatley.Loader.Sections.{nothing_loaded}
use wheatley.Loader.Symbols.{Functions, elf_load_symbols-Functions}

abbrev ram_map : ℕ → MemoryDescriptor
ram_map i = record { type = 7; physical_start = i * 0x10000; number_of_pages = 16 }

-- Of six descriptors of 48 bytes, four are handed over.
hand_over_memory_map-HandedOver_example :
    (entries : List Entry) × (hand_over_memory_map ram_map 288 48 ≡ some entries)
    × HandedOver ram_map 4 entries
hand_over_memory_map-HandedOver_example =
    hand_over_memory_map-HandedOver ram_map 288 48 6 refl (λ j lt. omega arith) (omega arith)

abbrev section_of : (type size : ℕ) → SectionHeader
section_of type size = record { type = type; flags = 0; offset = 0x1000; size = size }

abbrev sections : List SectionHeader
sections = section_of 1 64 ∷ section_of 2 48 ∷ section_of 3 33 ∷ section_of 3 99 ∷ []

-- The names "m" and "k", each behind a 0.
abbrev names : ℕ → ℕ
names i = get_or (0 ∷ 109 ∷ 0 ∷ 107 ∷ 0 ∷ []) i 0

abbrev two_symbols : List ElfSymbol
two_symbols =
    record { name = 3; info = 17; symbol_value = 0x500 }
    ∷ record { name = 1; info = 18; symbol_value = 0x100 }
    ∷ []

elf_load_symbols-Functions_example :
    (found : List HandoffSymbol) × (elf_load_symbols names two_symbols ≡ some found)
    × Functions names two_symbols found
elf_load_symbols-Functions_example =
    elf_load_symbols-Functions names two_symbols
      ((λ e. absurd (omega arith)), ((λ _. (1, omega arith, refl)), tt)) (omega arith)

second_strings : (elf_load_sections nothing_loaded sections).strtab ≡ some (section_of 3 99)
unfolding elf_load_sections load_section load_strtab wheatley.Loader.is_strtab
second_strings = refl
