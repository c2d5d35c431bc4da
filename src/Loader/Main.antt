-- ===== src/Loader/Main.antt =====
-- `efi_main` of Bootloader/src/main.c from end to end: what is asked of the firmware in which order, and
-- what the kernel is handed.
--
-- The firmware's answers are a parameter, `Machine`.
pub mod HandedOver
pub mod Agreement
mod Tests
use wheatley.Common.{
  ℕ, zero, suc, ◌+◌, ◌-◌, ◌*◌, ◌/◌, ◌%◌, ◌^◌, ◌≤◌, ◌<◌, min, max, bit_and, bit_or, bit_xor, ◌≡◌,
  refl, sym, ap, ap₂, ◌∙◌, fun_ext, ◌≢◌, ◌↔◌, ◌⊎◌, inl, inr, Bool, true, false, not, ◌&&◌, ◌||◌,
  Option, none, some, List, [], ◌∷◌, ◌++◌, map, arith, ltb, leb, ◌==◌, if◌then◌else◌, ltb→lt,
  lt→ltb, ==_iff, ==_refl, Bool-cases, Option-cases, length, get_elem?, get_or, length-append,
  update, fill, shr, bit, complement, bit-or, bit-and, bit-lt, bit-two-pow, bit-complement,
  bit_or-lt, bit_and-le, bit_and-low, bit_and-up, bit_and-one, two-pow-lt, bit_and_digit, ℤ, pos,
  negsuc, bit_or_digit, bit-zero, bit-suc,
}
use wheatley.Common.{
  Result, ok, panic, failed_assertion, fault, and_then, and_then-ok, passed_not, ok_inj, needed,
}
use wheatley.Logo.{BltPixel, bmp3_display}
use wheatley.Pci.Access.{Bytes}
use wheatley.Mm.Init.{Entry}
use wheatley.Paging.{PageSource, State}
use wheatley.Paging.Startup.{VmmEntry}
use wheatley.Loader.{
  MemoryDescriptor, hand_over_memory_map, SectionHeader, Loaded, elf_load_sections, ElfSymbol,
  HandoffSymbol, elf_load_symbols,
}
use wheatley.Loader.Sections.{nothing_loaded}
use wheatley.Loader.Segments.{Efi, Progress, push_entry, load_segments, define_stack, find_rsdp}

-- A call's status is `true` for EFI_SUCCESS.
pub record Machine : Type 0 where
  pub gop_found : Bool
  pub logo : Bytes  -- from `_binary_logo_bmp_start` on
  pub blt_buf : ℕ → BltPixel  -- the buffer for the picture
  pub image_found : Bool
  pub rootfs_found : Bool
  pub volume_opened : Bool
  pub file_opened : Bool
  pub header_read : Bool
  -- The fields of `elf_header_t` that are read.
  pub magic : ℕ
  pub entry : ℕ
  pub phdr_table : ℕ
  pub phdr_entry_size : ℕ
  pub phdr_entries_num : ℕ
  pub shdr_entry_size : ℕ
  pub handoff_page : Option ℕ
  pub handoff_size : ℕ  -- `sizeof(bootproto_handoff_t)`
  pub efi : Efi
  pub cur_page : ℕ
  -- The configuration table.
  pub is_acpi_guid : ℕ → Bool
  pub vendor_table : ℕ → ℕ
  pub number_of_table_entries : ℕ
  pub rsdp_revision : (rsdp : ℕ) → ℕ
  -- The sections of the file, and the contents of the string table and of the symbol table.
  pub section_headers : List SectionHeader
  pub strings : SectionHeader → ℕ → ℕ
  pub symbols : SectionHeader → List ElfSymbol
  -- `gop->Mode`
  pub frame_buffer_base : ℕ
  pub horizontal_resolution : ℕ
  pub vertical_resolution : ℕ
  pub pixels_per_scan_line : ℕ
  pub memory_map : ℕ → MemoryDescriptor
  pub memory_map_size : ℕ
  pub descriptor_size : ℕ

-- `bootproto_handoff_t`, with where the kernel is entered and on which stack.
pub record Handoff : Type 0 where
  pub vmm_entry : List VmmEntry
  pub symbols : List HandoffSymbol
  pub rsdp : ℕ
  pub rsdp_size : ℕ  -- how much of it is copied
  pub fb_buffer : ℕ
  pub fb_width : ℕ  -- uint16_t
  pub fb_height : ℕ  -- uint16_t
  pub fb_pixels_per_scan_line : ℕ
  pub pmm_entry : List Entry
  pub kernel_entry : ℕ
  pub stack_top : ℕ

-- `ELF_MAGIC`
abbrev pub elf_magic : ℕ
elf_magic = 0x464c457f

-- `sizeof(elf_phdr_t)`
abbrev pub phdr_size : ℕ
phdr_size = 56

-- `sizeof(elf_shdr_t)`
abbrev pub shdr_size : ℕ
shdr_size = 64

-- Up to the checks of the ELF header. The picture is not kept.
pub open_kernel : Machine → Result (Unit {0})
open_kernel m =
    if not m.gop_found
    then panic "failed to get GOP"
    else and_then (bmp3_display m.logo m.horizontal_resolution m.vertical_resolution m.blt_buf)
        λ blt.
          if not m.image_found
          then panic "couldn't get LIP"
          else if not m.rootfs_found
          then panic "couldn't get SFSP"
          else if not m.volume_opened
          then panic "couldn't get root FP"
          else if not m.file_opened
          then panic "couldn't get kernel.elf"
          else if not m.header_read
          then panic "failed to read ELF header from file"
          else if not (m.magic == elf_magic)
          then failed_assertion
          else if not (m.phdr_entry_size == phdr_size)
          then failed_assertion
          else ok tt

abbrev pub handoff_entry : Machine → (handoff : ℕ) → VmmEntry
handoff_entry m handoff = record {
  phys_addr = handoff;
  virt_addr = handoff;
  pages = m.handoff_size / 4096 + 1;
}

-- The hand-over's own pages, and its first entry.
pub prepare_handoff : Machine → Result (List VmmEntry)
prepare_handoff m = elim m.handoff_page [
  | none ↦ panic "failed to allocate page for handoff"
  | some handoff ↦ push_entry [] (handoff_entry m handoff)
]

-- `elf_load_symbols`, with its assertions.
pub load_symbols : Machine → Result (List HandoffSymbol)
load_symbols m =
    let loaded = elf_load_sections nothing_loaded m.section_headers in
    if not (m.shdr_entry_size == shdr_size) then failed_assertion else elim loaded.strtab [
      | none ↦ failed_assertion
      | some strtab ↦ elim loaded.symbol_table [
        | none ↦ failed_assertion
        | some symtab ↦ elim (elf_load_symbols (m.strings strtab) (m.symbols symtab)) [
          | none ↦ fault
          | some symbols ↦ ok symbols
        ]
      ]
    ]

pub rsdp_of : Machine → ℕ
rsdp_of m = find_rsdp m.is_acpi_guid m.vendor_table 0 m.number_of_table_entries 0

pub handoff_of :
    Machine → List VmmEntry → List HandoffSymbol → (rsdp stack : ℕ) → List Entry → Handoff
handoff_of m entries symbols rsdp stack memory = record {
  vmm_entry = entries;
  symbols = symbols;
  rsdp = rsdp;
  rsdp_size = if m.rsdp_revision rsdp == 0 then 20 else 36;
  fb_buffer = m.frame_buffer_base;
  fb_width = m.horizontal_resolution % 2 ^ 16;
  fb_height = m.vertical_resolution % 2 ^ 16;
  fb_pixels_per_scan_line = m.pixels_per_scan_line;
  pmm_entry = memory;
  kernel_entry = m.entry;
  stack_top = stack + 8 * 4096;
}

module _ (P : PageSource) (m : Machine) where
  -- What follows the stack: the symbols, the memory map, and the jump to the kernel, with the page
  -- tables as they are then.
  pub hand_over : Progress P → (rsdp stack : ℕ) → Result (Handoff × State P)
  hand_over p rsdp stack = and_then (load_symbols m) λ symbols.
      elim (hand_over_memory_map m.memory_map m.memory_map_size m.descriptor_size) [
        | none ↦ fault
        | some memory ↦ ok (handoff_of m p.entries symbols rsdp stack memory, p.tables)
      ]

  pub efi_main : State P → Result (Handoff × State P)
  efi_main st = and_then (open_kernel m) λ _. and_then (prepare_handoff m) λ entries.
      and_then
        (load_segments P m.efi m.cur_page (record { tables = st; entries = entries; actions = [] })
          m.phdr_table m.phdr_entry_size 0 m.phdr_entries_num)
        λ p.
          if rsdp_of m == 0
          then failed_assertion
          else and_then (define_stack P m.efi m.cur_page p m.phdr_entries_num)
              λ (stack, p'). hand_over p' (rsdp_of m) stack
