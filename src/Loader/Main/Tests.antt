-- ===== src/Loader/Main/Tests.antt =====
-- A run of `efi_main` of Bootloader/src/main.c, from the firmware's first answer to the jump.
use wheatley.Common.{
  ℕ, suc, ◌+◌, ◌*◌, ◌^◌, ◌≤◌, ◌<◌, ◌≡◌, refl, sym, ap, ◌≢◌, inl, true, false, none, some, List, [],
  ◌∷◌, arith, ◌==◌, if◌then◌else◌, get_or, fill,
}
use wheatley.Common.{Result, ok, panic, failed_assertion, fault}
use wheatley.Paging.{State, paging_map_page, paging_descend, paging_get_next_level}
use wheatley.Logo.{bmp3_display, bmp3_of}
use wheatley.Pci.Access.{mmin}
use mathlib.Core.Path.{subst₂}
use wheatley.Mm.{Mm, alloc_max_size}
use wheatley.Mm.Init.{Entry, free, used, find_space, alloc_pages, total_pages, is_free}
use wheatley.Mm.Init.FreePages.{bitmap_size}
use wheatley.Mm.Init.Blocks.{IsValid}
use wheatley.Mm.Init.Sound.{used_count}
use wheatley.Paging.Startup.{VmmEntry}
use wheatley.Paging.Startup.Allocator.{HasRun}
use wheatley.Paging.Bump.{bump, bump_alloc}
use wheatley.Loader.{
  SectionHeader, elf_load_sections, load_section, load_strtab, is_strtab, elf_load_symbols,
  symbols_loop, copy_name, hand_over_memory_map, memory_map_loop,
}
use wheatley.Loader.Segments.{
  ProgramHeader, push_entry, page_count, entry_of, map_pages, map_or_panic, place_segment,
  load_segment, load_segments, define_stack, find_rsdp,
}
use wheatley.Loader.Main.{
  Machine, Handoff, open_kernel, prepare_handoff, load_symbols, rsdp_of, handoff_of, hand_over,
  efi_main,
}
use wheatley.Paging.Kernel.{kernel_pages}
use wheatley.Paging.Startup.Entries.{
  region_tables, region_tables-le, section_tables, memory_tables, AllFit, MemoryFits,
}
use wheatley.Paging.Startup.Loops.{Stands}
use wheatley.Paging.Startup.Translates.{kernel_tables, no_entries, new_table-Stands}
use wheatley.Loader.Segments.Tables.{IsAligned, page_tables}
use wheatley.Loader.Main.Agreement.{Agrees, behind_first, in_sections, in_memory, efi_main-Agrees}

-- One page of text and a null header.
abbrev text_header : (type : ℕ) → ProgramHeader
text_header type = record {
  type = type;
  offset = 0x1000;
  vaddr = 0xffffffff80000000;
  filesz = 100;
  memsz = 4000;
  alignment = 4096;
}

abbrev section_of : (type size : ℕ) → SectionHeader
section_of type size = record { type = type; flags = 0; offset = 0x3000; size = size }

-- A picture without pixels.
abbrev logo : ℕ → ℕ
logo i =
    if i == 0
    then 0x42
    else if i == 1
    then 0x4d
    else if i == 10
    then 0x36
    else if i == 28
    then 24
    else 0

-- The function "m" at 0xffffffff80000000.
abbrev machine : Machine
machine = record {
  gop_found = true;
  logo = logo;
  blt_buf = λ _. record { red = 0; green = 0; blue = 0 };
  image_found = true;
  rootfs_found = true;
  volume_opened = true;
  file_opened = true;
  header_read = true;
  magic = 0x464c457f;
  entry = 0xffffffff80000000;
  phdr_table = 64;
  phdr_entry_size = 56;
  shdr_entry_size = 64;
  phdr_entries_num = 2;
  handoff_page = some 0x600000;
  handoff_size = 20000;
  efi = record {
    set_position = λ position. true;
    read_header = λ position. some (text_header (if position == 64 then 1 else 0));
    read = λ position size. true;
    allocate_pages = λ call pages. some (0x700000 + call * 0x10000);
  };
  cur_page = 0x100000;
  is_acpi_guid = λ i. i == 1;
  vendor_table = λ i. 0xe0000 + i;
  number_of_table_entries = 3;
  rsdp_revision = λ rsdp. 2;
  section_headers = section_of 2 24 ∷ section_of 3 33 ∷ section_of 3 99 ∷ [];
  strings = λ section i. get_or (0 ∷ 109 ∷ 0 ∷ []) i 0;
  symbols = λ section. record { name = 1; info = 18; symbol_value = 0xffffffff80000000 } ∷ [];
  frame_buffer_base = 0x80000000;
  horizontal_resolution = 1024;
  vertical_resolution = 768;
  pixels_per_scan_line = 1024;
  memory_map = λ i.
      if i == 0
      then record { type = 5; physical_start = 0; number_of_pages = 0x1000 }
      else record { type = 7; physical_start = 0x1000000; number_of_pages = 0x3ff9 };
  memory_map_size = 96;
  descriptor_size = 48;
}

-- An empty top table at 1 MB.
abbrev tables : State bump
unfolding bump
tables = record { mem = fill (λ _. 7) 0x100000 4096 0; source = 0x101000 }

nothing : Handoff
nothing = handoff_of machine [] [] 0 0 []

handed_over : Result (Handoff × State bump) → Handoff × State bump
handed_over (ok h) = h
handed_over (panic msg) = (nothing, tables)
handed_over failed_assertion = (nothing, tables)
handed_over fault = (nothing, tables)

abbrev handoff : Handoff
handoff = (handed_over (efi_main bump machine tables)).0

abbrev left : State bump
left = (handed_over (efi_main bump machine tables)).1

runs : efi_main bump machine tables ≡ ok (handoff, left)
unfolding efi_main open_kernel bmp3_display bmp3_of mmin prepare_handoff load_segments load_segment
    place_segment map_pages map_or_panic push_entry page_count entry_of paging_map_page
    paging_descend paging_get_next_level bump bump_alloc rsdp_of find_rsdp define_stack hand_over
    load_symbols elf_load_sections load_section load_strtab is_strtab elf_load_symbols symbols_loop
    copy_name hand_over_memory_map memory_map_loop handed_over
runs = refl

abbrev sections : List VmmEntry
sections =
    record { phys_addr = 0x600000; virt_addr = 0x600000; pages = 5 }
    ∷ record { phys_addr = 0x700000; virt_addr = 0xffffffff80000000; pages = 1 }
    ∷ record { phys_addr = 0x720000; virt_addr = 0x720000; pages = 8 }
    ∷ []

abbrev memory : List Entry
memory =
    record { type = used; start = 0; pages = 0x1000 }
    ∷ record { type = free; start = 0x1000000; pages = 0x3ff9 }
    ∷ []

handed : (sections ≡ handoff.vmm_entry) × (memory ≡ handoff.pmm_entry)
unfolding handed_over efi_main open_kernel bmp3_display bmp3_of mmin prepare_handoff load_segments
    load_segment place_segment map_pages map_or_panic push_entry page_count entry_of paging_map_page
    paging_descend paging_get_next_level bump bump_alloc rsdp_of find_rsdp define_stack hand_over
    load_symbols elf_load_sections load_section load_strtab is_strtab elf_load_symbols symbols_loop
    copy_name hand_over_memory_map memory_map_loop handoff_of
handed = (refl, refl)

machine-IsAligned : IsAligned machine.efi
machine-IsAligned position phdr e type =
    ap (λ o. elim o [ none ↦ 4096 | some x ↦ x.alignment ]) (sym e)

-- 27 pages for the tables of nine pages.
tables-Stands : Stands bump 0x100000 no_entries (page_tables (behind_first sections) 0) tables
unfolding bump bump_alloc page_tables wheatley.Paging.Startup.Entries.tables
tables-Stands =
    new_table-Stands bump 27 0x100000 (λ _. 7) 0x100000 0x101000 (refl, omega arith, omega arith)
      (refl, omega arith, omega arith) refl (omega arith)

sections-kernel_tables : kernel_tables kernel_pages sections memory 0 ≤ 600
unfolding section_tables memory_tables
sections-kernel_tables =
    let r6 = region_tables 0 0 0x10000 0 in
    let b6 : r6 ≤ 387 = region_tables-le 0 0x10000 0 in
    let r5 = region_tables 0x1000000 0 0x3ff9 r6 in
    let b5 : r5 ≤ 99 + r6 = region_tables-le 0x1000000 0x3ff9 r6 in
    let r4 = region_tables 0 0 0x1000 r5 in
    let b4 : r4 ≤ 27 + r5 = region_tables-le 0 0x1000 r5 in
    let r3 = region_tables 0x720000 0 8 r4 in
    let b3 : r3 ≤ 6 + r4 = region_tables-le 0x720000 8 r4 in
    let r2 = region_tables 0xffffffff80000000 0 1 r3 in
    let b2 : r2 ≤ 3 + r3 = region_tables-le 0xffffffff80000000 1 r3 in
    let b1 : region_tables 0x600000 0 5 r2 ≤ 6 + r2 = region_tables-le 0x600000 5 r2 in
    omega (arith, b1, b2, b3, b4, b5, b6)

abbrev allocator : Mm
allocator = record {
  pages = λ _. 0;
  page_count = 0;
  allocs = λ _. record { page_start = 0; page_count = 0; used = false };
  alloc_count = 0;
  locked = false;
  ram = λ _. 0;
}

-- What `efi_main-Agrees` asks of the hand-over, of the lists that are handed over.
record Asks (es : List VmmEntry) (rs : List Entry) : Type 0 where
  stands : Stands bump 0x100000 no_entries (page_tables (behind_first es) 0) tables
  space : find_space rs (alloc_pages + bitmap_size allocator rs) ≢ 0
  valid : IsValid (bitmap_size allocator rs) rs
  small : bitmap_size allocator rs * 8 < 2 ^ 31
  fit : AllFit es
  memory_fit : MemoryFits rs
  room : used_count rs + suc (kernel_tables kernel_pages es rs 0) ≤ alloc_max_size
  run : HasRun allocator rs 0x2000 (suc (kernel_tables kernel_pages es rs 0))
  inside : in_sections (behind_first es) 0xffffffff80000000 ≡ true
  outside : in_memory rs 0xffffffff80000000 ≡ false

sections-Asks : Asks sections memory
unfolding find_space total_pages is_free used_count
sections-Asks =
    let size : bitmap_size allocator memory ≡ 0xa00 = refl in
    record {
      stands = tables-Stands;
      space = omega arith;
      valid = (
        (λ q. (omega arith, omega arith, omega arith, omega (arith, size)), λ q. absurd (cc q)),
        (inl (omega arith), tt),
        ((λ q. absurd (cc q), λ q. omega (arith, size)), tt, omega (arith, size)),
      );
      small = omega (arith, size);
      fit = (
        (omega arith, omega arith),
        ((omega arith, omega arith), ((omega arith, omega arith), tt)),
      );
      memory_fit = ((omega arith, omega arith), ((omega arith, omega arith), tt));
      room = omega (arith, sections-kernel_tables);
      run = record {
        in_bits = omega (arith, size, sections-kernel_tables);
        in_free_entries = λ k lt. let few = sections-kernel_tables in ground arith;
        not_set_aside = λ k lt. let few = sections-kernel_tables in ground arith;
      };
      inside = refl;
      outside = refl;
    }

handed-Asks : Asks handoff.vmm_entry handoff.pmm_entry
handed-Asks = subst₂ Asks handed.0 handed.1 sections-Asks

efi_main-Agrees_example :
    Agrees bump machine
      (λ z. omega arith)
      machine-IsAligned
      tables
      left
      handoff
      runs
      allocator
      (λ _. 7)
      0xffffffff80000000
efi_main-Agrees_example =
    let a = handed-Asks in
    efi_main-Agrees bump machine (λ z. omega arith) machine-IsAligned tables left handoff runs
      no_entries a.stands allocator (λ _. 7) 0x2000 refl refl a.space a.valid a.small a.fit
      a.memory_fit a.room a.run 0xffffffff80000000 a.inside a.outside (omega arith)
