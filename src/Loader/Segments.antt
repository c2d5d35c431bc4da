-- ===== src/Loader/Segments.antt =====
-- `efi_main` of Bootloader/src/main.c: the program's segments are read and mapped, the root of the ACPI
-- tables is found, and the stack is made.
--
-- The firmware's answers are a parameter, `Efi`. Page tables are those of Paging, over the firmware's
-- pages. What goes into the segments' memory is a list of actions.
pub mod Mapped
pub mod Entries
pub mod Tables
mod Tests
use wheatley.Common.{
  ℕ, zero, suc, ◌+◌, ◌-◌, ◌*◌, ◌/◌, ◌%◌, ◌^◌, ◌≤◌, ◌<◌, min, max, bit_and, bit_or, bit_xor, ◌≡◌,
  refl, sym, ap, ap₂, ◌∙◌, fun_ext, ◌≢◌, ◌↔◌, ◌⊎◌, inl, inr, Bool, true, false, not, ◌&&◌, ◌||◌,
  Option, none, some, List, [], ◌∷◌, ◌++◌, map, arith, ltb, leb, ◌==◌, if◌then◌else◌, ltb→lt,
  lt→ltb, ==_iff, ==_refl, Bool-cases, Option-cases, length, get_elem?, get_or, length-append,
  update, fill, shr, bit, complement, bit-or, bit-and, bit-lt, bit-two-pow, bit-complement,
  bit_or-lt, bit_and-le, bit_and-low, bit_and-up, bit_and-one, two-pow-lt, bit_and_digit, ℤ, pos,
  negsuc, bit_or_digit, bit-zero, bit-suc,
}
use Prim.Native.String.{String}
use wheatley.Common.{Result, ok, panic, failed_assertion, fault, and_then, and_then-ok, passed_not}
use wheatley.Paging.{PageSource, State, paging_map_page}
use wheatley.Paging.Startup.{VmmEntry}

-- `elf_phdr_t`, of which these are read.
pub record ProgramHeader : Type 0 where
  pub type : ℕ  -- uint32_t
  pub offset : ℕ  -- the others are uint64_t
  pub vaddr : ℕ
  pub filesz : ℕ
  pub memsz : ℕ
  pub alignment : ℕ

-- `elf_segt_null` and `elf_segt_load`
abbrev pub elf_segt_null : ℕ
elf_segt_null = 0

abbrev pub elf_segt_load : ℕ
elf_segt_load = 1

-- The kernel's file and the firmware's memory; a status other than EFI_SUCCESS is `none` or `false`.
pub record Efi : Type 0 where
  pub set_position : (position : ℕ) → Bool
  pub read_header : (position : ℕ) → Option ProgramHeader
  pub read : (position size : ℕ) → Bool
  pub allocate_pages : (call pages : ℕ) → Option ℕ

pub data Action : Type 0 where
  clear : (address size : ℕ) → Action  -- `SetMem`, to 0
  load : (position size address : ℕ) → Action

-- `handoff->vmm_entry[handoff->vmm_entries_length++] = …`, an array of 6.
unfoldable pub push_entry : List VmmEntry → VmmEntry → Result (List VmmEntry)
push_entry entries entry = if ltb (length entries) 6 then ok (entries ++ (entry ∷ [])) else fault

-- `pageCount`, an int; a negative one is a large number where it is compared or stored with 64 bits.
unfoldable pub page_count : ProgramHeader → ℕ
page_count phdr =
    let count = (phdr.memsz + phdr.alignment + 2 ^ 64 - 1) % 2 ^ 64 / phdr.alignment % 2 ^ 32 in
    if ltb count (2 ^ 31) then count else count + (2 ^ 64 - 2 ^ 32)

unfoldable pub entry_of : ProgramHeader → (phys_page : ℕ) → VmmEntry
entry_of phdr phys_page = record {
  phys_addr = phys_page;
  virt_addr = phdr.vaddr;
  pages = page_count phdr;
}

module _ (P : PageSource) where
  -- The page tables, `handoff->vmm_entry`, and the actions so far.
  pub record Progress : Type 0 where
    pub tables : State P
    pub entries : List VmmEntry
    pub actions : List Action

  -- A call of `Paging_MapPage` whose failure is a panic.
  unfoldable pub map_or_panic : State P → (cur_page phys virt : ℕ) → String → Result (State P)
  map_or_panic st cur_page phys virt msg = elim (paging_map_page P st cur_page phys virt 0b11) [
    | none ↦ fault
    | some (mapped, st') ↦ if mapped then ok st' else panic msg
  ]

  -- The loop over pages of `alignment` bytes, from `z` on.
  unfoldable pub map_pages :
      State P → (cur_page phys virt alignment z rounds : ℕ) → String → Result (State P)
  map_pages st cur_page phys virt alignment z zero msg = ok st
  map_pages st cur_page phys virt alignment z (suc rounds) msg =
      and_then
        (map_or_panic st cur_page ((phys + z * alignment) % 2 ^ 64)
          ((virt + z * alignment) % 2 ^ 64) msg)
        λ st'. map_pages st' cur_page phys virt alignment (z + 1) rounds msg

  module _ (efi : Efi) (cur_page : ℕ) where
    -- A header of type LOAD, whose number is `i`.
    unfoldable pub place_segment : Progress → (i : ℕ) → ProgramHeader → Result Progress
    place_segment p i phdr =
        if phdr.alignment == 0 then fault else elim (efi.allocate_pages i (page_count phdr)) [
          | none ↦ panic "failed to allocate memory"
          | some phys ↦
              and_then
                (map_pages p.tables cur_page phys phdr.vaddr phdr.alignment 0 (page_count phdr)
                  "failed to map page")
                λ tables. and_then (push_entry p.entries (entry_of phdr phys)) λ entries.
                  if not (efi.set_position phdr.offset)
                  then panic "failed to move file pos to phdr offset"
                  else if not (efi.read phdr.offset phdr.filesz)
                  then panic "failed to read segment data from file into memory"
                  else ok (record {
                    tables = tables;
                    entries = entries;
                    actions =
                        p.actions
                        ++ (clear phys phdr.memsz ∷ load phdr.offset phdr.filesz phys ∷ []);
                  })
        ]

    unfoldable pub load_segment : Progress → (phdr_table phdr_entry_size i : ℕ) → Result Progress
    load_segment p phdr_table phdr_entry_size i =
        let position = (phdr_table + i * phdr_entry_size) % 2 ^ 64 in
        if not (efi.set_position position)
        then panic "failed to move file pos to phdr entry"
        else elim (efi.read_header position) [
          | none ↦ panic "failed to read phdr from file"
          | some phdr ↦
              if phdr.type == elf_segt_null
              then ok p
              else if not (phdr.type == elf_segt_load)
              then failed_assertion
              else place_segment p i phdr
        ]

    unfoldable pub load_segments :
        Progress → (phdr_table phdr_entry_size i rounds : ℕ) → Result Progress
    load_segments p phdr_table phdr_entry_size i zero = ok p
    load_segments p phdr_table phdr_entry_size i (suc rounds) =
        and_then (load_segment p phdr_table phdr_entry_size i)
          λ p'. load_segments p' phdr_table phdr_entry_size (i + 1) rounds

    -- Eight pages for the stack, mapped at their own addresses; `call` numbers the allocation.
    unfoldable pub define_stack : Progress → (call : ℕ) → Result (ℕ × Progress)
    define_stack p call = elim (efi.allocate_pages call 8) [
      | none ↦ panic "failed to allocate stack pages"
      | some stack ↦
          and_then (map_pages p.tables cur_page stack stack 0x1000 0 8 "failed to map the stack")
            λ tables.
              and_then
                (push_entry p.entries (record { phys_addr = stack; virt_addr = stack; pages = 8 }))
                λ entries. ok (stack, record p { tables = tables; entries = entries })
    ]

-- The configuration table's entry with the wanted GUID, the last one; 0 is NULL.
unfoldable pub find_rsdp : (guids : ℕ → Bool) → (tables : ℕ → ℕ) → (i rounds rsdp : ℕ) → ℕ
find_rsdp guids tables i zero rsdp = rsdp
find_rsdp guids tables i (suc rounds) rsdp =
    find_rsdp guids tables (i + 1) rounds (if guids i then tables i else rsdp)
