-- ===== src/Paging/Startup.antt =====
-- `vmm_init` of Kernel/src/mm/vmm.c: the kernel's own page map, from the sections of the kernel, the
-- memory map and the first 256 MB.
pub mod Entries
pub mod Loops
pub mod Allocator
pub mod Devices
mod Tests
pub mod Translates
use wheatley.Common.{
  ℕ, zero, suc, ◌+◌, ◌-◌, ◌*◌, ◌/◌, ◌%◌, ◌^◌, ◌≤◌, ◌<◌, min, max, bit_and, bit_or, bit_xor, ◌≡◌,
  refl, sym, ap, ap₂, ◌∙◌, fun_ext, ◌≢◌, ◌↔◌, ◌⊎◌, inl, inr, Bool, true, false, not, ◌&&◌, ◌||◌,
  Option, none, some, List, [], ◌∷◌, ◌++◌, map, arith, ltb, leb, ◌==◌, if◌then◌else◌, ltb→lt,
  lt→ltb, ==_iff, ==_refl, Bool-cases, Option-cases, length, get_elem?, get_or, length-append,
  update, fill, shr, bit, complement, bit-or, bit-and, bit-lt, bit-two-pow, bit-complement,
  bit_or-lt, bit_and-le, bit_and-low, bit_and-up, bit_and-one, two-pow-lt, bit_and_digit, ℤ, pos,
  negsuc, bit_or_digit, bit-zero, bit-suc,
}
use wheatley.Common.{◌>>=◌}
use wheatley.Mm.Init.{Entry}
use wheatley.Paging.{PageSource, State, PageMap, Memory, vmm_map_page}

-- `bootproto_vmm_entry_t`, less its type, which is not read.
pub record VmmEntry : Type 0 where
  pub phys_addr : ℕ  -- uint64_t
  pub virt_addr : ℕ  -- uint64_t
  pub pages : ℕ  -- uint64_t

-- `uint64_t offset = j * 4096`: a product of type int, which is extended with its sign.
pub offset_of : (j : ℕ) → ℕ
offset_of j =
    let product = j * 4096 % 2 ^ 32 in
    if ltb product (2 ^ 31) then product else product + (2 ^ 64 - 2 ^ 32)

module _ (P : PageSource) where
  -- A call of `vmm_map_page` whose result is not looked at.
  unfoldable pub map_one : State P → (top phys virt : ℕ) → Option (State P)
  map_one st top phys virt =
      vmm_map_page P st (some (record { top_level = top; locked = false })) phys virt 0b11
      >>= λ (mapped, st'). some st'

  -- The loop over the pages of a section, from `j` on.
  pub map_range : State P → (top phys virt j rounds : ℕ) → Option (State P)
  map_range st top phys virt j zero = some st
  map_range st top phys virt j (suc rounds) =
      map_one st top ((phys + offset_of j) % 2 ^ 64) ((virt + offset_of j) % 2 ^ 64) >>= λ st'.
      map_range st' top phys virt (j + 1) rounds

  pub map_sections : State P → (top : ℕ) → List VmmEntry → Option (State P)
  map_sections st top [] = some st
  map_sections st top (entry ∷ entries) =
      map_range st top entry.phys_addr entry.virt_addr 0 entry.pages >>= λ st'.
      map_sections st' top entries

  pub map_memory : State P → (top : ℕ) → List Entry → Option (State P)
  map_memory st top [] = some st
  map_memory st top (entry ∷ entries) =
      map_range st top entry.start entry.start 0 entry.pages >>= λ st'. map_memory st' top entries

  -- The value of `kernel_pagemap.topLevel`, which goes to CR3, and what the tables are.
  pub vmm_init : State P → List VmmEntry → List Entry → Option (ℕ × State P)
  vmm_init st sections memory = PageSource.alloc P st.source >>= λ (top, source).
      map_sections (record { mem = fill st.mem top 4096 0; source = source }) top sections
      >>= λ st1. map_memory st1 top memory >>= λ st2.
          map_range st2 top 0 0 0 0x10000 >>= λ st3. some (top, st3)
