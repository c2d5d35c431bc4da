-- ===== src/Mm/Init.antt =====
-- Kernel/src/mm/init.c, and `_mm_add_alloc` of Kernel/src/mm/internal.c: the page allocator is set up
-- from the memory map that the boot loader hands over.
--
-- The bitmap and the table of blocks lie in memory at `_mm_pages` and `_mm_allocs`; here they are
-- the state's own fields, as in the allocator.
pub mod FreePages
pub mod Blocks
mod Holding
pub mod Sound
mod Tests
use wheatley.Common.{
  ℕ, zero, suc, ◌+◌, ◌-◌, ◌*◌, ◌/◌, ◌%◌, ◌^◌, min, Bool, true, false, Option, none, some, List, [],
  ◌∷◌, bit_or, complement, leb, ◌==◌, ◌&&◌, if◌then◌else◌, update,
}
use wheatley.Mm.{
  Mm, Outcome, ok, panic, hang, alloc_max_size, set_page_bit, clear_page_bit, set_pages,
  clear_pages, lock, unlock,
}

-- `bootproto_pmm_entry_type_t`
pub data EntryType : Type 0 where
  free : EntryType
  used : EntryType
  reserved : EntryType

unfoldable pub is_free : EntryType → Bool
is_free free = true
is_free used = false
is_free reserved = false

-- `bootproto_pmm_entry_t`
pub record Entry : Type 0 where
  pub type : EntryType
  pub start : ℕ  -- uint64_t
  pub pages : ℕ  -- uint64_t

-- The sum of the first loop, `_mm_page_count`.
unfoldable pub total_pages : List Entry → ℕ → ℕ
total_pages [] count = count
total_pages (entry ∷ entries) count = total_pages entries ((count + entry.pages) % 2 ^ 64)

-- `sizeof(mm_alloc_data_t)` is 11.
abbrev pub alloc_pages : ℕ
alloc_pages = (11 * alloc_max_size + 4095) / 4096

-- The first free entry with room for the tables; 0 is NULL.
unfoldable pub find_space : List Entry → (total_needed_pages : ℕ) → ℕ
find_space [] total_needed_pages = 0
find_space (entry ∷ entries) total_needed_pages =
    let rest = find_space entries total_needed_pages in
    if leb total_needed_pages entry.pages && is_free entry.type then entry.start else rest

-- `_mm_add_alloc`
pub _mm_add_alloc : Mm → Entry → Mm
_mm_add_alloc m entry = record m {
  allocs = update m.allocs m.alloc_count (record {
    page_start = entry.start / 4096;
    page_count = entry.pages % 2 ^ 16;
    used = if is_free entry.type then false else true;
  });
  alloc_count = (m.alloc_count + 1) % 2 ^ 16;
}

-- `memset(_mm_pages, 0xFF, _mm_page_count)`: in each word, the bytes before the count.
pub set_all : Mm → Mm
set_all m = record m {
  pages = λ w. bit_or (m.pages w) (complement (8 * min (m.page_count - 4 * w) 4) 0);
}

-- One round of the loop over the memory map.
pub add_entry : Mm → Entry → Mm
add_entry m entry = elim entry.type [
  | free ↦ clear_pages m (entry.start / 4096) 0 entry.pages
  | used ↦ _mm_add_alloc m entry
  | reserved ↦ m
]

pub add_entries : Mm → List Entry → Mm
add_entries m [] = m
add_entries m (entry ∷ entries) = add_entries (add_entry m entry) entries

-- `mm_init`; the tables come to lie at the start of the space that is found.
pub mm_init : Mm → List Entry → Outcome (Unit {0})
mm_init m entries =
    if m.locked
    then hang
    else let count = (total_pages entries m.page_count + 7) % 2 ^ 64 / 8 in
      let total_needed_pages = alloc_pages + count in
      let space = find_space entries total_needed_pages in
      if space == 0
      then panic "Assertion failed: _mm_pages != NULL" (lock (record m { page_count = count }))
      else let m1 = set_all (lock (record m { page_count = count })) in
        let m2 = add_entries m1 entries in
        let m3 = set_pages m2 0 0 4096 in
        ok tt (unlock (set_pages m3 (space / 4096) 0 total_needed_pages))
