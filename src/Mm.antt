-- ===== src/Mm.antt =====
-- Kernel/src/mm/internal.c and Kernel/src/mm/mm.c: the page bitmap, the allocation table and the
-- three entry points `kmalloc`, `kfree` and `krealloc`.
--
-- `pages` is the array `_mm_pages` of 32-bit words, a function of the index, so that a read or a
-- write past the bitmap's end is one of a word that the bitmap does not own. `allocs` is
-- `_mm_allocs`; `_mm_alloc_count` is a uint16_t. `ram` is the memory that the pages stand for, by
-- byte address. A loop counts the rounds left. The counters `int i` and `int j` are compared with
-- 64-bit lengths: for fewer than 2^31 pages they are the numbers used here.
mod PageBits
pub mod FirstFit
mod Table
mod Consistent
pub mod Calls
pub mod Kmalloc
mod Kfree
mod Krealloc
mod Pool
mod Refine
pub mod Init
mod Tests
use wheatley.Common.{
  ℕ, zero, suc, ◌+◌, ◌-◌, ◌*◌, ◌/◌, ◌%◌, ◌^◌, Bool, true, false, Option, none, some, bit_and,
  bit_or, bit, complement, ltb, leb, ◌==◌, if◌then◌else◌, update, ◌&&◌,
}
use Prim.Native.String.{String}
use wheatley.Text.{memcpy}

-- `mm_alloc_data_t`
pub record Alloc : Type 0 where
  pub page_start : ℕ  -- uint64_t
  pub page_count : ℕ  -- uint16_t
  pub used : Bool

pub record Mm : Type 0 where
  pub pages : ℕ → ℕ
  pub page_count : ℕ  -- bytes of the bitmap
  pub allocs : ℕ → Alloc
  pub alloc_count : ℕ
  pub locked : Bool  -- `_mm_spinlock`
  pub ram : ℕ → ℕ

-- How a call ends: it returns, it calls `panic`, or it spins on the lock for ever.
pub data Outcome (A : Type 0) : Type 0 where
  ok : A → Mm → Outcome A
  panic : String → Mm → Outcome A
  hang : Outcome A

abbrev pub and_then : {A B : Type 0} → Outcome A → (A → Mm → Outcome B) → Outcome B
and_then (ok a m) k = k a m
and_then (panic reason m) k = panic reason m
and_then hang k = hang

abbrev pub lock : Mm → Mm
lock m = record m { locked = true }

abbrev pub unlock : Mm → Mm
unlock m = record m { locked = false }

-- `MM_ALLOC_MAX_SIZE`
abbrev pub alloc_max_size : ℕ
alloc_max_size = 1024

-- The result -1 of `_mm_find_page`.
abbrev pub no_page : ℕ
no_page = 2 ^ 64 - 1

unfoldable pub get_page_bit : Mm → ℕ → Bool
get_page_bit m page = bit (m.pages (page / 32)) (page % 32) == 1

pub set_page_bit : Mm → ℕ → Mm
set_page_bit m page = record m {
  pages = update m.pages (page / 32) (bit_or (m.pages (page / 32)) (2 ^ (page % 32)));
}

pub clear_page_bit : Mm → ℕ → Mm
clear_page_bit m page = record m {
  pages =
      update m.pages (page / 32) (bit_and (m.pages (page / 32)) (complement 32 (2 ^ (page % 32))));
}

-- The inner loop of `_mm_find_page`, from `j` on: no page of `i + j`, … is taken.
pub run_is_free : Mm → ℕ → ℕ → ℕ → Bool
run_is_free m i j zero = true
run_is_free m i j (suc rounds) =
    let rest = run_is_free m i (j + 1) rounds in if get_page_bit m (i + j) then false else rest

pub find_page_loop : Mm → ℕ → ℕ → ℕ → ℕ
find_page_loop m len i zero = no_page
find_page_loop m len i (suc rounds) =
    let rest = find_page_loop m len (i + 1) rounds in
    if get_page_bit m i then rest else if run_is_free m i 1 (len - 1) then i else rest

pub find_page : Mm → ℕ → ℕ
find_page m len = find_page_loop m len 0 (m.page_count * 8)

pub find_alloc_loop : Mm → ℕ → ℕ → ℕ → Option ℕ
find_alloc_loop m page_start i zero = none
find_alloc_loop m page_start i (suc rounds) =
    let rest = find_alloc_loop m page_start (i + 1) rounds in
    if (m.allocs i).page_start == page_start then some i else rest

-- The entry's index; the parameter `pageStart` is a uint32_t.
pub find_alloc : Mm → ℕ → Option ℕ
find_alloc m page = find_alloc_loop m (page % 2 ^ 32) 0 m.alloc_count

pub set_pages : Mm → ℕ → ℕ → ℕ → Mm
set_pages m page i zero = m
set_pages m page i (suc rounds) = set_pages (set_page_bit m (page + i)) page (i + 1) rounds

pub clear_pages : Mm → ℕ → ℕ → ℕ → Mm
clear_pages m page i zero = m
clear_pages m page i (suc rounds) = clear_pages (clear_page_bit m (page + i)) page (i + 1) rounds

-- `(len + 4095) / 4096` in 64 bits
abbrev pub pages_for : ℕ → ℕ
pages_for len = (len + 4095) % 2 ^ 64 / 4096

-- The entry for `page`: the one at hand, or a new one at the end of the table.
pub claim : Mm → ℕ → ℕ × Mm
claim m page = elim (find_alloc m page) [
  | some i ↦ (i, m)
  | none ↦ (
    m.alloc_count,
    record m {
      allocs =
          update m.allocs m.alloc_count (record (m.allocs m.alloc_count) { page_start = page });
      alloc_count = (m.alloc_count + 1) % 2 ^ 16;
    },
  )
]

pub set_alloc : Mm → ℕ → ℕ → Bool → Mm
set_alloc m i count used = record m {
  allocs = update m.allocs i (record (m.allocs i) { page_count = count % 2 ^ 16; used = used });
}

-- What `kmalloc` does once a page is found, under the lock.
pub take_pages : Mm → ℕ → ℕ → Mm
take_pages m page needed =
    let (i, m') = claim m page in set_pages (set_alloc m' i needed true) page 0 needed

pub kmalloc : Mm → ℕ → Outcome ℕ
kmalloc m len =
    if m.locked
    then hang
    else let page = find_page (lock m) (pages_for len) in
      if page == no_page
      then ok 0 (unlock m)
      else ok (page * 4096 % 2 ^ 64) (unlock (take_pages (lock m) page (pages_for len)))

-- What `kfree` does once the entry `i` is found, under the lock.
pub release_pages : Mm → ℕ → ℕ → Mm
release_pages m i page =
    let count = (m.allocs i).page_count in
    clear_pages (record m { allocs = update m.allocs i (record (m.allocs i) { used = false }) })
      page 0 count

pub kfree : Mm → ℕ → Outcome (Unit {0})
kfree m buf = if m.locked then hang else elim (find_alloc (lock m) (buf / 4096)) [
  | none ↦ panic "kfree: failed to find alloc" (lock m)
  | some i ↦ ok tt (unlock (release_pages (lock m) i (buf / 4096)))
]

-- `memcpy` on the memory behind the pages.
pub copy : Mm → ℕ → ℕ → ℕ → Mm
copy m dst src n = record m { ram = memcpy m.ram dst src n }

-- A buffer too small moves: the entry is read again for its size, after `kmalloc` has run.
pub move : Mm → ℕ → ℕ → ℕ → Outcome ℕ
move m i buf new_len = and_then (kmalloc m new_len) λ new_buf m'.
    and_then (kfree (copy m' new_buf buf ((m'.allocs i).page_count * 4096)) buf)
      λ _ m''. ok new_buf m''

pub krealloc : Mm → ℕ → ℕ → Outcome ℕ
krealloc m buf new_len =
    if buf == 0
    then kmalloc m new_len
    else if m.locked
    then hang
    else elim (find_alloc (lock m) (buf / 4096)) [
      | none ↦ panic "krealloc: failed to find alloc" (lock m)
      | some i ↦
          if leb (pages_for new_len) (m.allocs i).page_count
          then ok buf (unlock m)
          else move (unlock m) i buf new_len
    ]
