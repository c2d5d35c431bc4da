-- ===== src/Paging/Startup/Devices.antt =====
-- What the drivers of the kernel ask of its memory once `kernel_main` of Kernel/src/main.c has set it up:
-- `efifb_module_init`, `fbtty_module_init`, `acpi_init` and `apic_init` call `vmm_map_page`, of an address
-- onto itself, and `kmalloc`.
mod Served
pub mod Working
use wheatley.Common.{ℕ, suc, ◌+◌, ◌^◌, ◌<◌, Option, none, some, List, [], ◌∷◌}
use wheatley.Common.{◌>>=◌}
use wheatley.Mm.{Mm, kmalloc, pages_for, ok, panic, hang}
use wheatley.Mm.Init.{Entry}
use wheatley.Paging.{State, Memory}
use wheatley.Paging.Kernel.{kernel_pages}
use wheatley.Paging.Startup.{VmmEntry, map_one}
use wheatley.Paging.Startup.Allocator.{memory_init}

pub data Request : Type 0 where
  page : (addr : ℕ) → Request
  memory : (len : ℕ) → Request

-- The calls in order; `none` where one does not return.
unfoldable pub serve : State kernel_pages → (top : ℕ) → List Request → Option (State kernel_pages)
serve st top [] = some st
serve st top (page addr ∷ rs) = map_one kernel_pages st top addr addr >>= λ st'. serve st' top rs
serve st top (memory len ∷ rs) = elim (kmalloc st.source len) [
  | ok ret m' ↦ serve (record { mem = st.mem; source = m' }) top rs
  | panic reason m' ↦ none
  | hang ↦ none
]

-- The set-up, and then the requests.
unfoldable pub kernel_memory :
    Mm → Memory → List VmmEntry → List Entry → List Request → Option (ℕ × State kernel_pages)
kernel_memory m mem sections entries rs =
    memory_init m mem sections entries >>= λ (top, st). serve st top rs >>= λ st'. some (top, st')

-- What is asked of the allocator: three pages for the tables of a page, the pages of a block, and n.
abbrev pub table_entries : List Request → ℕ → ℕ
table_entries [] n = n
table_entries (page addr ∷ rs) n = suc (suc (suc (table_entries rs n)))
table_entries (memory len ∷ rs) n = pages_for len + table_entries rs n

abbrev pub addresses : List Request → List ℕ
addresses [] = []
addresses (page addr ∷ rs) = addr ∷ addresses rs
addresses (memory len ∷ rs) = addresses rs

-- Each block has at least one page and fewer than 2^16.
abbrev pub AllShort : List Request → Type 0
AllShort [] = Unit
AllShort (page addr ∷ rs) = AllShort rs
AllShort (memory len ∷ rs) = ((0 < pages_for len) × (pages_for len < 2 ^ 16)) × AllShort rs
