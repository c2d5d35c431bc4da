-- ===== src/Paging/Empty.antt =====
-- A page map of Kernel/src/mm/vmm.c without entries, its top table just allocated: what the examples
-- start from.
use wheatley.Common.{ℕ, ◌^◌, ◌<◌, refl, arith, fill}
use wheatley.Paging.{State}
use wheatley.Paging.Bump.{bump, bump_alloc}
use wheatley.Paging.Startup.Loops.{Stands}
use wheatley.Paging.Startup.Translates.{no_entries, new_table-Stands}

abbrev pub empty : State bump
unfolding bump
empty = record { mem = fill (λ _. 7) 0x100000 4096 0; source = 0x101000 }

pub empty-Stands : (n : ℕ) → n < 2 ^ 50 → Stands bump 0x100000 no_entries n empty
unfolding bump bump_alloc
empty-Stands n few =
    new_table-Stands bump n 0x100000 (λ _. 7) 0x100000 0x101000 (refl, omega arith, omega arith)
      (refl, omega arith, omega arith) refl (omega arith)
