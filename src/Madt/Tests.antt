-- ===== src/Madt/Tests.antt =====
-- Runs of `madt_init` of Kernel/src/fw/madt.c at a concrete table.
use wheatley.Common.{
  ℕ, ◌+◌, ◌^◌, ◌%◌, ◌<◌, ◌≡◌, refl, none, List, [], ◌∷◌, arith, ◌⊎◌, inl, inr, ap, get_or,
  if◌then◌else◌, leb, ◌-◌,
}
use wheatley.Madt.{Memory, Madt, madt_init, walk, done, length_of}
use wheatley.Madt.Walk.{Records, IsRecord, at_start, behind, Fits, walk_stuck}
use wheatley.Madt.Sorted.{Sorted, no_records, Few-of_short}
use wheatley.Madt.Mapping.{madt_init-Maps}
use wheatley.Paging.Bump.{bump, bump-Gives}
use wheatley.Paging.Empty.{empty, empty-Stands}
use wheatley.Paging.Identity.{map_each, MapsSelves}

-- A local APIC and an I/O APIC behind the header, which is left out.
abbrev record_bytes : List ℕ
record_bytes =
    0 ∷ 8 ∷ 0 ∷ 0 ∷ 1 ∷ 0 ∷ 0 ∷ 0 ∷ 1 ∷ 12 ∷ 2 ∷ 0 ∷ 0 ∷ 0 ∷ 0xc0 ∷ 0xfe ∷ 0 ∷ 0 ∷ 0 ∷ 0 ∷ []

abbrev table_memory : Memory
table_memory a = if leb 0x102c a then get_or record_bytes (a - 0x102c) 0 % 2 ^ 8 else 0

table_bytes : (a : ℕ) → table_memory a < 2 ^ 8
table_bytes a = ground arith

table-Fits : Fits table_memory (0x1000 + 0x40)
table-Fits = record { bytes = table_bytes; below = omega arith }

two_records :
    (r : ℕ) → IsRecord table_memory (0x1000 + 0x40) (0x1000 + 0x2c) r → (r ≡ 0x102c) ⊎ (r ≡ 0x1034)
two_records r at_start = inl refl
two_records r (behind q here lt) = elim (two_records q here) [
  | inl e ↦ inr (ap (λ q. q + length_of table_memory q) e)
  | inr e ↦ absurd (omega (arith, ap (λ q. q + length_of table_memory q) e))
]

table-nonzero :
    (r : ℕ) → IsRecord table_memory (0x1000 + 0x40) (0x1000 + 0x2c) r → 0 < length_of table_memory r
table-nonzero r here = elim (two_records r here) [
  | inl e ↦ rw e (omega arith)
  | inr e ↦ rw e (omega arith)
]

madt_init-Maps_example :
    (rs : List ℕ) × (m : Madt) × (mapped : List ℕ) × Records table_memory
      (0x1000 + 0x40)
      (0x1000 + 0x2c)
      rs
    × (madt_init table_memory 0x40 0x1000 0x40 0xfee00000 no_records ≡ done m mapped)
    × Sorted table_memory 0xfee00000 rs m
    × (mapped ≡ m.lapic_addr ∷ [])
    × MapsSelves bump 0x100000 empty mapped 0 (map_each bump 0x100000 empty mapped)
madt_init-Maps_example =
    madt_init-Maps table_memory 0x1000 0x40 0xfee00000 (omega arith) table-Fits (omega arith)
      table-nonzero
      (λ rs chain.
        Few-of_short table_memory (0x1000 + 0x40) (0x1000 + 0x2c) table-nonzero rs chain
          (omega arith) (omega arith))
      bump 0x100000 bump-Gives 0 empty (empty-Stands 3 (omega arith)).role
      (empty-Stands 3 (omega arith)).tree (empty-Stands 3 (omega arith)).ready

walk_stuck_example : walk (λ _. 0) 1000 0x102c 0x1040 no_records ≡ none
walk_stuck_example =
    walk_stuck (λ _. 0) 1000 0x102c 0x1040 no_records (omega arith) (omega arith) (omega arith) refl
