-- ===== src/Smp/Tests.antt =====
-- The start of processors at a table of three, and two of them counting themselves.
use wheatley.Common.{ℕ, ◌≡◌, refl, ◌↔◌, false, some, List, [], ◌∷◌, arith}
use wheatley.Smp.{Lapic, is_pending, is_wanted, smp_init, get_apic_id}
use wheatley.Smp.Started.{
  Delivers, all_started, wanted, wanted_ids, AreInOrder, smp_init-started, smp_init-ids,
}
use wheatley.Smp.Count.{
  Count, acquire, load, try, read, Reached, start, later, Counts, Reached-Counts, at_rest,
}

-- The boot processor, one that is enabled and has the number 4, and one that is switched off.
abbrev three : List Lapic
three =
    record { apic_id = 0; flags = 1 }
    ∷ record { apic_id = 4; flags = 1 }
    ∷ record { apic_id = 6; flags = 0 }
    ∷ []

abbrev at_once : ℕ → ℕ
at_once k = 0

at_once-Delivers : Delivers at_once 1
unfolding is_pending
at_once-Delivers k = (0, omega arith, refl)

second : (wanted 0 0 three ≡ 1 ∷ []) × (wanted_ids 0 three ≡ 4 ∷ [])
unfolding is_wanted
second = (refl, refl)

smp_init-started_example :
    (k : ℕ) × (smp_init false at_once 0 1 three ≡ some (all_started false (wanted 0 0 three), k))
unfolding get_apic_id
smp_init-started_example = smp_init-started false at_once 0 1 three at_once-Delivers

smp_init-ids_example :
    (targets : List ℕ) × (k : ℕ) × (smp_init false at_once 0 1 three
      ≡ some (all_started false targets, k))
    × ((targets ≡ wanted_ids 0 three) ↔ AreInOrder 0 0 three)
unfolding get_apic_id
smp_init-ids_example = smp_init-ids false at_once 0 1 three at_once-Delivers

-- Processor 1 takes the lock and reads while processor 0 spins.
abbrev both : Count
both = acquire (load (acquire at_rest 1) 1) 0

both-Reached : Reached 2 both
unfolding acquire load
both-Reached =
    later (later (later start (try 1 (omega arith) refl)) (read 1 (omega arith) refl))
      (try 0 (omega arith) refl)

Reached-Counts_example : Counts 2 both
Reached-Counts_example = Reached-Counts both-Reached
