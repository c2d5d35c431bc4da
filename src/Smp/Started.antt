-- ===== src/Smp/Started.antt =====
-- What `smp_init` of Kernel/src/sys/smp.c sends, and to whom.
use wheatley.Common.{
  ℕ, zero, suc, ◌+◌, ◌<◌, ◌≡◌, refl, ap, ◌∙◌, ◌↔◌, inl, inr, Bool, true, false, some, List, [], ◌∷◌,
  ◌++◌, map, arith, if◌then◌else◌, Bool-cases, get_elem?,
}
use mathlib.Core.List.{append-nil}
use wheatley.Apic.{lapic_write, apic_send_ipi}
use wheatley.Smp.{
  Lapic, Event, write, pause_us, is_pending, wait_for_delivery, is_wanted, send_and_wait,
  clear_errors, send_startup, bring_up, smp_loop, smp_init, get_apic_id,
}

-- Wherever a wait begins, one of the next `fuel` reads shows that the signal was delivered.
abbrev pub Delivers : (ℕ → ℕ) → (fuel : ℕ) → Type 0
Delivers status fuel = (k : ℕ) → (n : ℕ) × (n < fuel) × (is_pending (status (k + n)) ≡ false)

-- INIT, its deassertion, and twice the startup IPI for 0800:0000, for one processor.
abbrev pub startup_round : Bool → (target : ℕ) → List Event
startup_round x2apic target =
    write (lapic_write x2apic 0x280 0) ∷ map write (apic_send_ipi x2apic target 0x608)
    ++ pause_us 200 ∷ []

abbrev pub started : Bool → (target : ℕ) → List Event
started x2apic target =
    write (lapic_write x2apic 0x280 0) ∷ map write (apic_send_ipi x2apic target 0xc500)
    ++ map write (apic_send_ipi x2apic target 0x8500)
    ++ (pause_us 10000 ∷ startup_round x2apic target ++ startup_round x2apic target)

abbrev pub all_started : Bool → List ℕ → List Event
all_started x2apic [] = []
all_started x2apic (target ∷ targets) = started x2apic target ++ all_started x2apic targets

-- The positions, from `i` on, of the processors that are wanted.
abbrev pub wanted : (bsp_id i : ℕ) → List Lapic → List ℕ
wanted bsp_id i [] = []
wanted bsp_id i (lapic ∷ lapics) =
    if is_wanted bsp_id lapic
    then i ∷ wanted bsp_id (i + 1) lapics
    else wanted bsp_id (i + 1) lapics

module _ (x2apic : Bool) (status : ℕ → ℕ) where
  wait_within :
      (fuel k n : ℕ)
      → n < fuel
      → is_pending (status (k + n)) ≡ false
      → (k' : ℕ) × (wait_for_delivery status k fuel ≡ some k')
  unfolding wait_for_delivery
  wait_within zero k n lt clear = absurd (omega arith)
  wait_within (suc fuel) k zero lt clear = (k + 1, ground arith)
  wait_within (suc fuel) k (suc n) lt clear = elim (Bool-cases (is_pending (status k))) [
    | inl busy ↦
        let (k', e) = wait_within fuel (k + 1) n (omega arith) (ground arith) in (k', ground arith)
    | inr idle ↦ (k + 1, ground arith)
  ]

  module _ (fuel : ℕ) (delivers : Delivers status fuel) where
    send_and_wait-sent :
        (target flags k : ℕ) (delays : List Event)
        → (k' : ℕ) × (send_and_wait x2apic status target flags fuel k delays
            ≡ some (map write (apic_send_ipi x2apic target flags) ++ delays, k'))
    unfolding send_and_wait
    send_and_wait-sent target flags k delays =
        let (n, lt, clear) = delivers k in let (k', e) = wait_within fuel k n lt clear in (k', rw e)

    send_startup-sent :
        (target k : ℕ)
        → (k' : ℕ) × (send_startup x2apic status target fuel k 2
            ≡ some (startup_round x2apic target ++ startup_round x2apic target, k'))
    unfolding send_startup clear_errors
    send_startup-sent target k =
        let (k1, e1) = send_and_wait-sent target 0x608 k (pause_us 200 ∷ []) in
        let (k2, e2) = send_and_wait-sent target 0x608 k1 (pause_us 200 ∷ []) in
        (k2, rw (e1, e2, append-nil))

    bring_up-started :
        (target k : ℕ)
        → (k' : ℕ) × (bring_up x2apic status target fuel k ≡ some (started x2apic target, k'))
    unfolding bring_up clear_errors
    bring_up-started target k =
        let (k1, e1) = send_and_wait-sent target 0xc500 k [] in
        let (k2, e2) = send_and_wait-sent target 0x8500 k1 [] in
        let (k3, e3) = send_startup-sent target k2 in (k3, rw (e1, e2, e3, append-nil, append-nil))

    smp_loop-started :
        (bsp_id i k : ℕ) (lapics : List Lapic)
        → (k' : ℕ) × (smp_loop x2apic status bsp_id fuel i k lapics
            ≡ some (all_started x2apic (wanted bsp_id i lapics), k'))
    unfolding smp_loop
    smp_loop-started bsp_id i k [] = (k, refl)
    smp_loop-started bsp_id i k (lapic ∷ lapics) = elim (Bool-cases (is_wanted bsp_id lapic)) [
      | inl up ↦
          let (k1, e1) = bring_up-started i k in
          let (k2, e2) = smp_loop-started bsp_id (i + 1) k1 lapics in
          (k2, rw (up, e1, e2, smp_loop))
      | inr down ↦
          let (k1, e1) = smp_loop-started bsp_id (i + 1) k lapics in (k1, rw (down, e1, smp_loop))
    ]

-- When every wait for delivery is answered within `fuel` reads, `smp_init` ends, and it has sent INIT,
-- its deassertion and two startup IPIs, in this order, once for each processor other than the boot
-- processor that is enabled or online capable; each goes to the position that the processor has in
-- the table.
pub smp_init-started :
    (x2apic : Bool) (status : ℕ → ℕ) (rbx fuel : ℕ) (lapics : List Lapic)
    → Delivers status fuel
    → (k : ℕ) × (smp_init x2apic status rbx fuel lapics
        ≡ some (all_started x2apic (wanted (get_apic_id rbx) 0 lapics), k))
unfolding smp_init
smp_init-started x2apic status rbx fuel lapics delivers =
    smp_loop-started x2apic status fuel delivers (get_apic_id rbx) 0 0 lapics

-- The numbers of the wanted processors.
abbrev pub wanted_ids : (bsp_id : ℕ) → List Lapic → List ℕ
wanted_ids bsp_id [] = []
wanted_ids bsp_id (lapic ∷ lapics) =
    if is_wanted bsp_id lapic
    then lapic.apic_id ∷ wanted_ids bsp_id lapics
    else wanted_ids bsp_id lapics

-- Every wanted processor has its position, counted from `i`, for a number.
abbrev pub AreInOrder : (bsp_id i : ℕ) → List Lapic → Type 0
AreInOrder bsp_id i lapics =
    (j : ℕ) (lapic : Lapic)
    → get_elem? lapics j ≡ some lapic
    → is_wanted bsp_id lapic ≡ true
    → lapic.apic_id ≡ i + j

module _ (bsp_id : ℕ) where
  AreInOrder-later :
      (i : ℕ) (lapic : Lapic) (lapics : List Lapic)
      → AreInOrder bsp_id i (lapic ∷ lapics)
      → AreInOrder bsp_id (i + 1) lapics
  AreInOrder-later i lapic lapics o j l at up = omega (arith, o (suc j) l at up)

  wanted-ids :
      (i : ℕ) (lapics : List Lapic)
      → AreInOrder bsp_id i lapics
      → wanted bsp_id i lapics ≡ wanted_ids bsp_id lapics
  wanted-ids i [] o = refl
  wanted-ids i (lapic ∷ lapics) o =
      let rest = wanted-ids (i + 1) lapics (AreInOrder-later i lapic lapics o) in
      elim (Bool-cases (is_wanted bsp_id lapic)) [
        | inl up ↦
            let at : lapic.apic_id ≡ i = omega (arith, o 0 lapic refl up) in rw (up, rest, at)
        | inr down ↦ rw (down, rest)
      ]

  wanted-split :
      (i : ℕ) (lapic : Lapic) (lapics : List Lapic)
      → wanted bsp_id i (lapic ∷ lapics) ≡ wanted_ids bsp_id (lapic ∷ lapics)
      → (is_wanted bsp_id lapic ≡ true → lapic.apic_id ≡ i)
        × (wanted bsp_id (i + 1) lapics ≡ wanted_ids bsp_id lapics)
  wanted-split i lapic lapics e = elim (Bool-cases (is_wanted bsp_id lapic)) [
    | inl up ↦
        let same : i ∷ wanted bsp_id (i + 1) lapics ≡ lapic.apic_id ∷ wanted_ids bsp_id lapics =
          ground arith in
        (λ _. cc same, cc same)
    | inr down ↦ (λ up. cc, ground arith)
  ]

  AreInOrder-from :
      (i : ℕ) (lapics : List Lapic)
      → wanted bsp_id i lapics ≡ wanted_ids bsp_id lapics
      → AreInOrder bsp_id i lapics
  AreInOrder-from i [] e j l at up = cc at
  AreInOrder-from i (lapic ∷ lapics) e zero l at up =
      let (first, rest) = wanted-split i lapic lapics e in
      let same : lapic ≡ l = cc at in
      omega (arith, ap (λ x. x.apic_id) same, first (ap (is_wanted bsp_id) same ∙ up))
  AreInOrder-from i (lapic ∷ lapics) e (suc j) l at up =
      let (first, rest) = wanted-split i lapic lapics e in
      omega (arith, AreInOrder-from (i + 1) lapics rest j l at up)

-- `smp_init` signals the processors it means to start, each by its own number, exactly when every
-- wanted processor stands in the table at the position that is its number; the waits are answered
-- within `fuel` reads.
pub smp_init-ids :
    (x2apic : Bool) (status : ℕ → ℕ) (rbx fuel : ℕ) (lapics : List Lapic)
    → Delivers status fuel
    → (targets : List ℕ) × (k : ℕ) × (smp_init x2apic status rbx fuel lapics
        ≡ some (all_started x2apic targets, k))
      × ((targets ≡ wanted_ids (get_apic_id rbx) lapics) ↔ AreInOrder (get_apic_id rbx) 0 lapics)
smp_init-ids x2apic status rbx fuel lapics delivers =
    let bsp_id = get_apic_id rbx in
    let (k, e) = smp_init-started x2apic status rbx fuel lapics delivers in
    (wanted bsp_id 0 lapics, k, e, (AreInOrder-from bsp_id 0 lapics, wanted-ids bsp_id 0 lapics))
