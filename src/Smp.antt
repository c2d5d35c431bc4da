-- ===== src/Smp.antt =====
-- Kernel/src/sys/smp.c: the processors that are brought up, the signals sent to them, and the count of
-- those that run.
--
-- What the processor that boots sends and waits for is a list of events. `status k` is the value of
-- the k-th read of the interrupt command register; a wait on its delivery bit runs on fuel.
-- Smp/Trampoline.antt has what is copied to low memory before.
pub mod Trampoline
pub mod Startup
mod Started
mod Count
mod Tests
use wheatley.Common.{
  ℕ, zero, suc, ◌+◌, ◌-◌, ◌*◌, ◌/◌, ◌%◌, ◌^◌, ◌≤◌, ◌<◌, min, max, bit_and, bit_or, bit_xor, ◌≡◌,
  refl, sym, ap, ap₂, ◌∙◌, fun_ext, ◌≢◌, ◌↔◌, ◌⊎◌, inl, inr, Bool, true, false, not, ◌&&◌, ◌||◌,
  Option, none, some, List, [], ◌∷◌, ◌++◌, map, arith, ltb, leb, ◌==◌, if◌then◌else◌, ltb→lt,
  lt→ltb, ==_iff, ==_refl, Bool-cases, Option-cases, length, get_elem?, get_or, length-append,
  update, fill, shr, bit, complement, bit-or, bit-and, bit-lt, bit-two-pow, bit-complement,
  bit_or-lt, bit_and-le, bit_and-low, bit_and-up, bit_and-one, two-pow-lt, bit_and_digit, ℤ, pos,
  negsuc, bit_or_digit, bit-zero, bit-suc,
}
use wheatley.Common.{◌>>=◌}
use wheatley.Apic.{Write, lapic_write, apic_send_ipi}

-- The fields of `madt_lapic_t` that are read.
pub record Lapic : Type 0 where
  pub apic_id : ℕ  -- uint8_t
  pub flags : ℕ  -- uint32_t

pub data Event : Type 0 where
  write : Write → Event
  pause_us : (us : ℕ) → Event  -- `udelay`, and `mdelay` by the thousand

-- `(uint8_t)` of `data.rbx >> 24`, from `cpuid(1)`
pub get_apic_id : (rbx : ℕ) → ℕ
get_apic_id rbx = rbx / 2 ^ 24 % 2 ^ 8

-- `lapic_read(0x300) & (1 << 12)`
pub is_pending : (command : ℕ) → Bool
is_pending command = not (bit_and command (2 ^ 12) == 0)

-- A `do` loop from the read `k` on: the read after the one that ends it.
pub wait_for_delivery : (status : ℕ → ℕ) → (k fuel : ℕ) → Option ℕ
wait_for_delivery status k zero = none
wait_for_delivery status k (suc fuel) =
    let rest = wait_for_delivery status (k + 1) fuel in
    if is_pending (status k) then rest else some (k + 1)

-- Neither the boot processor nor one that is not enabled nor online capable.
pub is_wanted : (bsp_id : ℕ) → Lapic → Bool
is_wanted bsp_id lapic =
    not (lapic.apic_id == bsp_id)
    && not ((bit_and lapic.flags 1 == 0) && (bit_and lapic.flags 2 == 0))

-- An IPI to the processor `target`, and the wait for its delivery.
pub send_and_wait :
    (x2apic : Bool)
    → (status : ℕ → ℕ) → (target flags fuel k : ℕ) → (delays : List Event) → Option (List Event × ℕ)
send_and_wait x2apic status target flags fuel k delays = do
  k' ← wait_for_delivery status k fuel
  some (map write (apic_send_ipi x2apic target flags) ++ delays, k')

clear_errors : Bool → Event
clear_errors x2apic = write (lapic_write x2apic 0x280 0)

-- The rounds of the loop that sends the startup IPI.
pub send_startup :
    (x2apic : Bool) → (status : ℕ → ℕ) → (target fuel k rounds : ℕ) → Option (List Event × ℕ)
send_startup x2apic status target fuel k zero = some ([], k)
send_startup x2apic status target fuel k (suc rounds) = do
  (sent, k') ← send_and_wait x2apic status target 0x608 fuel k (pause_us 200 ∷ [])
  (rest, k'') ← send_startup x2apic status target fuel k' rounds
  some (clear_errors x2apic ∷ sent ++ rest, k'')

pub bring_up : (x2apic : Bool) → (status : ℕ → ℕ) → (target fuel k : ℕ) → Option (List Event × ℕ)
bring_up x2apic status target fuel k = do
  (init, k1) ← send_and_wait x2apic status target 0xc500 fuel k []
  (deassert, k2) ← send_and_wait x2apic status target 0x8500 fuel k1 []
  (startup, k3) ← send_startup x2apic status target fuel k2 2
  some (clear_errors x2apic ∷ init ++ deassert ++ pause_us 10000 ∷ startup, k3)

-- The loop of `smp_init` over the local APICs, from the one with the number `i` on.
pub smp_loop :
    (x2apic : Bool)
    → (status : ℕ → ℕ) → (bsp_id fuel i k : ℕ) → List Lapic
    → Option (List Event × ℕ)
smp_loop x2apic status bsp_id fuel i k [] = some ([], k)
smp_loop x2apic status bsp_id fuel i k (lapic ∷ lapics) = elim (is_wanted bsp_id lapic) [
  | true ↦ (do
    (events, k') ← bring_up x2apic status i fuel k
    (rest, k'') ← smp_loop x2apic status bsp_id fuel (i + 1) k' lapics
    some (events ++ rest, k''))
  | false ↦ smp_loop x2apic status bsp_id fuel (i + 1) k lapics
]

pub smp_init :
    (x2apic : Bool) → (status : ℕ → ℕ) → (rbx fuel : ℕ) → List Lapic → Option (List Event × ℕ)
smp_init x2apic status rbx fuel lapics = smp_loop x2apic status (get_apic_id rbx) fuel 0 0 lapics
