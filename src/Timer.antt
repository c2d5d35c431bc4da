-- ===== src/Timer.antt =====
-- Kernel/src/drivers/timer/hpet.c and Kernel/src/drivers/timer/apic.c: waiting on the HPET's counter,
-- and the counts of the local APIC's timer.
--
-- The counter is a function of how often it has been read. The loop of `hpet_sleep` runs on fuel.
pub mod Registers
mod Sleep
mod Oneshot
mod Tests
use wheatley.Common.{
  ℕ, zero, suc, ◌+◌, ◌-◌, ◌*◌, ◌/◌, ◌%◌, ◌^◌, Option, none, some, ltb, bit_or, if◌then◌else◌, List,
  [], ◌∷◌,
}

-- `NANOSECONDS_100`, in femtoseconds.
abbrev pub nanoseconds_100 : ℕ
nanoseconds_100 = 100000000

-- What `hpet_init` computes from the length of a tick, in femtoseconds.
unfoldable pub multiplier : (counter_clk_period : ℕ) → ℕ
multiplier counter_clk_period = nanoseconds_100 / counter_clk_period

pub hpet_time : (multiplier counter : ℕ) → ℕ
hpet_time multiplier counter = counter / multiplier

-- The loop, from the read `k` on: the read that ends it, and `none` out of fuel.
pub sleep_loop : (clock : ℕ → ℕ) → (multiplier comparator_time k fuel : ℕ) → Option ℕ
sleep_loop clock multiplier comparator_time k zero = none
sleep_loop clock multiplier comparator_time k (suc fuel) =
    let rest = sleep_loop clock multiplier comparator_time (k + 1) fuel in
    if ltb (hpet_time multiplier (clock k)) comparator_time then rest else some k

pub hpet_sleep : (clock : ℕ → ℕ) → (multiplier ns fuel : ℕ) → Option ℕ
hpet_sleep clock multiplier ns fuel =
    sleep_loop clock multiplier ((hpet_time multiplier (clock 0) + ns) % 2 ^ 64) 1 fuel

pub udelay : (clock : ℕ → ℕ) → (multiplier us fuel : ℕ) → Option ℕ
udelay clock multiplier us fuel = hpet_sleep clock multiplier (us * 10 % 2 ^ 64) fuel

pub mdelay : (clock : ℕ → ℕ) → (multiplier ms fuel : ℕ) → Option ℕ
mdelay clock multiplier ms fuel = udelay clock multiplier (ms * 1000 % 2 ^ 64) fuel

-- `ticksIn10ms`, from the count that is left after the wait.
pub ticks_in_10ms : (current_count : ℕ) → ℕ
ticks_in_10ms current_count = 0xffffffff - current_count

-- The writes to the local APIC, as the register and the value.
pub apic_timer_init : (current_count : ℕ) → List (ℕ × ℕ)
apic_timer_init current_count =
    (0x3e0, 3)
    ∷ (0x380, 0xffffffff)
    ∷ (0x320, 0x10000)
    ∷ (0x320, bit_or 32 0x20000)
    ∷ (0x3e0, 3)
    ∷ (0x380, ticks_in_10ms current_count / 10)
    ∷ []

pub timer_stop_sched : List (ℕ × ℕ)
timer_stop_sched = (0x380, 0) ∷ (0x320, 2 ^ 16) ∷ []

-- The count of `timer_sched_oneshot`, in 32 bits.
pub oneshot_count : (ticks us : ℕ) → ℕ
oneshot_count ticks us = ticks * (us / 1000) % 2 ^ 32 / 10
