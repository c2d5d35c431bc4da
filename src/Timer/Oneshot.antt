-- ===== src/Timer/Oneshot.antt =====
-- The count of `timer_sched_oneshot` in Kernel/src/drivers/timer/apic.c.
use wheatley.Common.{ℕ, ◌+◌, ◌*◌, ◌/◌, ◌^◌, ◌≤◌, ◌<◌, ◌≡◌, ap, ◌∙◌, arith}
use wheatley.Timer.{oneshot_count}

-- The timer counts whole milliseconds, of which it takes the tenth part of the ticks of ten, rounded
-- down, where the product is in 32 bits; a time below one millisecond gives 0.
pub oneshot_count-bounds :
    (ticks us : ℕ)
    → ticks * (us / 1000) < 2 ^ 32
    → (oneshot_count ticks us * 10 ≤ ticks * (us / 1000))
      × (ticks * (us / 1000) < oneshot_count ticks us * 10 + 10)
      × (us < 1000 → oneshot_count ticks us ≡ 0)
unfolding oneshot_count
oneshot_count-bounds ticks us small = (
  omega arith,
  omega arith,
  λ lt.
      let none_left : us / 1000 ≡ 0 = omega arith in
      let e : ticks * (us / 1000) ≡ 0 = ap (λ k. ticks * k) none_left ∙ omega arith in
      omega (arith, e),
)
