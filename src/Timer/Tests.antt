-- ===== src/Timer/Tests.antt =====
-- A sleep of Kernel/src/drivers/timer/hpet.c.
use wheatley.Common.{ℕ, ◌+◌, ◌*◌, ◌<◌, ◌≡◌, some, arith}
use wheatley.Timer.{hpet_time, hpet_sleep}
use wheatley.Timer.Sleep.{FirstAt, hpet_sleep-FirstAt}

-- A counter that goes on by 4 with every read, 10 ticks to the unit.
abbrev clock : ℕ → ℕ
clock k = 1000 + 4 * k

hpet_sleep-FirstAt_example :
    (k : ℕ) × (hpet_sleep clock 10 3 20 ≡ some k)
    × FirstAt clock 10 (hpet_time 10 (clock 0) + 3) 1 k
    × (1000 + 2 * 10 < clock k)
unfolding hpet_time
hpet_sleep-FirstAt_example =
    hpet_sleep-FirstAt clock 10 3 20 (omega arith) (omega arith) (omega arith) (omega arith)
      (omega arith)
