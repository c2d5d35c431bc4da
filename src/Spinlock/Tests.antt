-- ===== src/Spinlock/Tests.antt =====
-- Two threads at the lock, and the theorems there.
use wheatley.Common.{ℕ, ◌≡◌, refl, ◌≢◌, arith}
use wheatley.Spinlock.{
  spinning, inside, System, try_acquire, release, enter, leave, initial, Reach, start, later,
}
use wheatley.Spinlock.Safety.{Exclusive, Reach-Exclusive}

-- Thread 0 holds the lock, and thread 1 spins.
abbrev contended : System
contended = try_acquire (try_acquire initial 0) 1

contended-Reach : Reach contended
unfolding try_acquire
contended-Reach = later (later start (enter 0 refl)) (enter 1 refl)

Reach-Exclusive_example : Exclusive contended
Reach-Exclusive_example = Reach-Exclusive contended-Reach

-- Thread 0 has left.
abbrev handed_over : System
handed_over = release contended 0

handed_over-Reach : Reach handed_over
unfolding try_acquire
handed_over-Reach = later contended-Reach (leave 0 refl)

handed_over_spinning : handed_over.pc 1 ≡ spinning
unfolding try_acquire release
handed_over_spinning = refl

handed_over_empty : (j : ℕ) → handed_over.pc j ≢ inside
unfolding try_acquire release
handed_over_empty j = ground arith

gets_it : (try_acquire handed_over 1).pc 1 ≡ inside
unfolding try_acquire release
gets_it = refl
