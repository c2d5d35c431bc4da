-- ===== src/Spinlock/Safety.antt =====
-- Mutual exclusion and progress of Kernel/inc/sys/spinlock.h.
use wheatley.Common.{ℕ, ◌≡◌, refl, ◌≢◌, inl, inr, true, false, arith, Bool-cases}
use wheatley.Spinlock.{
  spinning, inside, System, try_acquire, release, Step, enter, spin, leave, Reach, start, later,
}

-- The flag says whether a thread is inside, and never are two.
pub record Exclusive (s : System) : Type 0 where
  pub one : (i j : ℕ) → s.pc i ≡ inside → s.pc j ≡ inside → i ≡ j
  pub held : (i : ℕ) → s.pc i ≡ inside → s.flag ≡ true
  pub taken : s.flag ≡ true → (i : ℕ) × (s.pc i ≡ inside)

try_acquire-Exclusive :
    (s : System) (i : ℕ) → s.pc i ≢ inside → Exclusive s → Exclusive (try_acquire s i)
unfolding try_acquire
try_acquire-Exclusive s i out x = record {
  one = λ a b in_a in_b. ground (arith, x.one a b, x.held a, x.held b);
  held = λ a in_a. refl;
  taken = λ _. elim (Bool-cases s.flag) [
    | inl busy ↦ let (j, at) = x.taken busy in (j, ground arith)
    | inr idle ↦ (i, ground arith)
  ];
}

release-Exclusive : (s : System) (i : ℕ) → s.pc i ≡ inside → Exclusive s → Exclusive (release s i)
unfolding release
release-Exclusive s i at x = record {
  one = λ a b in_a in_b. ground (arith, x.one a b);
  held = λ a in_a. ground (arith, x.one i a);
  taken = λ e. cc;
}

Step-Exclusive : {s t : System} → Step s t → Exclusive s → Exclusive t
Step-Exclusive {s} (enter i at) x = try_acquire-Exclusive s i (λ e. cc) x
Step-Exclusive {s} (spin i at) x = try_acquire-Exclusive s i (λ e. cc) x
Step-Exclusive {s} (leave i at) x = release-Exclusive s i at x

-- In every state that threads reach from an unlocked lock, at most one is between the acquisition
-- and the release, and the flag is set exactly when one is.
pub Reach-Exclusive : {s : System} → Reach s → Exclusive s
Reach-Exclusive start = record { one = λ i j in_i in_j. cc; held = λ i in_i. cc; taken = λ e. cc }
Reach-Exclusive (later r st) = Step-Exclusive st (Reach-Exclusive r)

-- While no thread is inside, the next round of a spinning thread takes the lock.
pub try_acquire-inside :
    {s : System} (i : ℕ)
    → Reach s
    → s.pc i ≡ spinning
    → ((j : ℕ) → s.pc j ≢ inside)
    → (try_acquire s i).pc i ≡ inside
unfolding try_acquire
try_acquire-inside {s} i r at none_in =
    let free : s.flag ≡ false = elim (Bool-cases s.flag) [
      | inl busy ↦ let (j, e) = (Reach-Exclusive r).taken busy in absurd (none_in j e)
      | inr idle ↦ idle
    ] in
    ground arith
