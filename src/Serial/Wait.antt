-- ===== src/Serial/Wait.antt =====
-- When `serialtty_putchar` of Kernel/src/drivers/tty/serialtty.c returns.
use wheatley.Common.{ℕ, zero, suc, ◌+◌, ◌<◌, ◌≡◌, refl, ◌≢◌, none, some, [], ◌∷◌, arith}
use wheatley.Serial.{com1_port, is_transmit_empty, wait_loop, serialtty_putchar}

-- From the read `k` on, the read `k + n` is the first that shows an empty transmitter.
pub record IsFirst (status : ℕ → ℕ) (k n : ℕ) : Type 0 where
  pub empty : is_transmit_empty (status (k + n)) ≢ 0
  pub full_before : (i : ℕ) → i < n → is_transmit_empty (status (k + i)) ≡ 0

module _ (status : ℕ → ℕ) where
  wait_loop-ends :
      (fuel k n : ℕ) → IsFirst status k n → n < fuel → wait_loop status k fuel ≡ some (k + n + 1)
  unfolding wait_loop
  wait_loop-ends zero k n first lt = absurd (omega arith)
  wait_loop-ends (suc fuel) k zero first lt = ground (arith, first.empty)
  wait_loop-ends (suc fuel) k (suc n) first lt =
      let rest =
        wait_loop-ends fuel (k + 1) n
          (record {
            empty = ground (arith, first.empty);
            full_before = λ i below. ground (arith, first.full_before (suc i));
          })
          (omega arith) in
      ground (arith, rest, first.full_before 0 (omega arith))

  wait_loop-waits :
      (fuel k : ℕ)
      → ((i : ℕ) → i < fuel → is_transmit_empty (status (k + i)) ≡ 0)
      → wait_loop status k fuel ≡ none
  unfolding wait_loop
  wait_loop-waits zero k full = refl
  wait_loop-waits (suc fuel) k full = ground (
    arith,
    full 0 (omega arith),
    wait_loop-waits fuel (k + 1) (λ i lt. ground (arith, full (suc i) (omega arith))),
  )

-- `serialtty_putchar` returns at the first read that shows an empty transmitter, with enough fuel to
-- come there, and has written its character once and nothing else; as long as no read shows one, it
-- writes nothing.
pub serialtty_putchar-IsFirst :
    (status : ℕ → ℕ) (k fuel a : ℕ)
    → ((n : ℕ)
        → IsFirst status k n
        → n < fuel
        → serialtty_putchar status k fuel a ≡ some (k + n + 1, (com1_port, a) ∷ []))
      × (((i : ℕ) → i < fuel → is_transmit_empty (status (k + i)) ≡ 0)
          → serialtty_putchar status k fuel a ≡ none)
unfolding serialtty_putchar
serialtty_putchar-IsFirst status k fuel a = (
  λ n first lt. rw (wait_loop-ends status fuel k n first lt, serialtty_putchar),
  λ full. rw (wait_loop-waits status fuel k full, serialtty_putchar),
)
