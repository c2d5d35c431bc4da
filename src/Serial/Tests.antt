-- ===== src/Serial/Tests.antt =====
-- The serial terminal at a line that is busy for two reads.
use wheatley.Common.{ℕ, ◌+◌, ◌<◌, ◌≡◌, refl, none, some, [], ◌∷◌, ltb, if◌then◌else◌}
use wheatley.Registry.{no_drivers}
use wheatley.Serial.{
  is_transmit_empty, wait_loop, serialtty_putchar, init_outs, serialtty_module_init,
}
use wheatley.Serial.Wait.{IsFirst, serialtty_putchar-IsFirst}

abbrev busy_twice : ℕ → ℕ
busy_twice k = if ltb k 2 then 0 else 0x60

letter_a : serialtty_putchar busy_twice 0 5 0x41 ≡ some (3, (0x3f8, 0x41) ∷ [])
unfolding serialtty_putchar wait_loop is_transmit_empty
letter_a = refl

-- A faulty chip registers no terminal and stays in loopback mode.
faulty : serialtty_module_init {Driver = ℕ} 7 no_drivers 0 ≡ some (init_outs, no_drivers)
unfolding serialtty_module_init
faulty = refl

serialtty_putchar-IsFirst_example :
    ((n : ℕ)
      → IsFirst busy_twice 0 n
      → n < 5
      → serialtty_putchar busy_twice 0 5 0x41 ≡ some (0 + n + 1, (0x3f8, 0x41) ∷ []))
    × (((i : ℕ) → i < 5 → is_transmit_empty (busy_twice (0 + i)) ≡ 0)
        → serialtty_putchar busy_twice 0 5 0x41 ≡ none)
serialtty_putchar-IsFirst_example = serialtty_putchar-IsFirst busy_twice 0 5 0x41
