-- ===== src/Serial.antt =====
-- Kernel/src/drivers/tty/serialtty.c: the terminal on the first serial port.
--
-- `status k` is the k-th read of the line's status, and what is written to ports is a list. The wait
-- of `serialtty_putchar` runs on fuel.
mod Wait
mod Tests
use wheatley.Common.{
  ℕ, zero, suc, ◌+◌, ◌-◌, ◌*◌, ◌/◌, ◌%◌, ◌^◌, ◌≤◌, ◌<◌, min, max, bit_and, bit_or, bit_xor, ◌≡◌,
  refl, sym, ap, ap₂, ◌∙◌, fun_ext, ◌≢◌, ◌↔◌, ◌⊎◌, inl, inr, Bool, true, false, not, ◌&&◌, ◌||◌,
  Option, none, some, List, [], ◌∷◌, ◌++◌, map, arith, ltb, leb, ◌==◌, if◌then◌else◌, ltb→lt,
  lt→ltb, ==_iff, ==_refl, Bool-cases, Option-cases, length, get_elem?, get_or, length-append,
  update, fill, shr, bit, complement, bit-or, bit-and, bit-lt, bit-two-pow, bit-complement,
  bit_or-lt, bit_and-le, bit_and-low, bit_and-up, bit_and-one, two-pow-lt, bit_and_digit, ℤ, pos,
  negsuc, bit_or_digit, bit-zero, bit-suc,
}
use wheatley.Registry.{Drivers, register_driver}

-- `COM1_PORT`
abbrev pub com1_port : ℕ
com1_port = 0x3f8

-- A port and the byte that is written to it.
abbrev pub Out : Type 0
Out = ℕ × ℕ

pub is_transmit_empty : (status : ℕ) → ℕ
is_transmit_empty status = bit_and status 0x20

-- The `while` loop, from the read `k` on: the read after the one that ends it.
pub wait_loop : (status : ℕ → ℕ) → (k fuel : ℕ) → Option ℕ
wait_loop status k zero = none
wait_loop status k (suc fuel) =
    let rest = wait_loop status (k + 1) fuel in
    if is_transmit_empty (status k) == 0 then rest else some (k + 1)

pub serialtty_putchar : (status : ℕ → ℕ) → (k fuel a : ℕ) → Option (ℕ × List Out)
serialtty_putchar status k fuel a = elim (wait_loop status k fuel) [
  | none ↦ none
  | some k' ↦ some (k', (com1_port, a) ∷ [])
]

-- The writes before the check of the chip, which is in loopback mode then.
pub init_outs : List Out
init_outs =
    (com1_port + 1, 0x00)
    ∷ (com1_port + 3, 0x80)
    ∷ (com1_port + 0, 0x03)
    ∷ (com1_port + 1, 0x00)
    ∷ (com1_port + 3, 0x03)
    ∷ (com1_port + 2, 0xc7)
    ∷ (com1_port + 4, 0x0b)
    ∷ (com1_port + 4, 0x1e)
    ∷ (com1_port + 0, 0xae)
    ∷ []

-- `answer` is the byte that is read back; the driver is registered unless the chip is faulty. A
-- write outside of the array of terminals is `none`.
pub serialtty_module_init :
    {Driver : Type 0}
    → (serialtty_driver : Driver) → Drivers Driver
    → (answer : ℕ) → Option (List Out × Drivers Driver)
serialtty_module_init serialtty_driver s answer =
    if answer == 0xae
    then elim (register_driver s serialtty_driver) [
      | none ↦ none
      | some (ret, s') ↦ some (init_outs ++ ((com1_port + 4, 0x0f) ∷ []), s')
    ]
    else some (init_outs, s)
