-- ===== src/Registry.antt =====
-- Kernel/src/drivers/tty/tty.c and Kernel/src/drivers/fb/fb.c: the arrays of registered drivers, and
-- the printing of a character on every terminal.
--
-- An index is an `int`; a lookup that reads outside of the 256 places is `outside`. A driver is a
-- value of any type.
mod Lookup
mod Printing
use wheatley.Common.{
  ℕ, zero, suc, ◌+◌, ◌<◌, ◌≡◌, Bool, Option, none, some, List, [], ◌∷◌, ltb, leb, if◌then◌else◌,
  update, ℤ, pos, negsuc,
}

-- `fb_drivers` or `tty_drivers`, with its count; `none` is NULL.
pub record Drivers (Driver : Type 0) : Type 0 where
  pub drivers : ℕ → Option Driver
  pub count : ℕ

pub data Found (Driver : Type 0) : Type 0 where
  outside : Found Driver
  value : Option Driver → Found Driver

module _ {Driver : Type 0} where
  abbrev pub no_drivers : Drivers Driver
  no_drivers = record { drivers = λ _. none; count = 0 }

  -- A write outside of the array is `none`.
  unfoldable pub register_driver : Drivers Driver → Driver → Option (ℕ × Drivers Driver)
  register_driver s driver =
      let ret = s.count in
      if ltb ret 256
      then some (ret, record { drivers = update s.drivers ret (some driver); count = s.count + 1 })
      else none

  pub read_driver : Drivers Driver → ℕ → Found Driver
  read_driver s idx = if ltb idx 256 then value (s.drivers idx) else outside

  pub fb_get_driver : Drivers Driver → ℤ → Found Driver
  fb_get_driver s (pos idx) = if leb s.count idx then value none else read_driver s idx
  fb_get_driver s (negsuc idx) = outside

  pub tty_get_driver : Drivers Driver → ℤ → Found Driver
  tty_get_driver s (pos idx) = if ltb s.count idx then value none else read_driver s idx
  tty_get_driver s (negsuc idx) = outside

  -- The loop of `_putchar`, over what the terminals' `putchar` does to the machine; `none` calls
  -- through NULL or reads outside of the array.
  pub putchar_loop :
      {World : Type 0}
      → (Driver → ℕ → World → World)
      → Drivers Driver
      → (i rounds c : ℕ) → World
      → Option World
  putchar_loop putchar s i zero c world = some world
  putchar_loop putchar s i (suc rounds) c world = elim (read_driver s i) [
    | outside ↦ none
    | value none ↦ none
    | value (some driver) ↦ putchar_loop putchar s (i + 1) rounds c (putchar driver c world)
  ]

  pub _putchar :
      {World : Type 0}
      → (Driver → ℕ → World → World)
      → Drivers Driver
      → (c : ℕ) → World
      → Option World
  _putchar putchar s c world = putchar_loop putchar s 0 s.count c world
