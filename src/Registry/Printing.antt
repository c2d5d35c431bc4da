-- ===== src/Registry/Printing.antt =====
-- `_putchar` of Kernel/src/drivers/tty/tty.c prints a character on every registered terminal.
use wheatley.Common.{
  ℕ, ◌+◌, ◌<◌, ◌≡◌, refl, sym, ap, ◌∙◌, true, some, List, [], ◌∷◌, ◌++◌, ltb, length, length-append,
  get_elem?, arith,
}
use mathlib.Core.List.{append_assoc}
use wheatley.Registry.{Drivers, value, read_driver, putchar_loop, _putchar}
use wheatley.Registry.Lookup.{Holds}

module _ {Driver World : Type 0} (putchar : Driver → ℕ → World → World) where
  -- One call of each driver's `putchar`, in the list's order.
  pub print_all : List Driver → ℕ → World → World
  print_all [] c world = world
  print_all (d ∷ ds) c world = print_all ds c (putchar d c world)

  get_elem?-middle :
      (pre rest : List Driver) (d : Driver) → get_elem? (pre ++ (d ∷ rest)) (length pre) ≡ some d
  get_elem?-middle [] rest d = refl
  get_elem?-middle (x ∷ pre) rest d = get_elem?-middle pre rest d

  read_driver-middle :
      (pre rest : List Driver) (s : Drivers Driver) (d : Driver)
      → Holds s (pre ++ (d ∷ rest))
      → read_driver s (length pre) ≡ value (some d)
  unfolding read_driver
  read_driver-middle pre rest s d h =
      let below : length pre < 256 = omega (arith, h.room, length-append pre (d ∷ rest)) in
      let inside : ltb (length pre) 256 ≡ true = ground arith in
      rw inside (ap value (h.drivers (length pre) below ∙ get_elem?-middle pre rest d))

  putchar_loop-print_all :
      (rest pre : List Driver) (s : Drivers Driver) (c : ℕ) (world : World)
      → Holds s (pre ++ rest)
      → putchar_loop putchar s (length pre) (length rest) c world ≡ some (print_all rest c world)
  unfolding putchar_loop print_all
  putchar_loop-print_all [] pre s c world h = refl
  putchar_loop-print_all (d ∷ rest) pre s c world h =
      let e : (pre ++ (d ∷ [])) ++ rest ≡ pre ++ (d ∷ rest) = append_assoc pre (d ∷ []) rest in
      let next : length (pre ++ (d ∷ [])) ≡ length pre + 1 = length-append pre (d ∷ []) in
      let later = putchar_loop-print_all rest (pre ++ (d ∷ [])) s c (putchar d c world) (rw e h) in
      rw (read_driver-middle pre rest s d h, putchar_loop)
        (ap (λ i. putchar_loop putchar s i (length rest) c (putchar d c world)) (sym next) ∙ later)

  -- With the drivers `ds` registered, `_putchar` calls the `putchar` of each once, in the order of
  -- their registration.
  pub _putchar-print_all :
      (s : Drivers Driver) (ds : List Driver) (c : ℕ) (world : World)
      → Holds s ds
      → _putchar putchar s c world ≡ some (print_all ds c world)
  unfolding _putchar
  _putchar-print_all s ds c world h =
      ap (λ n. putchar_loop putchar s 0 n c world) h.count
      ∙ putchar_loop-print_all ds [] s c world h
