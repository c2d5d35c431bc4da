-- ===== src/Registry/Lookup.antt =====
-- The drivers of Kernel/src/drivers/fb/fb.c and Kernel/src/drivers/tty/tty.c are found under the
-- numbers that their registration returned.
use wheatley.Common.{
  ℕ, zero, suc, ◌+◌, ◌<◌, ◌≤◌, ◌≡◌, refl, sym, ◌∙◌, true, none, some, List, [], ◌∷◌, ◌++◌, ltb,
  ◌==◌, if◌then◌else◌, update, pos, length, length-append, get_elem?, arith,
}
use wheatley.Registry.{
  Drivers, outside, value, register_driver, read_driver, fb_get_driver, tty_get_driver,
}

-- The array holds the drivers in the order of their registration.
pub record Holds {Driver : Type 0} (s : Drivers Driver) (ds : List Driver) : Type 0 where
  pub count : s.count ≡ length ds
  pub drivers : (i : ℕ) → i < 256 → s.drivers i ≡ get_elem? ds i
  pub room : length ds ≤ 256

module _ {Driver : Type 0} where
  get_elem?-snoc :
      (ds : List Driver) (d : Driver) (i : ℕ)
      → get_elem? (ds ++ (d ∷ [])) i ≡ (if length ds == i then some d else get_elem? ds i)
  get_elem?-snoc [] d zero = refl
  get_elem?-snoc [] d (suc i) = ground arith
  get_elem?-snoc (x ∷ ds) d zero = ground arith
  get_elem?-snoc (x ∷ ds) d (suc i) = get_elem?-snoc ds d i ∙ ground arith

  get_elem?-none : (ds : List Driver) (i : ℕ) → length ds ≤ i → get_elem? ds i ≡ none
  get_elem?-none [] i le = refl
  get_elem?-none (x ∷ ds) zero le = absurd (omega arith)
  get_elem?-none (x ∷ ds) (suc i) le = get_elem?-none ds i (omega arith)

  snoc-Holds :
      (s : Drivers Driver) (ds : List Driver) (d : Driver)
      → Holds s ds
      → length ds < 256
      → Holds
          (record { drivers = update s.drivers s.count (some d); count = s.count + 1 })
          (ds ++ (d ∷ []))
  snoc-Holds s ds d h lt = record {
    count = omega (arith, h.count, length-append ds (d ∷ []));
    drivers = λ i below. rw (h.count, h.drivers i below) (sym (get_elem?-snoc ds d i));
    room = omega (arith, length-append ds (d ∷ []));
  }

  -- Registering one more driver, of fewer than 256, gives it the next number and keeps the others
  -- under theirs.
  pub register_driver-Holds :
      (s : Drivers Driver) (ds : List Driver) (d : Driver)
      → Holds s ds
      → length ds < 256
      → (s' : Drivers Driver) × (register_driver s d ≡ some (length ds, s'))
        × Holds s' (ds ++ (d ∷ []))
  unfolding register_driver
  register_driver-Holds s ds d h lt =
      let free : ltb (length ds) 256 ≡ true = ground arith in
      let s' : Drivers Driver = record {
        drivers = update s.drivers s.count (some d);
        count = s.count + 1;
      } in
      let e : register_driver s d ≡ some (length ds, s') = rw (h.count, free) refl in
      (s', e, snoc-Holds s ds d h lt)

  -- A number below the count finds the driver registered under it, and every number from the count
  -- on finds NULL.
  pub fb_get_driver-Holds :
      (s : Drivers Driver) (ds : List Driver) (idx : ℕ)
      → Holds s ds
      → fb_get_driver s (pos idx) ≡ value (get_elem? ds idx)
  unfolding fb_get_driver read_driver
  fb_get_driver-Holds s ds idx h =
      ground (arith, h.count, h.room, h.drivers idx, get_elem?-none ds idx)

  -- The same of the terminals, of which there are fewer than 256, although the test in the source
  -- lets the count through as a number: the place behind the last driver is NULL.
  pub tty_get_driver-Holds :
      (s : Drivers Driver) (ds : List Driver) (idx : ℕ)
      → Holds s ds
      → length ds < 256
      → tty_get_driver s (pos idx) ≡ value (get_elem? ds idx)
  unfolding tty_get_driver read_driver
  tty_get_driver-Holds s ds idx h lt = ground (arith, h.count, h.drivers idx, get_elem?-none ds idx)

  -- With 256 terminals the lookup of number 256 reads behind the array.
  pub tty_get_driver_full :
      (s : Drivers Driver) → s.count ≡ 256 → tty_get_driver s (pos 256) ≡ outside
  unfolding tty_get_driver read_driver
  tty_get_driver_full s e = ground arith
