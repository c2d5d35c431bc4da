-- ===== src/Compare/Tests.antt =====
-- Runs of the boot loader's comparisons on a few bytes.
use wheatley.Common.{refl, false}
use wheatley.Compare.{memcmp_loop, my_memcmp, my_memcmp_loop, is_zero}
use wheatley.Common.{ℕ, ◌%◌, ◌≡◌, true}
use wheatley.Compare.{guid_matches, memcmp}

-- The bytes repeat after 16.
abbrev repeating : ℕ → ℕ
repeating a = a % 16

equal_bytes : (memcmp repeating 0 32 8 ≡ true) × (memcmp repeating 0 33 8 ≡ false)
unfolding memcmp memcmp_loop
equal_bytes = (refl, refl)

other_guid : guid_matches repeating 0 17 ≡ false
unfolding guid_matches my_memcmp my_memcmp_loop is_zero
other_guid = refl
