-- ===== src/Acpi/Checksum.antt =====
-- `acpi_checksum` of Kernel/src/fw/acpi.c adds up the table's bytes.
use wheatley.Common.{ℕ, zero, suc, ◌+◌, ◌%◌, ◌^◌, ◌≡◌, ◌↔◌, ap, true, arith}
use wheatley.Acpi.{Tables, checksum_loop, acpi_checksum}

module _ (T : Tables) where
  -- The bytes from `a` on, added up without a bound.
  abbrev pub total : (a n : ℕ) → ℕ
  total a zero = 0
  total a (suc n) = T.byte_at a + total (a + 1) n

  checksum_loop-total :
      (rounds header i sum : ℕ)
      → checksum_loop T header i rounds sum % 2 ^ 8 ≡ (sum + total (header + i) rounds) % 2 ^ 8
  unfolding checksum_loop
  checksum_loop-total zero header i sum = omega arith
  checksum_loop-total (suc rounds) header i sum =
      let e : header + (i + 1) ≡ header + i + 1 = omega arith in
      omega (
        arith,
        checksum_loop-total rounds header (i + 1) ((sum + T.byte_at (header + i)) % 2 ^ 8),
        ap (λ a. total a rounds) e,
      )

  checksum_loop_small :
      (rounds header i sum : ℕ)
      → sum % 2 ^ 8 ≡ sum
      → checksum_loop T header i rounds sum % 2 ^ 8 ≡ checksum_loop T header i rounds sum
  unfolding checksum_loop
  checksum_loop_small zero header i sum small = small
  checksum_loop_small (suc rounds) header i sum small =
      checksum_loop_small rounds header (i + 1) _ (omega arith)

  -- The checksum holds exactly if the bytes of the table, as many as its header says, add up to a
  -- multiple of 256.
  pub acpi_checksum-total :
      (header : ℕ) → (acpi_checksum T header ≡ true) ↔ (total header (T.length header) % 2 ^ 8 ≡ 0)
  unfolding acpi_checksum
  acpi_checksum-total header =
      let n = T.length header in
      let sum = checksum_loop-total n header 0 0 in
      let small = checksum_loop_small n header 0 0 (omega arith) in
      let e : header + 0 ≡ header = omega arith in
      let same = ap (λ a. total a n) e in ground (arith, sum, small, same)
