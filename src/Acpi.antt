-- ===== src/Acpi.antt =====
-- Kernel/src/fw/acpi.c: the checksum of the firmware's tables, and the search for one.
--
-- The tables' layout is ACPI's and a parameter, `Tables`: the bytes of memory, and the header's
-- fields by its address. A search also maps the pages of the tables that it looks at; their addresses
-- are listed, in order.
mod Checksum
mod Search
pub mod Startup
mod Tests
use wheatley.Common.{
  ℕ, zero, suc, ◌+◌, ◌-◌, ◌/◌, ◌%◌, ◌^◌, Bool, true, false, ◌&&◌, Option, none, some, List, [], ◌∷◌,
  ◌++◌, ◌==◌, if◌then◌else◌,
}

pub record Tables : Type 0 where
  pub byte_at : ℕ → ℕ
  pub length : (header : ℕ) → ℕ  -- uint32_t
  pub signature : (header : ℕ) → ℕ  -- four characters, as one number
  pub header_size : ℕ
  pub xsdt : ℕ
  pub entry : ℕ → ℕ  -- `xsdt->tables`
  pub x_dsdt : (fadt : ℕ) → ℕ
  pub dsdt : ℕ  -- "DSDT"
  pub facp : ℕ  -- "FACP"

module _ (T : Tables) where
  open T use {byte_at, length, signature, entry}

  -- The sum is a uint8_t.
  pub checksum_loop : (header i rounds sum : ℕ) → ℕ
  checksum_loop header i zero sum = sum
  checksum_loop header i (suc rounds) sum =
      checksum_loop header (i + 1) rounds ((sum + byte_at (header + i)) % 2 ^ 8)

  pub acpi_checksum : (header : ℕ) → Bool
  acpi_checksum header = checksum_loop header 0 (length header) 0 == 0

  -- What the loop asks of a table before it counts it.
  pub is_match : (sig ptr : ℕ) → Bool
  is_match sig ptr = signature ptr == sig && acpi_checksum ptr

  pub find_loop : (sig index i rounds count : ℕ) → List ℕ → ℕ × List ℕ
  find_loop sig index i zero count mapped = (0, mapped)
  find_loop sig index i (suc rounds) count mapped =
      let ptr = entry i in
      let found = is_match sig ptr in
      let rest =
        find_loop sig index (i + 1) rounds (if found then count + 1 else count)
          (mapped ++ (ptr ∷ [])) in
      if found && count == index then (ptr, mapped ++ (ptr ∷ [])) else rest

  pub xsdt_entries : ℕ
  xsdt_entries = (length T.xsdt + 2 ^ 64 - T.header_size) % 2 ^ 64 / 8

  -- The search of the XSDT: a table that is not "DSDT".
  pub find_in_xsdt : (sig index : ℕ) → ℕ × List ℕ
  find_in_xsdt sig index = find_loop sig index 0 xsdt_entries 0 []

  -- `acpi_find_table`; a missing FADT is read through NULL, `none`.
  pub acpi_find_table : (sig index : ℕ) → Option (ℕ × List ℕ)
  acpi_find_table sig index =
      if sig == T.dsdt
      then (let (fadt, mapped) = find_in_xsdt T.facp 0 in
          let ptr = T.x_dsdt fadt in
          if fadt == 0
          then none
          else some (if acpi_checksum ptr then ptr else 0, mapped ++ (fadt ∷ ptr ∷ [])))
      else some (find_in_xsdt sig index)
