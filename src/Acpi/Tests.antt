-- ===== src/Acpi/Tests.antt =====
-- Runs of Kernel/src/fw/acpi.c at three tables, two of them alike.
use wheatley.Common.{ℕ, ◌+◌, ◌*◌, ◌^◌, ◌≡◌, refl, some, List, [], ◌∷◌, arith, ◌==◌, if◌then◌else◌}
use wheatley.Common.{refl, ok}
use wheatley.Timer.{multiplier}
use wheatley.Acpi.{checksum_loop, is_match, find_loop, find_in_xsdt}
use wheatley.Acpi.Startup.{Firmware, Started, pci_init, hpet_init, acpi_init}
use wheatley.Acpi.Startup.Ready.{Ready}
use wheatley.Acpi.Startup.Mapping.{Maps, acpi_init-Maps}
use wheatley.Paging.Bump.{bump, bump-Gives}
use wheatley.Paging.Empty.{empty, empty-Stands}
use wheatley.Paging.Identity.{map_each}
use wheatley.Acpi.{Tables, acpi_checksum, acpi_find_table, xsdt_entries}
use wheatley.Acpi.Search.{Search, acpi_find_table-Search}

abbrev three_tables : Tables
three_tables = record {
  byte_at = λ a. if a == 0x2000 then 200 else if a == 0x2001 then 56 else 0;
  length = λ h. if h == 0x1000 then 60 else 2;
  signature = λ h. if h == 0x3000 then 7 else 9;
  header_size = 36;
  xsdt = 0x1000;
  entry = λ i. 0x2000 + i * 0x1000;
  x_dsdt = λ h. 0x9000;
  dsdt = 1;
  facp = 2;
}

acpi_find_table-Search_example :
    (r : ℕ × List ℕ) × (acpi_find_table three_tables 9 1 ≡ some r)
    × Search three_tables 9 1 (xsdt_entries three_tables) r
acpi_find_table-Search_example = acpi_find_table-Search three_tables 9 1 (omega arith)

-- The first two tables are the MCFG and the HPET, with a tick of 69841279 femtoseconds.
abbrev firmware : Firmware
firmware = record {
  revision = 2;
  mcfg = 9;
  hpet = 7;
  hpet_base = λ h. 0xfed00000;
  gen_cap = λ base. 69841279 * 2 ^ 32 + 0x80868201;
  gen_conf = λ base. 2;
}

abbrev all_there : Started
all_there = record {
  g_mcfg = 0x2000;
  hpet_data = 0xfed00000;
  multiplier = 1;
  gen_conf = 1;
  lai_revision = 2;
  mapped = 0x1000 ∷ 0x2000 ∷ 0x2000 ∷ 0x3000 ∷ 0xfed00000 ∷ [];
}

all_there_runs : acpi_init three_tables firmware ≡ ok all_there
unfolding acpi_init pci_init hpet_init acpi_find_table find_in_xsdt find_loop is_match acpi_checksum
    checksum_loop xsdt_entries multiplier wheatley.Timer.Registers.gen_cap_of
    wheatley.Timer.Registers.configure
all_there_runs = refl

acpi_init-Maps_example :
    (ready : Ready three_tables firmware all_there) × Maps three_tables firmware bump 0x100000
      all_there ready.hpet.table empty
      (map_each bump 0x100000 empty all_there.mapped)
acpi_init-Maps_example =
    acpi_init-Maps three_tables firmware bump 0x100000 all_there all_there_runs (omega arith)
      (omega arith) bump-Gives 0 empty (empty-Stands 15 (omega arith)).role
      (empty-Stands 15 (omega arith)).tree (empty-Stands 15 (omega arith)).ready
