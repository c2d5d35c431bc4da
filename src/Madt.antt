-- ===== src/Madt.antt =====
-- Kernel/src/fw/madt.c: the records of the firmware's table of interrupt controllers, sorted by type.
--
-- Memory is read by the byte. The table's header is ACPI's: where it stands, its `length` and its
-- `lapic_address` are parameters. The walk runs on fuel, since the source's loop has no bound.
mod Walk
mod Sorted
mod Mapping
mod Tests
use wheatley.Common.{
  ℕ, zero, suc, ◌+◌, ◌*◌, ◌^◌, ◌%◌, Bool, true, false, Option, none, some, List, [], ◌∷◌, leb, ◌==◌,
  if◌then◌else◌, update,
}

abbrev pub Memory : Type 0
Memory = ℕ → ℕ

-- `madt_record_type_t`
abbrev pub lapic : ℕ
lapic = 0

abbrev pub ioapic : ℕ
ioapic = 1

abbrev pub ioapic_interrupt_source_override : ℕ
ioapic_interrupt_source_override = 2

abbrev pub lapic_nmi : ℕ
lapic_nmi = 4

abbrev pub lapic_address_override : ℕ
lapic_address_override = 5

-- `record->type` and `record->length`
abbrev pub type_of : Memory → (record_address : ℕ) → ℕ
type_of mem r = mem r

abbrev pub length_of : Memory → (record_address : ℕ) → ℕ
length_of mem r = mem (r + 1)

-- `((madt_lapic_addr_override_t *)record)->address`, eight bytes from the fourth on.
abbrev pub override_address : Memory → (record_address : ℕ) → ℕ
override_address mem r =
    mem (r + 4)
    + mem (r + 5) * 2 ^ 8
    + mem (r + 6) * 2 ^ 16
    + mem (r + 7) * 2 ^ 24
    + mem (r + 8) * 2 ^ 32
    + mem (r + 9) * 2 ^ 40
    + mem (r + 10) * 2 ^ 48
    + mem (r + 11) * 2 ^ 56

-- An array of 256 pointers with its length, a uint8_t.
pub record Array : Type 0 where
  pub items : ℕ → ℕ
  pub count : ℕ

-- `items[count++] = record`
pub push : Array → ℕ → Array
push a r = record { items = update a.items a.count r; count = (a.count + 1) % 2 ^ 8 }

pub record Madt : Type 0 where
  pub lapic_addr : ℕ
  pub lapics : Array
  pub ioapics : Array
  pub isos : Array
  pub nmis : Array

-- The `switch` on a record's type.
pub add_record : Memory → Madt → ℕ → Madt
add_record mem m r =
    if type_of mem r == lapic_address_override
    then record m { lapic_addr = override_address mem r }
    else if type_of mem r == lapic
    then record m { lapics = push m.lapics r }
    else if type_of mem r == ioapic
    then record m { ioapics = push m.ioapics r }
    else if type_of mem r == ioapic_interrupt_source_override
    then record m { isos = push m.isos r }
    else if type_of mem r == lapic_nmi
    then record m { nmis = push m.nmis r }
    else m

-- The loop, from the record at `r` up to the table's end or to NULL; `none` is out of fuel.
pub walk : Memory → (fuel r end : ℕ) → Madt → Option Madt
walk mem zero r end m = none
walk mem (suc fuel) r end m =
    let next = (r + length_of mem r) % 2 ^ 64 in
    let m' = add_record mem m r in
    let rest = walk mem fuel next end m' in
    if r == 0 then some m else if leb end next then some m' else rest

-- How `madt_init` ends, with the addresses that it gives to `vmm_map_page`, each with itself.
pub data Init : Type 0 where
  no_madt : Init  -- the panic
  out_of_fuel : Init
  done : Madt → (mapped : List ℕ) → Init

-- `madt` is what `acpi_find_table` returns, with the header's two fields.
pub madt_init : Memory → (fuel madt table_length lapic_address : ℕ) → Madt → Init
madt_init mem fuel madt table_length lapic_address m =
    if madt == 0
    then no_madt
    else elim (walk mem fuel ((madt + 0x2c) % 2 ^ 64) ((madt + table_length) % 2 ^ 64)
        (record m { lapic_addr = lapic_address })) [
          | none ↦ out_of_fuel
          | some m' ↦ done m' (m'.lapic_addr ∷ [])
        ]
