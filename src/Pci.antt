-- ===== src/Pci.antt =====
-- Kernel/src/sys/pci.c: where a PCI function's configuration space lies in memory.
--
-- `pci_get_mcfg_addr` also maps the page of the address: Pci/Mapping.antt. Pci/Access.antt has the
-- reads and writes.
pub mod Access
pub mod Mapping
mod Tests
mod Disjoint
pub mod Address
use wheatley.Common.{
  ℕ, ◌+◌, ◌-◌, ◌*◌, ◌/◌, ◌%◌, ◌^◌, bit_or, ◌==◌, if◌then◌else◌, Option, none, some, List, [], ◌∷◌,
}

-- `mcfg_addr_t`
pub record McfgAddr : Type 0 where
  pub base_addr : ℕ  -- uint64_t
  pub segment : ℕ  -- uint16_t
  pub bus_start : ℕ  -- uint8_t

-- `pci_device_path_t`
pub record PciDevicePath : Type 0 where
  pub seg : ℕ  -- uint16_t
  pub bus : ℕ  -- uint8_t
  pub slot : ℕ  -- uint8_t
  pub fun : ℕ  -- uint8_t

unfoldable pub find_segment : List McfgAddr → (seg : ℕ) → Option McfgAddr
find_segment [] seg = none
find_segment (e ∷ es) seg =
    let rest = find_segment es seg in if e.segment == seg then some e else rest

-- `none` is NULL.
pub pci_get_mcfg_addr : List McfgAddr → PciDevicePath → (offset : ℕ) → Option ℕ
pci_get_mcfg_addr mcfg device offset = elim (find_segment mcfg device.seg) [
  | none ↦ none
  | some entry ↦
      let bus = (device.bus + 2 ^ 64 - entry.bus_start) * 2 ^ 20 % 2 ^ 64 in
      let path = bit_or (bit_or bus (device.slot * 2 ^ 15)) (device.fun * 2 ^ 12) in
      some ((entry.base_addr + path + offset) % 2 ^ 64)
]
