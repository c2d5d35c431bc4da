-- ===== src/Pci/Address.antt =====
-- `pci_get_mcfg_addr` of Kernel/src/sys/pci.c gives each register of each function an address of its
-- own.
use wheatley.Common.{
  ℕ, ◌+◌, ◌-◌, ◌*◌, ◌%◌, ◌^◌, ◌≤◌, ◌<◌, ◌≡◌, refl, sym, ap, ◌∙◌, bit_or, some, List, arith,
}
use wheatley.Pci.{McfgAddr, PciDevicePath, find_segment, pci_get_mcfg_addr}
use wheatley.Pci.Disjoint.{bit_or-disjoint}

-- A register of a function on a bus from the entry's first on, where PCI has 32 slots on a bus, 8
-- functions in a slot and 4096 bytes for a function, within 64 bits.
pub record IsRegister (entry : McfgAddr) (device : PciDevicePath) (offset : ℕ) : Type 0 where
  pub first : entry.bus_start ≤ device.bus
  pub bus : device.bus < 2 ^ 8
  pub slot : device.slot < 32
  pub fun : device.fun < 8
  pub offset_small : offset < 4096
  pub fits : entry.base_addr + 2 ^ 28 < 2 ^ 64

-- Where the specification puts it.
abbrev pub ecam_address : McfgAddr → PciDevicePath → (offset : ℕ) → ℕ
ecam_address entry device offset =
    entry.base_addr
    + ((device.bus - entry.bus_start) * 2 ^ 20 + device.slot * 2 ^ 15 + device.fun * 2 ^ 12)
    + offset

module _ (mcfg : List McfgAddr) (entry : McfgAddr) (device : PciDevicePath) (offset : ℕ)
    (search : find_segment mcfg device.seg ≡ some entry) (r : IsRegister entry device offset) where
  path-sum :
      bit_or
        (bit_or ((device.bus + 2 ^ 64 - entry.bus_start) * 2 ^ 20 % 2 ^ 64) (device.slot * 2 ^ 15))
        (device.fun * 2 ^ 12)
      ≡ (device.bus - entry.bus_start) * 2 ^ 20 + device.slot * 2 ^ 15 + device.fun * 2 ^ 12
  path-sum =
      let first = r.first in
      let below = r.bus in
      let slot = r.slot in
      let fun = r.fun in
      let d = device.bus - entry.bus_start in
      let bus : (device.bus + 2 ^ 64 - entry.bus_start) * 2 ^ 20 % 2 ^ 64 ≡ d * 2 ^ 20 =
        omega arith in
      let upper : bit_or (d * 2 ^ 20) (device.slot * 2 ^ 15) ≡ (d * 32 + device.slot) * 2 ^ 15 =
        bit_or-disjoint 20 d (device.slot * 2 ^ 15) (omega arith) ∙ omega arith in
      ap (λ b. bit_or (bit_or b (device.slot * 2 ^ 15)) (device.fun * 2 ^ 12)) bus
      ∙ ap (λ b. bit_or b (device.fun * 2 ^ 12)) upper
      ∙ bit_or-disjoint 15 (d * 32 + device.slot) (device.fun * 2 ^ 12) (omega arith)
      ∙ omega arith

  -- A register of a function, on a bus from the first of its segment's entry on, has the address that
  -- the specification of the configuration space gives it.
  pub pci_get_mcfg_addr-ecam_address :
      pci_get_mcfg_addr mcfg device offset ≡ some (ecam_address entry device offset)
  unfolding pci_get_mcfg_addr
  pci_get_mcfg_addr-ecam_address =
      let first = r.first in
      let below = r.bus in
      let slot = r.slot in
      let fun = r.fun in
      let small = r.offset_small in
      let fits = r.fits in
      let flat : ecam_address entry device offset % 2 ^ 64 ≡ ecam_address entry device offset =
        omega arith in
      rw (search, path-sum, flat, pci_get_mcfg_addr) refl

ecam_address_injective :
    (entry : McfgAddr) (d e : PciDevicePath) (o p : ℕ)
    → IsRegister entry d o
    → IsRegister entry e p
    → ecam_address entry d o ≡ ecam_address entry e p
    → (d.bus ≡ e.bus) × (d.slot ≡ e.slot) × (d.fun ≡ e.fun) × (o ≡ p)
ecam_address_injective entry d e o p r s same =
    let r1 = r.first in
    let r2 = r.slot in
    let r3 = r.fun in
    let r4 = r.offset_small in
    let s1 = s.first in
    let s2 = s.slot in
    let s3 = s.fun in
    let s4 = s.offset_small in (omega arith, omega arith, omega arith, omega arith)

-- Two registers of functions of one segment, on buses from its entry's first on, that
-- `pci_get_mcfg_addr` places at one address are the same register of the same function.
pub pci_get_mcfg_addr_injective :
    (mcfg : List McfgAddr) (entry : McfgAddr) (d e : PciDevicePath) (o p : ℕ)
    → find_segment mcfg d.seg ≡ some entry
    → find_segment mcfg e.seg ≡ some entry
    → IsRegister entry d o
    → IsRegister entry e p
    → pci_get_mcfg_addr mcfg d o ≡ pci_get_mcfg_addr mcfg e p
    → (d.bus ≡ e.bus) × (d.slot ≡ e.slot) × (d.fun ≡ e.fun) × (o ≡ p)
pci_get_mcfg_addr_injective mcfg entry d e o p found_d found_e r s same =
    let both : some (ecam_address entry d o) ≡ some (ecam_address entry e p) =
      sym (pci_get_mcfg_addr-ecam_address mcfg entry d o found_d r)
      ∙ same
      ∙ pci_get_mcfg_addr-ecam_address mcfg entry e p found_e s in
    ecam_address_injective entry d e o p r s (cc both)
