-- ===== src/Pci/Access.antt =====
-- The reads and writes of Kernel/src/sys/pci.c, with the instructions of Kernel/inc/sys/mmio.h, on
-- memory by the byte.
pub mod Bytes
use wheatley.Common.{ℕ, zero, suc, ◌+◌, ◌*◌, ◌/◌, ◌%◌, ◌^◌, Option, none, some, List, update}
use wheatley.Pci.{McfgAddr, PciDevicePath, pci_get_mcfg_addr}

abbrev pub Bytes : Type 0
Bytes = ℕ → ℕ

-- A store and a load of so many bytes, the lowest first.
unfoldable pub mmout : Bytes → (addr width val : ℕ) → Bytes
mmout mem addr zero val = mem
mmout mem addr (suc width) val = mmout (update mem addr (val % 256)) (addr + 1) width (val / 256)

unfoldable pub mmin : Bytes → (addr width : ℕ) → ℕ
mmin mem addr zero = 0
mmin mem addr (suc width) = mem addr + 256 * mmin mem (addr + 1) width

-- NULL is the address 0.
unfoldable pub pointer : Option ℕ → ℕ
pointer none = 0
pointer (some addr) = addr

module _ (mcfg : List McfgAddr) (mem : Bytes) (device : PciDevicePath) (offset : ℕ) where
  unfoldable pub pci_outb : (val : ℕ) → Bytes
  pci_outb val = mmout mem (pointer (pci_get_mcfg_addr mcfg device offset)) 1 val

  unfoldable pub pci_outw : (val : ℕ) → Bytes
  pci_outw val = mmout mem (pointer (pci_get_mcfg_addr mcfg device offset)) 2 val

  unfoldable pub pci_outd : (val : ℕ) → Bytes
  pci_outd val = mmout mem (pointer (pci_get_mcfg_addr mcfg device offset)) 4 val

  unfoldable pub pci_inb : ℕ
  pci_inb = mmin mem (pointer (pci_get_mcfg_addr mcfg device offset)) 1

  unfoldable pub pci_inw : ℕ
  pci_inw = mmin mem (pointer (pci_get_mcfg_addr mcfg device offset)) 2

  unfoldable pub pci_ind : ℕ
  pci_ind = mmin mem (pointer (pci_get_mcfg_addr mcfg device offset)) 4
