-- ===== src/Laihost.antt =====
-- Kernel/src/fw/laihost.c: what the kernel offers the LAI library, which interprets ACPI's code.
mod Config
mod Tests
use wheatley.Common.{ℕ, Option, none, List, ℤ}
use Prim.Native.String.{String}
use wheatley.Panic.{State, Core, panic}
use wheatley.Ports.{Device, PortWrite, outb, outw, outd, inb, inw, ind}
use wheatley.Mm.{Mm, Outcome, kmalloc, krealloc, kfree}
use wheatley.Acpi.{Tables, acpi_find_table}
use wheatley.Timer.{hpet_time, mdelay}
use wheatley.Pci.{McfgAddr, PciDevicePath}
use wheatley.Pci.Access.{Bytes, pci_outb, pci_outw, pci_outd, pci_inb, pci_inw, pci_ind}

unfoldable pub laihost_malloc : Mm → (size : ℕ) → Outcome ℕ
laihost_malloc m size = kmalloc m size

unfoldable pub laihost_realloc : Mm → (oldptr newsize oldsize : ℕ) → Outcome ℕ
laihost_realloc m oldptr newsize oldsize = krealloc m oldptr newsize

unfoldable pub laihost_free : Mm → (ptr size : ℕ) → Outcome (Unit {0})
laihost_free m ptr size = kfree m ptr

unfoldable pub laihost_scan : Tables → (sig index : ℕ) → Option (ℕ × List ℕ)
laihost_scan T sig index = acpi_find_table T sig index

unfoldable pub laihost_map : (address count : ℕ) → ℕ
laihost_map address count = address

-- The page stays mapped.
unfoldable pub laihost_unmap : (ptr count : ℕ) → Unit {0}
laihost_unmap ptr count = tt

-- The level and the text that are printed.
unfoldable pub laihost_log : (level : ℤ) → (msg : String) → ℤ × String
laihost_log level msg = (level, msg)

unfoldable pub laihost_panic :
    {Registers : Type 0} → State Registers → Core Registers → String → Option (State Registers)
laihost_panic {Registers} s core msg = panic Registers s core msg none

unfoldable pub laihost_outb : (port val : ℕ) → PortWrite
laihost_outb port val = outb port val

unfoldable pub laihost_outw : (port val : ℕ) → PortWrite
laihost_outw port val = outw port val

unfoldable pub laihost_outd : (port val : ℕ) → PortWrite
laihost_outd port val = outd port val

unfoldable pub laihost_inb : Device → (port : ℕ) → ℕ
laihost_inb device port = inb device port

unfoldable pub laihost_inw : Device → (port : ℕ) → ℕ
laihost_inw device port = inw device port

unfoldable pub laihost_ind : Device → (port : ℕ) → ℕ
laihost_ind device port = ind device port

unfoldable pub laihost_sleep : (clock : ℕ → ℕ) → (multiplier ms fuel : ℕ) → Option ℕ
laihost_sleep clock multiplier ms fuel = mdelay clock multiplier ms fuel

unfoldable pub laihost_timer : (multiplier counter : ℕ) → ℕ
laihost_timer multiplier counter = hpet_time multiplier counter

abbrev pub device : (seg bus slot fun : ℕ) → PciDevicePath
device seg bus slot fun = record { seg = seg; bus = bus; slot = slot; fun = fun }

module _ (mcfg : List McfgAddr) (mem : Bytes) (seg bus slot fun offset : ℕ) where
  unfoldable pub laihost_pci_writeb : (val : ℕ) → Bytes
  laihost_pci_writeb val = pci_outb mcfg mem (device seg bus slot fun) offset val

  unfoldable pub laihost_pci_writew : (val : ℕ) → Bytes
  laihost_pci_writew val = pci_outw mcfg mem (device seg bus slot fun) offset val

  unfoldable pub laihost_pci_writed : (val : ℕ) → Bytes
  laihost_pci_writed val = pci_outd mcfg mem (device seg bus slot fun) offset val

  unfoldable pub laihost_pci_readb : ℕ
  laihost_pci_readb = pci_inb mcfg mem (device seg bus slot fun) offset

  unfoldable pub laihost_pci_readw : ℕ
  laihost_pci_readw = pci_inw mcfg mem (device seg bus slot fun) offset

  unfoldable pub laihost_pci_readd : ℕ
  laihost_pci_readd = pci_ind mcfg mem (device seg bus slot fun) offset
