-- ===== src/Apic.antt =====
-- Kernel/src/sys/apic.c: the redirection of interrupts through the I/O APICs, the local APIC's
-- registers, and signals between processors.
--
-- An I/O APIC's registers are a function of its address and the register's index, which its two
-- windows in memory, an index and a value, stand for. What the local APIC is told is a list of
-- writes. The lists of Kernel/src/fw/madt.c are given as lists of the fields that are read.
mod Words
mod Redirect
mod Local
pub mod Startup
mod Tests
use wheatley.Common.{
  ℕ, zero, suc, ◌+◌, ◌-◌, ◌*◌, ◌/◌, ◌%◌, ◌^◌, Bool, true, false, ◌&&◌, Option, none, some, List, [],
  ◌∷◌, ◌++◌, bit_and, bit_or, complement, ltb, leb, ◌==◌, not, if◌then◌else◌, update,
}

-- The fields of `madt_ioapic_t` and of `madt_ioapic_iso_t` that are read.
pub record Ioapic : Type 0 where
  pub address : ℕ  -- uint32_t
  pub gsi_base : ℕ  -- uint32_t

pub record Iso : Type 0 where
  pub irq_source : ℕ  -- uint8_t
  pub gsi : ℕ  -- uint32_t
  pub flags : ℕ  -- uint16_t

-- The registers of all I/O APICs, by address and index.
abbrev pub Registers : Type 0
Registers = ℕ → ℕ → ℕ

pub ioapic_read : Registers → (ioapic_address reg : ℕ) → ℕ
ioapic_read regs a reg = regs a (bit_and reg 0xff)

pub ioapic_write : Registers → (ioapic_address reg data_word : ℕ) → Registers
ioapic_write regs a reg data_word = update regs a (update (regs a) (bit_and reg 0xff) data_word)

pub get_gsi_count : Registers → (ioapic_address : ℕ) → ℕ
get_gsi_count regs a = bit_and (ioapic_read regs a 1) 0xff0000 / 2 ^ 16

pub get_ioapic_by_gsi : Registers → List Ioapic → (gsi : ℕ) → Option Ioapic
get_ioapic_by_gsi regs [] gsi = none
get_ioapic_by_gsi regs (ioapic ∷ ioapics) gsi =
    let rest = get_ioapic_by_gsi regs ioapics gsi in
    if leb ioapic.gsi_base gsi
      && ltb gsi ((ioapic.gsi_base + get_gsi_count regs ioapic.address) % 2 ^ 32)
    then some ioapic
    else rest

-- The low word of an entry, from the one that is read.
pub low_word : (low vec flags : ℕ) → ℕ
low_word low vec flags =
    let unmasked = bit_and low (complement 32 (2 ^ 16)) in
    let physical = bit_and unmasked (complement 32 (2 ^ 11)) in
    let fixed = bit_and physical (complement 32 0x700) in
    let vectored = bit_or (bit_and fixed (complement 32 0xff)) vec in
    let polarity = if bit_and flags 2 == 0 then vectored else bit_or vectored (2 ^ 13) in
    if bit_and flags 8 == 0 then polarity else bit_or polarity (2 ^ 15)

-- The high word; `id` is the I/O APIC's register 0.
pub high_word : (high id : ℕ) → ℕ
high_word high id = bit_or (bit_and high (complement 32 0xff000000)) (id * 2 ^ 24 % 2 ^ 32)

-- `none` reads through NULL: no I/O APIC has the interrupt.
pub ioapic_redirect_gsi : Registers → List Ioapic → (gsi vec flags : ℕ) → Option Registers
ioapic_redirect_gsi regs ioapics gsi vec flags = elim (get_ioapic_by_gsi regs ioapics gsi) [
  | none ↦ none
  | some ioapic ↦
      let a = ioapic.address in
      let low_index = (0x10 + (gsi + 2 ^ 32 - ioapic.gsi_base) * 2) % 2 ^ 32 in
      let high_index = (low_index + 1) % 2 ^ 32 in
      let high = high_word (ioapic_read regs a high_index) (ioapic_read regs a 0) in
      let regs1 = ioapic_write regs a high_index high in
      let low = low_word (ioapic_read regs1 a low_index) vec flags in
      some (ioapic_write regs1 a low_index low)
]

-- The override of an interrupt of the old controllers, as its number and flags.
pub override_of : List Iso → (irq : ℕ) → ℕ × ℕ
override_of [] irq = (irq, 0)
override_of (iso ∷ isos) irq =
    let rest = override_of isos irq in if iso.irq_source == irq then (iso.gsi, iso.flags) else rest

pub ioapic_redirect_irq : Registers → List Ioapic → List Iso → (irq vect : ℕ) → Option Registers
ioapic_redirect_irq regs ioapics isos irq vect =
    let (gsi, flags) = override_of isos irq in ioapic_redirect_gsi regs ioapics gsi vect flags

-- What goes to the local APIC: a write to a model-specific register, or to its page in memory.
pub data Write : Type 0 where
  msr : (number low high : ℕ) → Write
  mmio : (reg value : ℕ) → Write

-- `wrmsr` of Kernel/inc/sys/msr.h.
pub wrmsr : (number value : ℕ) → Write
wrmsr number value = msr number (bit_and value 0xffffff) (value / 2 ^ 32)

pub reg_to_x2apic : ℕ → ℕ
reg_to_x2apic reg = (if reg == 0x310 then 0x30 else reg / 2 ^ 4) + 0x800

-- Of `lapic_write`, once its assertion that the local APIC's address is not NULL holds: `lapic_init` and
-- `panic` have that assertion themselves, and `smp_init` runs after `lapic_init`.
pub lapic_write : (x2apic : Bool) → (reg value : ℕ) → Write
lapic_write x2apic reg value = if x2apic then wrmsr (reg_to_x2apic reg) value else mmio reg value

pub apic_send_ipi : (x2apic : Bool) → (lapic_id flags : ℕ) → List Write
apic_send_ipi x2apic lapic_id flags =
    if x2apic
    then wrmsr 0x830 (bit_or (lapic_id * 2 ^ 32) flags) ∷ []
    else lapic_write x2apic 0x310 (lapic_id * 2 ^ 24 % 2 ^ 32) ∷ lapic_write x2apic 0x300 flags ∷ []

-- The word that `lapic_set_nmi` writes.
pub nmi_word : (vec flags : ℕ) → ℕ
nmi_word vec flags =
    let nmi = bit_or 0x400 vec in
    let polarity = if bit_and flags 2 == 0 then nmi else bit_or nmi (2 ^ 13) in
    if bit_and flags 8 == 0 then polarity else bit_or polarity (2 ^ 15)

-- `none` is the failed assertion.
unfoldable pub lapic_set_nmi :
    (x2apic : Bool) → (vec current_processor processor flags lint : ℕ) → Option (List Write)
lapic_set_nmi x2apic vec current_processor processor flags lint =
    if leb 2 lint
    then none
    else if not (processor == 0xff) && not (current_processor == processor)
    then some []
    else let nmi = nmi_word vec flags in
      some (lapic_write x2apic (if lint == 0 then 0x350 else 0x360) nmi ∷ [])
