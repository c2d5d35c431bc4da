-- ===== src/Apic/Startup.antt =====
-- `lapic_init` and `apic_init` of Kernel/src/sys/apic.c: the old controllers are switched off, and the
-- local APIC is enabled and given its NMIs and its timer.
--
-- What is read of the processor and of the tables is given: `rbx` and `rcx` of `cpuid(1)`, the value of
-- MSR 0x1B, the local APIC's registers, and the count that its timer reaches.
pub mod Programmed
use wheatley.Common.{
  ℕ, zero, suc, ◌+◌, ◌-◌, ◌*◌, ◌/◌, ◌%◌, ◌^◌, ◌≤◌, ◌<◌, min, max, bit_and, bit_or, bit_xor, ◌≡◌,
  refl, sym, ap, ap₂, ◌∙◌, fun_ext, ◌≢◌, ◌↔◌, ◌⊎◌, inl, inr, Bool, true, false, not, ◌&&◌, ◌||◌,
  Option, none, some, List, [], ◌∷◌, ◌++◌, map, arith, ltb, leb, ◌==◌, if◌then◌else◌, ltb→lt,
  lt→ltb, ==_iff, ==_refl, Bool-cases, Option-cases, length, get_elem?, get_or, length-append,
  update, fill, shr, bit, complement, bit-or, bit-and, bit-lt, bit-two-pow, bit-complement,
  bit_or-lt, bit_and-le, bit_and-low, bit_and-up, bit_and-one, two-pow-lt, bit_and_digit, ℤ, pos,
  negsuc, bit_or_digit, bit-zero, bit-suc,
}
use wheatley.Common.{◌>>=◌}
use wheatley.Apic.{
  Write, wrmsr, lapic_write, lapic_set_nmi, Registers, Ioapic, Iso, ioapic_redirect_irq,
}
use wheatley.Timer.{apic_timer_init}

-- The fields of `madt_lapic_nmi_t` that are read.
pub record Nmi : Type 0 where
  pub processor : ℕ  -- uint8_t
  pub flags : ℕ  -- uint16_t
  pub lint : ℕ  -- uint8_t

pub data Out : Type 0 where
  port : (number value : ℕ) → Out
  apic : Write → Out

-- `flags.rcx & (1 << 21)`
pub has_x2apic : (rcx : ℕ) → Bool
has_x2apic rcx = not (bit_and rcx (2 ^ 21) == 0)

pub enabled_msr : (apic_msr rcx : ℕ) → ℕ
enabled_msr apic_msr rcx =
    let enabled = bit_or apic_msr (2 ^ 11) in
    if has_x2apic rcx then bit_or enabled (2 ^ 10) else enabled

-- `madt->flags & 1`
pub has_pic : (madt_flags : ℕ) → Bool
has_pic madt_flags = not (bit_and madt_flags 1 == 0)

pub disable_pic : List Out
disable_pic =
    port 0x20 0x11
    ∷ port 0xa0 0x11
    ∷ port 0x21 0x20
    ∷ port 0xa1 0x28
    ∷ port 0x21 4
    ∷ port 0xa1 2
    ∷ port 0x21 1
    ∷ port 0xa1 1
    ∷ port 0x21 0
    ∷ port 0xa1 0
    ∷ port 0xa1 0xff
    ∷ port 0x21 0xff
    ∷ []

pub init_registers : (x2apic : Bool) → (registers : ℕ → ℕ) → List Write
init_registers x2apic registers =
    lapic_write x2apic 0x80 0
    ∷ lapic_write x2apic 0xf0 (bit_or (registers 0xf0) 0x100)
    ∷ (if x2apic
        then []
        else lapic_write x2apic 0xe0 0xf0000000 ∷ lapic_write x2apic 0xd0 (registers 0x20) ∷ [])

pub set_nmis : (x2apic : Bool) → (current_processor : ℕ) → List Nmi → Option (List Write)
set_nmis x2apic current [] = some []
set_nmis x2apic current (nmi ∷ nmis) =
    lapic_set_nmi x2apic 2 current nmi.processor nmi.flags nmi.lint >>= λ writes.
    set_nmis x2apic current nmis >>= λ rest. some (writes ++ rest)

pub timer_writes : (x2apic : Bool) → List (ℕ × ℕ) → List Write
timer_writes x2apic writes = map (λ (reg, value). lapic_write x2apic reg value) writes

-- Everything that is written, in order.
pub lapic_outs :
    (x2apic : Bool)
    → (rcx apic_msr madt_flags : ℕ) → (registers : ℕ → ℕ) → (nmi_writes : List Write)
    → (timer_count : ℕ) → List Out
lapic_outs x2apic rcx apic_msr madt_flags registers nmi_writes timer_count =
    apic (wrmsr 0x1b (enabled_msr apic_msr rcx))
    ∷ ((if has_pic madt_flags then disable_pic else [])
        ++ map apic (
            init_registers x2apic registers
            ++ nmi_writes
            ++ timer_writes x2apic (apic_timer_init timer_count)))

-- The new value of the flag `x2apic`, and what is written; `none` is a failed assertion, that of
-- `lapic_read` and `lapic_write` on the address included.
pub lapic_init :
    (x2apic : Bool) (lapic_addr : ℕ)
    → (rbx rcx apic_msr madt_flags : ℕ) → (registers : ℕ → ℕ) → List Nmi
    → (timer_count : ℕ) → Option (Bool × List Out)
lapic_init x2apic lapic_addr rbx rcx apic_msr madt_flags registers nmis timer_count =
    let x2apic' = x2apic || has_x2apic rcx in
    if not x2apic' && lapic_addr == 0
    then none
    else set_nmis x2apic' (rbx / 2 ^ 24 % 2 ^ 8) nmis >>= λ nmi_writes.
        some (x2apic', lapic_outs x2apic' rcx apic_msr madt_flags registers nmi_writes timer_count)

-- After `madt_init`: the local APIC, and then the old timer's interrupt to vector 48.
pub apic_init :
    (x2apic : Bool) (lapic_addr : ℕ)
    → (rbx rcx apic_msr madt_flags : ℕ) → (registers : ℕ → ℕ) → List Nmi
    → (timer_count : ℕ) → (ioapic_registers : Registers) → List Ioapic
    → List Iso
    → Option (Bool × List Out × Registers)
apic_init x2apic lapic_addr rbx rcx apic_msr madt_flags registers nmis timer_count regs ioapics
      isos =
    lapic_init x2apic lapic_addr rbx rcx apic_msr madt_flags registers nmis timer_count
    >>= λ (x2apic', outs).
        ioapic_redirect_irq regs ioapics isos 0 48 >>= λ regs'. some (x2apic', outs, regs')
