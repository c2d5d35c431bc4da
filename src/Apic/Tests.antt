-- ===== src/Apic/Tests.antt =====
-- Runs of Kernel/src/sys/apic.c with one I/O APIC of 24 entries.
use wheatley.Common.{◌%◌, ◌^◌, ◌<◌, ◌≡◌, ◌↔◌, refl, arith, some, [], ◌∷◌, ◌==◌, if◌then◌else◌}
use wheatley.Common.{Bool, false, List, inr}
use wheatley.Apic.Startup.{Nmi, Out, lapic_init}
use wheatley.Apic.Startup.Programmed.{Programmed, lapic_init-Programmed}
use wheatley.Apic.{Ioapic, Iso, Registers, get_ioapic_by_gsi, ioapic_redirect_gsi, wrmsr}
use wheatley.Apic.Redirect.{Redirected, ioapic_redirect_gsi-Redirected}
use wheatley.Apic.Local.{written, wrmsr-whole}

abbrev io : Ioapic
io = record { address = 0xfec00000; gsi_base = 0 }

-- Every entry masked.
abbrev masked : Registers
masked a r = if r == 1 then 0x170011 else if r == 0 then 3 else 0x10000

found_io : get_ioapic_by_gsi masked (io ∷ []) 2 ≡ some io
unfolding get_ioapic_by_gsi wheatley.Apic.get_gsi_count wheatley.Apic.ioapic_read
found_io = refl

ioapic_redirect_gsi-Redirected_example :
    (regs : Registers) × (ioapic_redirect_gsi masked (io ∷ []) 2 48 2 ≡ some regs)
    × Redirected masked regs io 2 48 2
ioapic_redirect_gsi-Redirected_example =
    ioapic_redirect_gsi-Redirected masked (io ∷ []) io 2 48 2 found_io (omega arith) (omega arith)
      (omega arith)

-- The base of the local APIC's page with its two enabling bits loses its top byte.
wrmsr-whole_example :
    (written (wrmsr 0x1b 0xfee00c00) ≡ 0xfee00c00) ↔ (0xfee00c00 % 2 ^ 32 < 2 ^ 24)
wrmsr-whole_example = wrmsr-whole 0x1b 0xfee00c00

-- One NMI for every processor, on the second line.
abbrev nmi_table : List Nmi
nmi_table = record { processor = 0xff; flags = 5; lint = 1 } ∷ []

lapic_init-Programmed_example :
    (x2apic : Bool) × (outs : List Out) × (lapic_init false 0xfee00000 0x1000000 0 0xfee00900 1
        (λ r. 0)
        nmi_table
        0xfff00000
      ≡ some (x2apic, outs))
    × Programmed false 0 0xfee00900 1 x2apic outs
lapic_init-Programmed_example =
    lapic_init-Programmed false 0xfee00000 0x1000000 0 0xfee00900 1 (λ r. 0) nmi_table 0xfff00000
      (omega arith, tt) (inr (omega arith))
