-- ===== src/Interrupts/Tests.antt =====
-- Runs of the descriptor tables and of the dispatch, and the theorems at a table of entry points.
use wheatley.Common.{ℕ, ◌+◌, ◌*◌, ◌%◌, ◌≡◌, refl, none, some, arith, update}
use wheatley.Interrupts.{
  Descriptor, panic_unhandled, isr_handle, isr_write, isr_write_from, idt_set_handler, GdtEntry,
  gdt_write, Handlers,
}
use wheatley.Interrupts.Gates.{IsGate}
use wheatley.Interrupts.Delivery.{deliver, isr_write-Delivered}

abbrev blank : ℕ → Descriptor
blank _ = record {
  offset_1 = 0;
  selector = 0;
  ist = 0;
  type_attributes = 0;
  offset_2 = 0;
  offset_3 = 0;
  zero_bits = 0;
}

abbrev entry_point : ℕ → ℕ
entry_point n = 0xffffffff80001000 + n % 256 * 16

breakpoint_gate : ((isr_write entry_point 0x5000 blank).table 3).type_attributes ≡ 0xef
unfolding isr_write isr_write_from idt_set_handler
breakpoint_gate = refl

abbrev zeroed : ℕ → GdtEntry
zeroed _ = record {
  limit = 0;
  base_low = 0;
  base_mid = 0;
  access = 0;
  granularity = 0;
  base_hi = 0;
}

-- A page fault comes to its entry point.
isr_write-Delivered_example :
    IsGate entry_point 14 ((isr_write entry_point 0x5000 blank).table 14)
    × (deliver (isr_write entry_point 0x5000 blank) (gdt_write 0x6000 zeroed) 14
        ≡ some (entry_point 14))
isr_write-Delivered_example =
    isr_write-Delivered entry_point 0x5000 0x6000 blank zeroed (λ n. omega arith) 14 (omega arith)

-- Handlers are named by a number here; 7 is registered for the NMI.
abbrev nmi_only : Handlers ℕ
nmi_only = update (λ _. none) 2 (some 7)

page_fault : isr_handle ℕ nmi_only 14 ≡ panic_unhandled "Page Fault (#PF)"
unfolding isr_handle
page_fault = refl

kernel_code : ((gdt_write 0x6000 zeroed).table 1).access ≡ 0b10011010
unfolding gdt_write
kernel_code = refl
