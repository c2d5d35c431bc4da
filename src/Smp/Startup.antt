-- ===== src/Smp/Startup.antt =====
-- `ap_startup` of Kernel/src/sys/smp.c, which every started processor runs, once it has counted itself
-- (Smp/Count.antt).
use wheatley.Common.{
  ℕ, Bool, Option, none, some, List, ◌<◌, ◌^◌, ◌≡◌, sym, ap, ap₂, ◌∙◌, ◌==◌, ◌||◌, if◌then◌else◌,
}
use wheatley.Common.{◌>>=◌, Result, failed_assertion}
use wheatley.Apic.Startup.{Nmi, Out, lapic_init}
use wheatley.Boot.{deep_main, sched_start, first_task}
use wheatley.Interrupts.{TablePtr, Descriptor, GdtEntry, idt_reload, isr_write, gdt_write}
use wheatley.Interrupts.Delivery.{deliver, isr_write-ptr, isr_write-Delivered}

-- What the processor has been told.
pub record Restarted : Type 0 where
  pub gdt : TablePtr
  pub idt : TablePtr
  pub x2apic : Bool
  pub outs : List Out

-- After `lapic_init`, with how `deepMain` ends.
abbrev pub entered :
    (gdt_ptr : TablePtr) (idt_table : ℕ) → Bool × List Out → Restarted × Result (Unit {0})
entered gdt_ptr idt_table (x2apic, outs) =
    (record { gdt = gdt_ptr; idt = idt_reload idt_table; x2apic = x2apic; outs = outs }, deep_main)

-- `none` is the panic of `lapic_init`.
unfoldable pub ap_startup :
    (gdt_ptr : TablePtr) (idt_table : ℕ) (x2apic : Bool)
    (lapic_addr rbx rcx apic_msr madt_flags : ℕ) (registers : ℕ → ℕ)
    → List Nmi
    → (timer_count : ℕ) → Option (Restarted × Result (Unit {0}))
ap_startup gdt_ptr idt_table x2apic lapic_addr rbx rcx apic_msr madt_flags registers nmis
      timer_count =
    lapic_init x2apic lapic_addr rbx rcx apic_msr madt_flags registers nmis timer_count >>= λ r.
    some (entered gdt_ptr idt_table r)

module _ (gdt_ptr : TablePtr) (idt_table : ℕ) where
  told :
      (o : Option (Bool × List Out)) (s : Restarted) (r : Result (Unit {0}))
      → (o >>= λ q. some (entered gdt_ptr idt_table q)) ≡ some (s, r)
      → (gdt_ptr ≡ s.gdt) × (idt_reload idt_table ≡ s.idt) × (deep_main ≡ r)
  told none s r e = cc e
  told (some q) s r e =
      let same : entered gdt_ptr idt_table q ≡ (s, r) = cc e in
      (ap (λ p. p.0.gdt) same, ap (λ p. p.0.idt) same, ap (λ p. p.1) same)

-- A processor that runs `ap_startup` with the tables that `gdt_write` and `isr_write` have left takes every
-- interrupt as the first processor does, to its entry point but for 1, 8 and 18; and the scheduler's
-- assertion fails on it.
pub ap_startup-Delivered :
    (isr : ℕ → ℕ) (idt_table gdt_table : ℕ) (table : ℕ → Descriptor) (segments : ℕ → GdtEntry)
    (x2apic : Bool) (lapic_addr rbx rcx apic_msr madt_flags : ℕ) (registers : ℕ → ℕ)
    (nmis : List Nmi) (timer_count : ℕ) (s : Restarted) (r : Result (Unit {0}))
    → ((n : ℕ) → isr n < 2 ^ 64)
    → ap_startup
        (gdt_write gdt_table segments).ptr
        idt_table
        x2apic
        lapic_addr
        rbx
        rcx
        apic_msr
        madt_flags
        registers
        nmis
        timer_count
      ≡ some (s, r)
    → (n : ℕ) → n < 256
    → (deliver
          (record { table = (isr_write isr idt_table table).table; ptr = s.idt })
          (record { table = (gdt_write gdt_table segments).table; ptr = s.gdt })
          n
        ≡ (if n == 1 || n == 8 || n == 18 then none else some (isr n)))
      × (r ≡ failed_assertion)
unfolding ap_startup deep_main sched_start first_task
ap_startup-Delivered isr idt_table gdt_table table segments x2apic lapic_addr rbx rcx apic_msr
      madt_flags registers nmis timer_count s r small e n lt =
    let (g, i, ends) =
      told (gdt_write gdt_table segments).ptr idt_table
        (lapic_init x2apic lapic_addr rbx rcx apic_msr madt_flags registers nmis timer_count) s r
        e in
    (
      ap₂
            (λ p q.
              deliver (record { table = (isr_write isr idt_table table).table; ptr = p })
                (record { table = (gdt_write gdt_table segments).table; ptr = q }) n)
            (sym i ∙ isr_write-ptr isr idt_table table) (sym g)
          ∙ (isr_write-Delivered isr idt_table gdt_table table segments small n lt).1,
      sym ends,
    )
