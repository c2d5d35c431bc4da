-- ===== src/Interrupts/Delivery.antt =====
-- How a processor takes an interrupt through the tables of Kernel/src/sys/idt.c, isr.c and gdt.c, in the
-- kernel and without a task segment, which gdt.c leaves to be done.
use wheatley.Common.{
  ℕ, ◌+◌, ◌*◌, ◌/◌, ◌%◌, ◌^◌, ◌<◌, ◌≡◌, refl, ap, ◌∙◌, Bool, true, false, ◌&&◌, ◌||◌, not, Option,
  none, some, arith, ltb, ◌==◌, if◌then◌else◌, Bool-cases, inl, inr, bit,
}
use wheatley.Interrupts.{
  Descriptor, Idt, Gdt, GdtEntry, selector, isr_write, isr_ist, idt_reload, gdt_write,
}
use wheatley.Interrupts.Gates.{gate_offset, gate_present, IsGate, isr_write-IsGate}

-- A present segment of ring 0 with code in 64 bits, as its access byte and its flags say.
abbrev pub is_kernel_code : GdtEntry → Bool
is_kernel_code e =
    bit e.access 7 == 1
    && (e.access / 2 ^ 5 % 4 == 0
        && (bit e.access 4 == 1 && (bit e.access 3 == 1 && bit e.granularity 5 == 1)))

-- The address at which the processor goes on; `none` is a fault on the way. The gate and the segment have
-- to lie in their tables, and a stack of its own, other than 0, would come from the task segment.
unfoldable pub deliver : Idt → Gdt → (vector : ℕ) → Option ℕ
deliver idt gdt vector =
    let gate = idt.table vector in
    if ltb idt.ptr.limit (vector * 16 + 15)
    then none
    else if not (gate_present gate == 1)
    then none
    else if ltb gdt.ptr.limit (gate.selector / 8 * 8 + 7)
    then none
    else if not (is_kernel_code (gdt.table (gate.selector / 8)))
    then none
    else if gate.ist % 8 == 0
    then some (gate_offset gate)
    else none

kernel_code :
    (gdt_table : ℕ) (table : ℕ → GdtEntry)
    → is_kernel_code ((gdt_write gdt_table table).table (selector / 8)) ≡ true
unfolding gdt_write bit
kernel_code gdt_table table = refl

gdt_limit : (gdt_table : ℕ) (table : ℕ → GdtEntry) → (gdt_write gdt_table table).ptr.limit ≡ 39
unfolding gdt_write
gdt_limit gdt_table table = refl

idt_limit :
    (isr : ℕ → ℕ) (idt_table : ℕ) (table : ℕ → Descriptor)
    → (isr_write isr idt_table table).ptr.limit ≡ 4095
unfolding isr_write idt_reload
idt_limit isr idt_table table = refl

pub isr_write-ptr :
    (isr : ℕ → ℕ) (idt_table : ℕ) (table : ℕ → Descriptor)
    → idt_reload idt_table ≡ (isr_write isr idt_table table).ptr
unfolding isr_write
isr_write-ptr isr idt_table table = refl

-- After `gdt_write` and `isr_write`, with entry points below 2^64, each of the 256 gates is present, names
-- its own entry point and the kernel's code segment, has its stack, and may be raised by software
-- exactly where idt.c says. A processor in the kernel takes every interrupt to its entry point, but
-- for 1, 8 and 18, whose gates ask for a stack of the task segment that is missing.
pub isr_write-Delivered :
    (isr : ℕ → ℕ) (idt_table gdt_table : ℕ) (table : ℕ → Descriptor) (segments : ℕ → GdtEntry)
    → ((n : ℕ) → isr n < 2 ^ 64)
    → (n : ℕ) → n < 256
    → IsGate isr n ((isr_write isr idt_table table).table n)
      × (deliver (isr_write isr idt_table table) (gdt_write gdt_table segments) n
          ≡ (if n == 1 || n == 8 || n == 18 then none else some (isr n)))
unfolding deliver isr_ist
isr_write-Delivered isr idt_table gdt_table table segments small n lt =
    let gate = isr_write-IsGate isr idt_table table small n lt in
    let d = (isr_write isr idt_table table).table n in
    let inside : ltb (isr_write isr idt_table table).ptr.limit (n * 16 + 15) ≡ false =
      ground (arith, idt_limit isr idt_table table) in
    let on : (gate_present d == 1) ≡ true = ground (arith, gate.present) in
    let segment = gate.segment in
    let stack : d.ist ≡ (if n == 1 || n == 8 || n == 18 then 1 else 0) = gate.stack in
    (
      gate,
      rw (inside, deliver)
          (rw on (
            rw segment (
              rw (gdt_limit gdt_table segments, kernel_code gdt_table segments)
                (elim (Bool-cases (n == 1 || n == 8 || n == 18)) [
                  | inl own ↦
                      let asked : (d.ist % 8 == 0) ≡ false =
                        ap (λ x. x % 8 == 0) (stack ∙ ap (λ b. if b then 1 else 0) own) in
                      rw (asked, own) refl
                  | inr none_asked ↦
                      let none_there : (d.ist % 8 == 0) ≡ true =
                        ap (λ x. x % 8 == 0) (stack ∙ ap (λ b. if b then 1 else 0) none_asked) in
                      rw (none_there, none_asked) (ap some gate.offset)
                ])))),
    )
