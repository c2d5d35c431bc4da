-- ===== src/Interrupts/Gates.antt =====
-- The interrupt descriptor table of Kernel/src/sys/idt.c, as the processor reads it.
use wheatley.Common.{
  ℕ, zero, suc, ◌+◌, ◌*◌, ◌/◌, ◌%◌, ◌^◌, ◌≤◌, ◌<◌, ◌≡◌, refl, sym, ◌∙◌, ◌≢◌, ◌&&◌, ◌||◌, arith, ltb,
  leb, ◌==◌, if◌then◌else◌, bit_and-low,
}
use mathlib.Core.Path.{subst}
use native.Mathlib.Decide.{ℕ_discrete}
use wheatley.Interrupts.{Descriptor, selector, idt_set_handler, isr_ist, isr_write_from, isr_write}

-- The entry point that a gate names, put together from its three parts.
abbrev pub gate_offset : Descriptor → ℕ
gate_offset d = d.offset_1 + d.offset_2 * 2 ^ 16 + d.offset_3 * 2 ^ 32

-- Privilege from which a gate may be raised by software, and its presence.
abbrev pub gate_dpl : Descriptor → ℕ
gate_dpl d = d.type_attributes / 2 ^ 5 % 4

abbrev pub gate_present : Descriptor → ℕ
gate_present d = d.type_attributes / 2 ^ 7 % 2

gate_offset-set :
    (table : ℕ → Descriptor) (v ist isr : ℕ)
    → isr < 2 ^ 64
    → gate_offset (idt_set_handler table v ist isr v) ≡ isr
unfolding idt_set_handler
gate_offset-set table v ist isr lt =
    ground (arith, bit_and-low 16 isr, bit_and-low 16 (isr / 2 ^ 16))

-- What one gate is after `isr_write`.
pub record IsGate (isr : ℕ → ℕ) (n : ℕ) (d : Descriptor) : Type 0 where
  pub offset : gate_offset d ≡ isr n
  pub segment : d.selector ≡ selector
  pub stack : d.ist ≡ isr_ist n
  pub present : gate_present d ≡ 1
  -- Software may raise only the first sixteen, less those for faults of the machine.
  pub ring : gate_dpl d ≡ (if (leb 16 n || n == 2) || (ltb 6 n && ltb n 11) then 0 else 3)

set-IsGate :
    (isr : ℕ → ℕ) (table : ℕ → Descriptor) (n : ℕ)
    → isr n < 2 ^ 64
    → IsGate isr n (idt_set_handler table n (isr_ist n) (isr n) n)
unfolding idt_set_handler
set-IsGate isr table n lt = record {
  offset = gate_offset-set table n (isr_ist n) (isr n) lt;
  segment = ground arith;
  stack = ground arith;
  present = ground arith;
  ring = ground arith;
}

set-other :
    (table : ℕ → Descriptor) (n ist isr v : ℕ) → v ≢ n → idt_set_handler table n ist isr v ≡ table v
unfolding idt_set_handler
set-other table n ist isr v ne = ground arith

isr_write_from-other :
    (isr : ℕ → ℕ) (rounds n v : ℕ) (table : ℕ → Descriptor)
    → v < n
    → isr_write_from isr rounds n table v ≡ table v
unfolding isr_write_from
isr_write_from-other isr zero n v table lt = refl
isr_write_from-other isr (suc rounds) n v table lt =
    isr_write_from-other isr rounds (n + 1) v _ (omega arith)
    ∙ set-other table n (isr_ist n) (isr n) v (λ e. absurd (omega arith))

isr_write_from-IsGate :
    (isr : ℕ → ℕ)
    → ((n : ℕ) → isr n < 2 ^ 64)
    → (rounds n v : ℕ) (table : ℕ → Descriptor) → n ≤ v
    → v < n + rounds
    → IsGate isr v (isr_write_from isr rounds n table v)
unfolding isr_write_from
isr_write_from-IsGate isr small zero n v table lo hi = absurd (omega arith)
isr_write_from-IsGate isr small (suc rounds) n v table lo hi = elim (ℕ_discrete n v) [
  | yes here ↦
      let kept =
        isr_write_from-other isr rounds (n + 1) v (idt_set_handler table n (isr_ist n) (isr n))
          (omega arith) in
      subst (IsGate isr v) (sym kept) (
        subst (λ x. IsGate isr x (idt_set_handler table n (isr_ist n) (isr n) x)) here
          (set-IsGate isr table n (small n)))
  | no past ↦ isr_write_from-IsGate isr small rounds (n + 1) v _ (omega arith) (omega arith)
]

-- After `isr_write` each of the 256 gates is present, names its own entry point and the kernel's
-- code segment, has its stack, and may be raised by software exactly where idt.c says.
pub isr_write-IsGate :
    (isr : ℕ → ℕ) (idt_table : ℕ) (table : ℕ → Descriptor)
    → ((n : ℕ) → isr n < 2 ^ 64)
    → (n : ℕ) → n < 256
    → IsGate isr n ((isr_write isr idt_table table).table n)
unfolding isr_write
isr_write-IsGate isr idt_table table small n lt =
    isr_write_from-IsGate isr small 256 0 n table (omega arith) (omega arith)
