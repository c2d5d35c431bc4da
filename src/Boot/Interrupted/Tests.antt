-- ===== src/Boot/Interrupted/Tests.antt =====
-- A timer interrupt, a page fault and another one after it, in a kernel whose parts all return.
use wheatley.Common.{ℕ, ◌≡◌, refl, some, List, [], ◌∷◌, update}
use wheatley.Common.{Result, ok}
use wheatley.Interrupts.{Handlers, isr_register_handler}
use wheatley.Panic.{Core}
use wheatley.Panic.Registers.{Registers}
use wheatley.Panic.Halting.{running}
use wheatley.Boot.{
  Handler, nmi_vector, sched_resched, Stage, register, sched_init, perform_all, kernel_start,
}
use wheatley.Boot.Order.{no_handlers}
use wheatley.Boot.Interrupted.{
  Interrupt, take_interrupts, fatal, printed, left_by, take_interrupts-left_by,
}

pass : Stage → Unit {0} → Result (Unit {0})
pass stage w = ok w

abbrev registered : Handlers Handler
registered = update (update no_handlers 2 (some nmi_vector)) 48 (some sched_resched)

starts : kernel_start pass tt no_handlers ≡ ok (tt, registered)
unfolding kernel_start perform_all pass register sched_init isr_register_handler
starts = refl

abbrev saved : (number : ℕ) → Registers
saved number = record {
  r15 = 0;
  r14 = 0;
  r13 = 0;
  r12 = 0;
  r11 = 0;
  r10 = 0;
  r9 = 0;
  r8 = 0;
  rsi = 0;
  rdi = 0;
  rbp = 0;
  rdx = 0;
  rcx = 0;
  rbx = 0;
  rax = 0;
  isr_number = number;
  error_code = 2;
  rip = 0x1004;
  cs = 8;
  rflags = 2;
  rsp = 0x8000;
  ss = 16;
}

abbrev core : ℕ → Core Registers
core id = record {
  apic_id = id;
  symbols = [];
  stack = λ _. record { rbp = 0; rip = 0x1004 };
  rbp = 0x8000;
}

abbrev three : List Interrupt
three = (core 0, saved 32) ∷ (core 0, saved 14) ∷ (core 1, saved 14) ∷ []

take_interrupts-left_by_example :
    take_interrupts registered (running Registers []) three
    ≡ some (printed three, left_by (fatal three))
take_interrupts-left_by_example = take_interrupts-left_by pass tt tt registered starts three
