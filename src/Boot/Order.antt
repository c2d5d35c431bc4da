-- ===== src/Boot/Order.antt =====
-- What the kernel's interrupts lead to, once `kernel_main` of Kernel/src/main.c has registered its handlers.
use wheatley.Common.{
  ℕ, ◌<◌, ◌≡◌, sym, ap, ◌∙◌, none, some, arith, ltb, ◌==◌, if◌then◌else◌, get_or, update,
}
use wheatley.Common.{Result, ok, and_then-ok, ok_inj}
use wheatley.Interrupts.{
  isr_register_handler, Handlers, isr_handle, call, panic_unhandled, print_unhandled,
  isr_exceptions,
}
use wheatley.Boot.{
  Handler, nmi_vector, sched_resched, Stage, smp_init, register, sched_init, perform_all,
  kernel_start,
}

register-update :
    (handlers handlers' : Handlers Handler) (n : ℕ) (handler : Handler)
    → n < 256
    → register handlers n handler ≡ ok handlers'
    → update handlers n (some handler) ≡ handlers'
unfolding register isr_register_handler
register-update handlers handlers' n handler lt e =
    let got : ok (update handlers n (some handler)) ≡ ok handlers' = ground (arith, e) in
    ok_inj _ handlers' got

abbrev pub no_handlers : Handlers Handler
no_handlers n = none

module _ {World : Type 0} (perform : Stage → World → Result World) where
  kernel_start-handlers :
      (w w' : World) (handlers : Handlers Handler)
      → kernel_start perform w no_handlers ≡ ok (w', handlers)
      → update (update no_handlers 2 (some nmi_vector)) 48 (some sched_resched) ≡ handlers
  unfolding kernel_start sched_init
  kernel_start-handlers w w' handlers e =
      let (w1, e1, r1) = and_then-ok (perform_all perform _ w) _ (w', handlers) e in
      let (h1, e2, r2) = and_then-ok (register no_handlers 2 nmi_vector) _ (w', handlers) r1 in
      let (w2, e3, r3) = and_then-ok (perform_all perform _ w1) _ (w', handlers) r2 in
      let (h2, e4, r4) = and_then-ok (register h1 48 sched_resched) _ (w', handlers) r3 in
      let (w3, e5, r5) = and_then-ok (perform smp_init w2) _ (w', handlers) r4 in
      let last : h2 ≡ handlers = cc (ok_inj _ _ r5) in
      ap (λ x. update x 48 (some sched_resched))
        (register-update no_handlers h1 2 nmi_vector (omega arith) e2)
      ∙ register-update h1 h2 48 sched_resched (omega arith) e4
      ∙ last

  -- When the kernel has started, with no handler before, interrupt 2 is given to `nmi_vector` and
  -- interrupt 48 to `sched_resched`; every other exception, below 32, ends in a panic with its name,
  -- and every other interrupt is printed, the timer's interrupt 32 among them.
  pub isr_handle-kernel_start :
      (w w' : World) (handlers : Handlers Handler) (number : ℕ)
      → kernel_start perform w no_handlers ≡ ok (w', handlers)
      → isr_handle Handler handlers number ≡ (
          if number == 2
          then call nmi_vector
          else if number == 48
          then call sched_resched
          else if ltb number 32
          then panic_unhandled (get_or isr_exceptions number "")
          else print_unhandled number)
  unfolding isr_handle
  isr_handle-kernel_start w w' handlers number e =
      rw (sym (kernel_start-handlers w w' handlers e)) (ground arith)
