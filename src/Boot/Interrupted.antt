-- ===== src/Boot/Interrupted.antt =====
-- The interrupts of a started kernel: `isr_handle` of Kernel/src/sys/isr.c with the handlers that
-- `kernel_main` registers, `panic` and `nmi_vector` of Kernel/src/panic.c.
mod Tests
use wheatley.Common.{
  ℕ, zero, suc, ◌+◌, ◌-◌, ◌*◌, ◌/◌, ◌%◌, ◌^◌, ◌≤◌, ◌<◌, min, max, bit_and, bit_or, bit_xor, ◌≡◌,
  refl, sym, ap, ap₂, ◌∙◌, fun_ext, ◌≢◌, ◌↔◌, ◌⊎◌, inl, inr, Bool, true, false, not, ◌&&◌, ◌||◌,
  Option, none, some, List, [], ◌∷◌, ◌++◌, map, arith, ltb, leb, ◌==◌, if◌then◌else◌, ltb→lt,
  lt→ltb, ==_iff, ==_refl, Bool-cases, Option-cases, length, get_elem?, get_or, length-append,
  update, fill, shr, bit, complement, bit-or, bit-and, bit-lt, bit-two-pow, bit-complement,
  bit_or-lt, bit_and-le, bit_and-low, bit_and-up, bit_and-one, two-pow-lt, bit_and_digit, ℤ, pos,
  negsuc, bit_or_digit, bit-zero, bit-suc,
}
use Prim.Native.String.{String}
use wheatley.Common.{Result, ok, ◌>>=◌}
use wheatley.Interrupts.{
  Handlers, isr_handle, Handling, call, panic_unhandled, print_unhandled, isr_exceptions,
}
use wheatley.Panic.{Core, State, panic, nmi_vector as stop_on_nmi}
use wheatley.Panic.Registers.{Registers}
use wheatley.Panic.Halting.{
  Call, to_panic, nmi, perform, perform_all, running, halting, first_report, later_prints,
  perform_all-running,
}
use wheatley.Boot.{Handler, nmi_vector, sched_resched, Stage, kernel_start}
use wheatley.Boot.Order.{no_handlers, isr_handle-kernel_start}

-- What `isr_handle` prints itself.
pub data IsrLine : Type 0 where
  unhandled_exception : (name : String) → IsrLine
  unhandled_isr : (number : ℕ) → IsrLine

-- A processor with the registers that its interrupt saved.
abbrev pub Interrupt : Type 0
Interrupt = Core Registers × Registers

abbrev pub System : Type 0
System = State Registers

-- `sched_resched` does nothing.
unfoldable pub run_handler : Handler → System → Interrupt → Option System
run_handler nmi_vector s (core, r) = stop_on_nmi Registers s core r
run_handler sched_resched s (core, r) = some s

-- `isr_handle`: the lines that it prints, and the system afterwards; `none` spins on the lock of
-- `panic`.
unfoldable pub take_interrupt :
    Handlers Handler → System → Interrupt → Option (List IsrLine × System)
take_interrupt handlers s i = elim (isr_handle Handler handlers i.1.isr_number) [
  | call h ↦ run_handler h s i >>= λ s'. some ([], s')
  | panic_unhandled name ↦ panic Registers s i.0 "Unhandled exception" (some i.1) >>= λ s'.
      some (unhandled_exception name ∷ [], s')
  | print_unhandled number ↦ some (unhandled_isr number ∷ [], s)
]

abbrev prepend : List IsrLine → Option (List IsrLine × System) → Option (List IsrLine × System)
prepend lines none = none
prepend lines (some (more, s)) = some (lines ++ more, s)

abbrev go_on :
    Option (List IsrLine × System)
    → (System → Option (List IsrLine × System))
    → Option (List IsrLine × System)
go_on none k = none
go_on (some (lines, s)) k = prepend lines (k s)

unfoldable pub take_interrupts :
    Handlers Handler → System → List Interrupt → Option (List IsrLine × System)
take_interrupts handlers s [] = some ([], s)
take_interrupts handlers s (i ∷ is) =
    go_on (take_interrupt handlers s i) λ s'. take_interrupts handlers s' is

-- An interrupt that ends the kernel, as a call of `panic` or `nmi_vector`.
abbrev pub call_of : Interrupt → Option (Call Registers)
call_of (core, r) =
    if r.isr_number == 2
    then some (nmi core r)
    else if ltb r.isr_number 32
    then some (to_panic core "Unhandled exception" (some r))
    else none

abbrev pub line_of : Interrupt → List IsrLine
line_of (core, r) =
    if r.isr_number == 2
    then []
    else if r.isr_number == 48
    then []
    else if ltb r.isr_number 32
    then unhandled_exception (get_or isr_exceptions r.isr_number "") ∷ []
    else unhandled_isr r.isr_number ∷ []

abbrev pub fatal : List Interrupt → List (Call Registers)
fatal [] = []
fatal (i ∷ is) = let rest = fatal is in elim (call_of i) [ none ↦ rest | some c ↦ c ∷ rest ]

abbrev pub printed : List Interrupt → List IsrLine
printed [] = []
printed (i ∷ is) = line_of i ++ printed is

-- What is left of a system that ran.
abbrev pub left_by : List (Call Registers) → System
left_by [] = running Registers []
left_by (first ∷ later) =
    halting Registers (first_report Registers first ++ later_prints Registers later)

act : System → Option (Call Registers) → Option System
act s none = some s
act s (some c) = perform Registers s c

perform_all-act :
    (s : System) (c : Option (Call Registers)) (cs : List (Call Registers))
    → perform_all Registers s (elim c [ none ↦ cs | some d ↦ d ∷ cs ])
      ≡ (act s c >>= λ s'. perform_all Registers s' cs)
unfolding act
perform_all-act s none cs = refl
perform_all-act s (some c) cs = go (perform Registers s c)
  where
    go :
        (o : Option System)
        → elim o [ none ↦ none | some s' ↦ perform_all Registers s' cs ]
          ≡ (o >>= λ s'. perform_all Registers s' cs)
    go none = refl
    go (some s') = refl

-- Lines are put in front of what follows.
lines_first :
    (o : Option System) (lines more : List IsrLine) (k : System → Option (List IsrLine × System))
    (q : System → Option System)
    → ((s : System) → k s ≡ (q s >>= λ s'. some (more, s')))
    → go_on (o >>= λ s'. some (lines, s')) k ≡ ((o >>= q) >>= λ s'. some (lines ++ more, s'))
lines_first none lines more k q same = refl
lines_first (some s) lines more k q same = ap (prepend lines) (same s) ∙ go (q s)
  where
    go :
        (r : Option System)
        → prepend lines (r >>= λ s'. some (more, s')) ≡ (r >>= λ s'. some (lines ++ more, s'))
    go none = refl
    go (some s') = refl

module _ (handlers : Handlers Handler)
    (dispatch : (number : ℕ)
      → isr_handle Handler handlers number ≡ (
          if number == 2
          then call nmi_vector
          else if number == 48
          then call sched_resched
          else if ltb number 32
          then panic_unhandled (get_or isr_exceptions number "")
          else print_unhandled number)) where
  take_interrupt-act :
      (s : System) (i : Interrupt)
      → take_interrupt handlers s i ≡ (act s (call_of i) >>= λ s'. some (line_of i, s'))
  unfolding take_interrupt run_handler act
  take_interrupt-act s (core, r) =
      rw (dispatch r.isr_number, take_interrupt)
        (elim (Bool-cases (r.isr_number == 2)) [
          | inl e ↦ rw e refl
          | inr e ↦ elim (Bool-cases (r.isr_number == 48)) [
            | inl e' ↦
                let high : ltb r.isr_number 32 ≡ false = ground arith in rw (e, e', high) refl
            | inr e' ↦ elim (Bool-cases (ltb r.isr_number 32)) [
              | inl low ↦ rw (e, e', low) refl
              | inr high ↦ rw (e, e', high) refl
            ]
          ]
        ])

  -- With this dispatch, interrupts do what the fatal ones among them do.
  take_interrupts-perform_all :
      (s : System) (is : List Interrupt)
      → take_interrupts handlers s is
        ≡ (perform_all Registers s (fatal is) >>= λ s'. some (printed is, s'))
  unfolding take_interrupts
  take_interrupts-perform_all s [] = refl
  take_interrupts-perform_all s (i ∷ is) =
      ap (λ r. go_on r λ s'. take_interrupts handlers s' is) (take_interrupt-act s i)
      ∙ lines_first (act s (call_of i)) (line_of i) (printed is)
          (λ s'. take_interrupts handlers s' is) (λ s'. perform_all Registers s' (fatal is))
          (λ s'. take_interrupts-perform_all s' is)
      ∙ ap (λ o. o >>= λ s'. some (printed (i ∷ is), s'))
          (sym (perform_all-act s (call_of i) (fatal is)))

perform_all-left_by :
    (cs : List (Call Registers))
    → perform_all Registers (running Registers []) cs ≡ some (left_by cs)
perform_all-left_by [] = refl
perform_all-left_by (c ∷ cs) = perform_all-running Registers [] c cs

module _ {World : Type 0} (perform_stage : Stage → World → Result World) where
  -- After a start that went through, with no handler before, any sequence of interrupts returns, each
  -- with the lock given back: those of exceptions other than 2, below 32, end the kernel with a panic, and
  -- 2 as an unexpected NMI. The first of these is reported in full, with its registers, whatever
  -- interrupts came before; of later ones the panics print a line each and the NMIs nothing; and
  -- `isr_handle` itself prints one line for each interrupt other than 2 and 48.
  pub take_interrupts-left_by :
      (w w' : World) (handlers : Handlers Handler)
      → kernel_start perform_stage w no_handlers ≡ ok (w', handlers)
      → (is : List Interrupt)
      → take_interrupts handlers (running Registers []) is ≡ some (printed is, left_by (fatal is))
  take_interrupts-left_by w w' handlers e is =
      take_interrupts-perform_all handlers
        (λ number. isr_handle-kernel_start perform_stage w w' handlers number e)
        (running Registers []) is
      ∙ ap (λ o. o >>= λ s'. some (printed is, s')) (perform_all-left_by (fatal is))
