-- ===== src/Panic/Halting.antt =====
-- Panics and non-maskable interrupts, in the order in which the lock lets them in, in
-- Kernel/src/panic.c: the first one is reported and stops the other processors, and no later one is.
use wheatley.Common.{
  ℕ, zero, suc, ◌≤◌, ◌≡◌, ap, ◌∙◌, sym, true, false, Option, none, some, List, [], ◌∷◌, ◌++◌, arith,
  length,
}
use mathlib.Core.List.{append-nil, append_assoc}
use Prim.Native.String.{String}
use wheatley.Panic.{
  Symbol, StackFrame, panic_backtrace, Event, State, Core, report, panic, nmi_vector, after_panic,
}

-- A trace of the stack has at most as many lines as it is asked for.
pub panic_backtrace-length :
    (symbols : List Symbol) (stack : ℕ → StackFrame) (frame max_frames : ℕ)
    → length (panic_backtrace symbols stack frame max_frames) ≤ max_frames
unfolding panic_backtrace
panic_backtrace-length symbols stack frame zero = omega arith
panic_backtrace-length symbols stack frame (suc max_frames) =
    ground (arith, panic_backtrace-length symbols stack (stack frame).rbp max_frames)

module _ (Registers : Type 0) where
  -- A call of `panic`, or an interrupt, on some processor.
  pub data Call : Type 0 where
    to_panic : Core Registers → String → Option Registers → Call
    nmi : Core Registers → Registers → Call

  abbrev pub perform : State Registers → Call → Option (State Registers)
  perform s (to_panic core reason r) = panic Registers s core reason r
  perform s (nmi core r) = nmi_vector Registers s core r

  abbrev pub perform_all : State Registers → List Call → Option (State Registers)
  perform_all s [] = some s
  perform_all s (call ∷ calls) = elim (perform s call) [
    | none ↦ none
    | some s' ↦ perform_all s' calls
  ]

  -- What the first call reports.
  abbrev pub first_report : Call → List (Event Registers)
  first_report (to_panic core reason r) = report Registers core reason r
  first_report (nmi core r) = report Registers core "Unexpected NMI" (some r)

  -- What the later calls print.
  abbrev pub later_prints : List Call → List (Event Registers)
  later_prints [] = []
  later_prints (to_panic core reason r ∷ calls) = after_panic core.apic_id ∷ later_prints calls
  later_prints (nmi core r ∷ calls) = later_prints calls

  -- The lock is free, the local APIC's address is known, and nothing has panicked yet.
  abbrev pub running : List (Event Registers) → State Registers
  running log = record { is_halting = false; locked = false; lapic = true; log = log }

  abbrev pub halting : List (Event Registers) → State Registers
  halting log = record { is_halting = true; locked = false; lapic = true; log = log }

  perform_all-halting :
      (log : List (Event Registers)) (calls : List Call)
      → perform_all (halting log) calls ≡ some (halting (log ++ later_prints calls))
  unfolding panic nmi_vector
  perform_all-halting log [] = ap (λ l. some (halting l)) (sym (append-nil log))
  perform_all-halting log (to_panic core reason r ∷ calls) =
      perform_all-halting (log ++ (after_panic core.apic_id ∷ [])) calls
      ∙ ap (λ l. some (halting l))
          (append_assoc log (after_panic core.apic_id ∷ []) (later_prints calls))
  perform_all-halting log (nmi core r ∷ calls) = perform_all-halting log calls

  -- Once the local APIC's address is known or the x2APIC is used, every call of a sequence returns the
  -- lock, and from its first call on the kernel halts. The first
  -- call, whether a panic or an interrupt, is reported in full and signals the other processors;
  -- every later panic prints one line, and every later interrupt prints nothing.
  pub perform_all-running :
      (log : List (Event Registers)) (call : Call) (calls : List Call)
      → perform_all (running log) (call ∷ calls)
        ≡ some (halting (log ++ (first_report call ++ later_prints calls)))
  unfolding panic nmi_vector
  perform_all-running log (to_panic core reason r) calls =
      let told = report Registers core reason r in
      perform_all-halting (log ++ told) calls
      ∙ ap (λ l. some (halting l)) (append_assoc log told (later_prints calls))
  perform_all-running log (nmi core r) calls =
      let told = report Registers core "Unexpected NMI" (some r) in
      perform_all-halting (log ++ told) calls
      ∙ ap (λ l. some (halting l)) (append_assoc log told (later_prints calls))
