-- ===== src/Panic.antt =====
-- Kernel/src/panic.c: the symbol of an address, the trace of the stack, and the end of the kernel on
-- a panic or a non-maskable interrupt.
--
-- What is printed is a list of events, one for each of the source's messages. The registers at the
-- interrupt are a parameter here, and are printed or not as a whole; Panic/Registers.antt has them.
pub mod Registers
mod Symbols
pub mod Halting
mod Tests
use wheatley.Common.{
  ℕ, zero, suc, ◌-◌, ◌*◌, ◌^◌, ◌+◌, Bool, true, false, not, ◌&&◌, Option, none, some, List, [], ◌∷◌,
  ◌++◌, leb, ◌==◌, if◌then◌else◌, bit_or,
}
use Prim.Native.String.{String}

-- `bootproto_symbol_t`
pub record Symbol : Type 0 where
  pub name : String
  pub addr : ℕ  -- uint64_t

-- `bestFittingSymbol == 0 || symbol->addr >= bestFittingSymbol->addr`
pub is_no_worse : Option Symbol → Symbol → Bool
is_no_worse none symbol = true
is_no_worse (some best) symbol = leb best.addr symbol.addr

pub find_symbol_loop : List Symbol → (rip : ℕ) → Option Symbol → Option Symbol
find_symbol_loop [] rip best = best
find_symbol_loop (symbol ∷ rest) rip best =
    find_symbol_loop rest rip
      (if leb symbol.addr rip && is_no_worse best symbol then some symbol else best)

-- `none` is the null pointer.
pub find_symbol : List Symbol → (rip : ℕ) → Option Symbol
find_symbol symbols rip = find_symbol_loop symbols rip none

-- `stackframe_t`
pub record StackFrame : Type 0 where
  pub rbp : ℕ
  pub rip : ℕ

pub data Line : Type 0 where
  in_symbol : (rip : ℕ) (name : String) (offset : ℕ) → Line
  unknown : (rip : ℕ) → Line

pub trace_line : List Symbol → ℕ → Line
trace_line symbols rip = elim (find_symbol symbols rip) [
  | some symbol ↦ in_symbol rip symbol.name (rip - symbol.addr)
  | none ↦ unknown rip
]

-- `panic_backtrace`: the stack is read at the frame's address, and 0 ends it.
pub panic_backtrace : List Symbol → (ℕ → StackFrame) → (frame max_frames : ℕ) → List Line
panic_backtrace symbols stack frame zero = []
panic_backtrace symbols stack frame (suc max_frames) =
    let rest = panic_backtrace symbols stack (stack frame).rbp max_frames in
    if frame == 0 then [] else trace_line symbols (stack frame).rip ∷ rest

module _ (Registers : Type 0) where
  pub data Event : Type 0 where
    after_panic : (core : ℕ) → Event
    panic_on_core : (core : ℕ) (reason : String) → Event
    register_dump : Option Registers → Event
    backtrace : List Line → Event
    halting_now : Event
    ipi : (lapic_id flags : ℕ) → Event

  pub record State : Type 0 where
    pub is_halting : Bool
    pub locked : Bool
    pub lapic : Bool  -- `x2apic || lapic_addr != NULL`
    pub log : List Event

  -- What a processor brings to the call: its number, its stack and the hand-over's symbols.
  pub record Core : Type 0 where
    pub apic_id : ℕ
    pub symbols : List Symbol
    pub stack : ℕ → StackFrame
    pub rbp : ℕ

  pub report : Core → String → Option Registers → List Event
  report core reason r =
      panic_on_core core.apic_id reason
      ∷ register_dump r
      ∷ backtrace (panic_backtrace core.symbols core.stack core.rbp 16)
      ∷ halting_now
      ∷ ipi 0 (bit_or (0b100 * 2 ^ 8) (0b11 * 2 ^ 18))
      ∷ []

  -- `panic`, up to its endless loop in `halt`; `none` spins on the lock, as does a panic within the
  -- panic, from the assertion of `lapic_write` in `apic_send_ipi`, with the lock held.
  unfoldable pub panic : State → Core → String → Option Registers → Option State
  panic s core reason r =
      if s.locked
      then none
      else if s.is_halting
      then some (record s { log = s.log ++ (after_panic core.apic_id ∷ []) })
      else if not s.lapic
      then none
      else some (record s { is_halting = true; log = s.log ++ report core reason r })

  -- `nmi_vector`, likewise.
  unfoldable pub nmi_vector : State → Core → Registers → Option State
  nmi_vector s core registers =
      if s.is_halting then some s else panic s core "Unexpected NMI" (some registers)

  -- `__stack_chk_fail`, likewise.
  unfoldable pub stack_chk_fail : State → Core → Option State
  stack_chk_fail s core = panic s core "stack smashing detected" none
