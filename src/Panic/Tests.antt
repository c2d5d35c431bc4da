-- ===== src/Panic/Tests.antt =====
-- Runs of Kernel/src/panic.c at concrete inputs.
use wheatley.Common.{ℕ, ◌≤◌, ◌≡◌, refl, none, some, List, [], ◌∷◌, ◌++◌, length}
use wheatley.Panic.{Symbol, StackFrame, Core, Event, find_symbol, panic_backtrace}
use wheatley.Panic.Symbols.{Best, find_symbol-Best}
use wheatley.Panic.Halting.{
  Call, to_panic, nmi, perform_all, first_report, later_prints, running, halting,
  perform_all-running, panic_backtrace-length,
}

abbrev kernel_symbols : List Symbol
kernel_symbols =
    record { name = "main"; addr = 0x1000 }
    ∷ record { name = "panic"; addr = 0x3000 }
    ∷ record { name = "halt"; addr = 0x2000 }
    ∷ []

find_symbol_inside :
    find_symbol kernel_symbols 0x2fff ≡ some (record { name = "halt"; addr = 0x2000 })
unfolding find_symbol wheatley.Panic.find_symbol_loop wheatley.Panic.is_no_worse
find_symbol_inside = refl

find_symbol-Best_example : Best kernel_symbols 0x2fff (find_symbol kernel_symbols 0x2fff)
find_symbol-Best_example = find_symbol-Best kernel_symbols 0x2fff

-- A frame that links to itself.
abbrev loop_stack : ℕ → StackFrame
loop_stack _ = record { rbp = 0x8000; rip = 0x1004 }

panic_backtrace-length_example : length (panic_backtrace kernel_symbols loop_stack 0x8000 16) ≤ 16
panic_backtrace-length_example = panic_backtrace-length kernel_symbols loop_stack 0x8000 16

abbrev core : ℕ → Core ℕ
core id = record { apic_id = id; symbols = kernel_symbols; stack = loop_stack; rbp = 0x8000 }

abbrev second : List (Call ℕ)
second = nmi (core 1) 7 ∷ to_panic (core 2) "Unhandled exception" none ∷ []

perform_all-running_example :
    perform_all ℕ (running ℕ []) (to_panic (core 0) "out of memory" none ∷ second)
    ≡ some (
        halting ℕ
          (first_report ℕ (to_panic (core 0) "out of memory" none) ++ later_prints ℕ second))
perform_all-running_example =
    perform_all-running ℕ [] (to_panic (core 0) "out of memory" none) second
