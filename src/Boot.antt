-- ===== src/Boot.antt =====
-- Kernel/src/main.c, deepMain.c and sched/sched.c: the order in which the kernel's parts are started,
-- the interrupt handlers that they register, and the scheduler, which has no tasks.
--
-- What a part does is a parameter, `perform`, over a state of the machine of any type.
pub mod Interrupted
mod Order
mod Tests
use wheatley.Common.{
  ℕ, zero, suc, ◌+◌, ◌-◌, ◌*◌, ◌/◌, ◌%◌, ◌^◌, ◌≤◌, ◌<◌, min, max, bit_and, bit_or, bit_xor, ◌≡◌,
  refl, sym, ap, ap₂, ◌∙◌, fun_ext, ◌≢◌, ◌↔◌, ◌⊎◌, inl, inr, Bool, true, false, not, ◌&&◌, ◌||◌,
  Option, none, some, List, [], ◌∷◌, ◌++◌, map, arith, ltb, leb, ◌==◌, if◌then◌else◌, ltb→lt,
  lt→ltb, ==_iff, ==_refl, Bool-cases, Option-cases, length, get_elem?, get_or, length-append,
  update, fill, shr, bit, complement, bit-or, bit-and, bit-lt, bit-two-pow, bit-complement,
  bit_or-lt, bit_and-le, bit_and-low, bit_and-up, bit_and-one, two-pow-lt, bit_and_digit, ℤ, pos,
  negsuc, bit_or_digit, bit-zero, bit-suc,
}
use wheatley.Common.{Result, ok, panic, failed_assertion, fault, and_then, and_then-ok}
use wheatley.Interrupts.{isr_register_handler, Handlers}

pub data Handler : Type 0 where
  nmi_vector : Handler
  sched_resched : Handler

-- The calls of `kernel_main` that are not modelled here; `smp_init` is the part of it before
-- `deepMain`.
pub data Stage : Type 0 where
  serialtty_module_init : Stage
  gdt_write : Stage
  isr_write : Stage
  mm_init : Stage
  vmm_init : Stage
  efifb_module_init : Stage
  fbtty_module_init : Stage
  read_oem_id : Stage  -- `cpuid(0)`, `get_cpuid_string`
  acpi_init : Stage
  apic_init : Stage
  smp_init : Stage

-- `sched_task_t`, of which nothing is read.
pub data Task : Type 0 where
  task : Task

-- `assert(firstTask != NULL)`
unfoldable pub sched_start : (first_task : Option Task) → Result (Unit {0})
sched_start none = failed_assertion
sched_start (some t) = ok tt

-- `firstTask` at the start of the program; nothing else is written to it.
abbrev pub first_task : Option Task
first_task = none

-- Up to the endless loop that halts the processor.
unfoldable pub deep_main : Result (Unit {0})
deep_main = sched_start first_task

-- A registration outside of the array of handlers is a `fault`.
pub register : Handlers Handler → ℕ → Handler → Result (Handlers Handler)
register handlers n handler = elim (isr_register_handler Handler handlers (pos n) (some handler)) [
  | none ↦ fault
  | some handlers' ↦ ok handlers'
]

pub sched_init : Handlers Handler → Result (Handlers Handler)
sched_init handlers = register handlers 48 sched_resched

module _ {World : Type 0} (perform : Stage → World → Result World) where
  pub perform_all : List Stage → World → Result World
  perform_all [] w = ok w
  perform_all (stage ∷ stages) w = and_then (perform stage w) λ w'. perform_all stages w'

  -- Up to the call of `deepMain` by `smp_init`.
  pub kernel_start : World → Handlers Handler → Result (World × Handlers Handler)
  kernel_start w handlers =
      and_then (perform_all (serialtty_module_init ∷ gdt_write ∷ isr_write ∷ []) w) λ w1.
        and_then (register handlers 2 nmi_vector) λ h1.
          and_then
            (perform_all
              (mm_init ∷ vmm_init ∷ efifb_module_init ∷ fbtty_module_init ∷ read_oem_id ∷ acpi_init
                ∷ apic_init ∷ [])
              w1)
            λ w2. and_then (sched_init h1) λ h2. and_then (perform smp_init w2) λ w3. ok (w3, h2)

  pub kernel_main : World → Handlers Handler → Result (Unit {0})
  kernel_main w handlers = and_then (kernel_start w handlers) λ _. deep_main

-- The four bytes of a word, as they lie in memory.
pub bytes_of : ℕ → List ℕ
bytes_of word =
    (word % 2 ^ 8) ∷ (word / 2 ^ 8 % 2 ^ 8) ∷ (word / 2 ^ 16 % 2 ^ 8) ∷ (word / 2 ^ 24 % 2 ^ 8) ∷ []

-- The characters that `get_cpuid_string` writes.
pub get_cpuid_string : (rbx rcx rdx : ℕ) → List ℕ
get_cpuid_string rbx rcx rdx = bytes_of rbx ++ bytes_of rdx ++ bytes_of rcx
