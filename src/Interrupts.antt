-- ===== src/Interrupts.antt =====
-- Kernel/src/sys/idt.c, isr.c and gdt.c: the descriptor tables, and the dispatch of interrupts.
--
-- The entry points `isr0` to `isr255` of isr.asm are a parameter, the address of each. A handler is
-- a value of any type; `none` is NULL.
mod Gates
pub mod Delivery
mod Dispatch
mod Tests
use wheatley.Common.{
  ℕ, zero, suc, ◌+◌, ◌-◌, ◌*◌, ◌/◌, ◌%◌, ◌^◌, ◌≤◌, ◌<◌, min, max, bit_and, bit_or, bit_xor, ◌≡◌,
  refl, sym, ap, ap₂, ◌∙◌, fun_ext, ◌≢◌, ◌↔◌, ◌⊎◌, inl, inr, Bool, true, false, not, ◌&&◌, ◌||◌,
  Option, none, some, List, [], ◌∷◌, ◌++◌, map, arith, ltb, leb, ◌==◌, if◌then◌else◌, ltb→lt,
  lt→ltb, ==_iff, ==_refl, Bool-cases, Option-cases, length, get_elem?, get_or, length-append,
  update, fill, shr, bit, complement, bit-or, bit-and, bit-lt, bit-two-pow, bit-complement,
  bit_or-lt, bit_and-le, bit_and-low, bit_and-up, bit_and-one, two-pow-lt, bit_and_digit, ℤ, pos,
  negsuc, bit_or_digit, bit-zero, bit-suc,
}
use Prim.Native.String.{String}

-- `idt_descriptor_t`
pub record Descriptor : Type 0 where
  pub offset_1 : ℕ  -- uint16_t
  pub selector : ℕ  -- uint16_t
  pub ist : ℕ  -- uint8_t
  pub type_attributes : ℕ  -- uint8_t
  pub offset_2 : ℕ  -- uint16_t
  pub offset_3 : ℕ  -- uint32_t
  pub zero_bits : ℕ  -- uint32_t, `zero`

-- The variable `selector` of idt.c.
abbrev pub selector : ℕ
selector = 0x8

gate_type : ℕ → ℕ
gate_type vector =
    if ltb vector 0x10
    then if (ltb vector 0xb && ltb 0x6 vector) || vector == 0x2 then 0x8f else 0xef
    else 0x8e

pub idt_set_handler : (ℕ → Descriptor) → (vector ist isr : ℕ) → ℕ → Descriptor
unfolding gate_type
idt_set_handler table vector ist isr = update table vector (record (table vector) {
  offset_1 = bit_and isr 0xffff;
  offset_2 = bit_and (isr / 2 ^ 16) 0xffff;
  offset_3 = isr / 2 ^ 32 % 2 ^ 32;
  selector = selector;
  ist = ist;
  type_attributes = gate_type vector;
})

-- The second argument of each call in `isr_write`.
pub isr_ist : ℕ → ℕ
isr_ist n = if n == 1 || n == 8 || n == 18 then 1 else 0

-- The calls of `isr_write` for the vectors from `n` on, in order.
isr_write_from : (ℕ → ℕ) → (rounds n : ℕ) → (ℕ → Descriptor) → ℕ → Descriptor
isr_write_from isr zero n table = table
isr_write_from isr (suc rounds) n table =
    isr_write_from isr rounds (n + 1) (idt_set_handler table n (isr_ist n) (isr n))

-- `idt_ptr_t` and `gdt_ptr_t`: the limit, a uint16_t, and the address of a table.
pub record TablePtr : Type 0 where
  pub limit : ℕ
  pub addr : ℕ

-- What the processor is told, and the table.
pub record Idt : Type 0 where
  pub table : ℕ → Descriptor
  pub ptr : TablePtr

-- `sizeof(idt_table) - 1`, for 256 entries of 16 bytes at the address `idt_table`.
unfoldable pub idt_reload : (idt_table : ℕ) → TablePtr
idt_reload idt_table = record { limit = 256 * 16 - 1; addr = idt_table }

pub isr_write : (ℕ → ℕ) → (idt_table : ℕ) → (ℕ → Descriptor) → Idt
isr_write isr idt_table table = record {
  table = isr_write_from isr 256 0 table;
  ptr = idt_reload idt_table;
}

-- `isr_exceptions`
abbrev pub isr_exceptions : List String
isr_exceptions =
    "Divide Error (#DE)" ∷ "Debug Exception (#DB)" ∷ "NMI Interrupt" ∷ "Breakpoint (#BP)"
    ∷ "Overflow (#OF)" ∷ "BOUND Range Exceeded (#BR)" ∷ "Invalid Opcode (#UD)"
    ∷ "No Math Coprocessor (#NM)" ∷ "Double Fault (#DF)" ∷ "Reserved" ∷ "Invalid TSS (#TS)"
    ∷ "Segment Not Present (#NP)" ∷ "Stack-Segment Fault (#SS)" ∷ "General Protection (#GP)"
    ∷ "Page Fault (#PF)" ∷ "Reserved" ∷ "x87 Floating-Point Error (#MF)" ∷ "Alignment Check (#AC)"
    ∷ "Machine Check (#MC)" ∷ "SIMD Floating-Point Exception (#XM)"
    ∷ "Virtualization Exception (#VE)" ∷ "Reserved" ∷ "Reserved" ∷ "Reserved" ∷ "Reserved"
    ∷ "Reserved" ∷ "Reserved" ∷ "Reserved" ∷ "Reserved" ∷ "Reserved" ∷ "Reserved" ∷ "Reserved" ∷ []

module _ (Handler : Type 0) where
  -- `event_handlers`, an array of 256.
  abbrev pub Handlers : Type 0
  Handlers = ℕ → Option Handler

  -- `none` is a write before the array: only the upper bound of `int n` is tested.
  unfoldable pub isr_register_handler : Handlers → ℤ → Option Handler → Option Handlers
  isr_register_handler handlers (pos n) h =
      if leb 256 n then some handlers else some (update handlers n h)
  isr_register_handler handlers (negsuc n) h = none

  -- What `isr_handle` does with the interrupt.
  pub data Handling : Type 0 where
    call : Handler → Handling
    panic_unhandled : (name : String) → Handling
    print_unhandled : (number : ℕ) → Handling

  unfoldable pub isr_handle : Handlers → ℕ → Handling
  isr_handle handlers number =
      let rest =
        if ltb number 32
        then panic_unhandled (get_or isr_exceptions number "")
        else print_unhandled number in
      if ltb number 256 then elim (handlers number) [ none ↦ rest | some h ↦ call h ] else rest

-- `gdt_entry_t`
pub record GdtEntry : Type 0 where
  pub limit : ℕ  -- uint16_t
  pub base_low : ℕ  -- uint16_t
  pub base_mid : ℕ  -- uint8_t
  pub access : ℕ  -- uint8_t
  pub granularity : ℕ  -- uint8_t
  pub base_hi : ℕ  -- uint8_t

-- The table of five entries, and what the processor is told by `gdt_reload`.
pub record Gdt : Type 0 where
  pub table : ℕ → GdtEntry
  pub ptr : TablePtr

pub gdt_write : (gdt_table : ℕ) → (ℕ → GdtEntry) → Gdt
gdt_write gdt_table table =
    let t1 = update table 1 (record (table 1) { access = 0b10011010; granularity = 0b00100000 }) in
    let t2 = update t1 2 (record (t1 2) { access = 0b10010010 }) in
    let t3 = update t2 3 (record (t2 3) { access = 0b11111010; granularity = 0b00100000 }) in
    let t4 = update t3 4 (record (t3 4) { access = 0b11110010 }) in
    record { table = t4; ptr = record { limit = 5 * 8 - 1; addr = gdt_table } }
