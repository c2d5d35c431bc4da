-- ===== src/Panic/Registers.antt =====
-- `registers_t` of Kernel/inc/sys/isr.h, and how `panic` of Kernel/src/panic.c prints it.
use wheatley.Common.{ℕ, List, [], ◌∷◌}
use Prim.Native.String.{String}

pub record Registers : Type 0 where
  pub r15 : ℕ
  pub r14 : ℕ
  pub r13 : ℕ
  pub r12 : ℕ
  pub r11 : ℕ
  pub r10 : ℕ
  pub r9 : ℕ
  pub r8 : ℕ
  pub rsi : ℕ
  pub rdi : ℕ
  pub rbp : ℕ
  pub rdx : ℕ
  pub rcx : ℕ
  pub rbx : ℕ
  pub rax : ℕ
  pub isr_number : ℕ
  pub error_code : ℕ
  pub rip : ℕ
  pub cs : ℕ
  pub rflags : ℕ
  pub rsp : ℕ
  pub ss : ℕ

-- The values that are printed behind their names, in this order.
unfoldable pub dump : Registers → List (String × ℕ)
dump r =
    ("Error code", r.error_code)
    ∷ ("RIP", r.rip)
    ∷ ("RFLAGS", r.rflags)
    ∷ ("RAX", r.rax)
    ∷ ("RBX", r.rbx)
    ∷ ("RCX", r.rcx)
    ∷ ("RDX", r.rdx)
    ∷ ("RSP", r.rsp)
    ∷ ("RBP", r.rbp)
    ∷ ("RSI", r.rsi)
    ∷ ("RDI", r.rdi)
    ∷ ("R8", r.r8)
    ∷ ("R9", r.r9)
    ∷ ("R10", r.r10)
    ∷ ("R11", r.r11)
    ∷ ("R12", r.r12)
    ∷ ("R13", r.r13)
    ∷ ("R14", r.r14)
    ∷ ("R15", r.r15)
    ∷ ("CS", r.cs)
    ∷ ("SS", r.ss)
    ∷ []
