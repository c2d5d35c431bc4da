-- ===== src/Apic/Local.antt =====
-- The writes to the local APIC in Kernel/src/sys/apic.c, through Kernel/inc/sys/msr.h.
use wheatley.Common.{ℕ, ◌+◌, ◌*◌, ◌%◌, ◌^◌, ◌<◌, ◌≡◌, ◌↔◌, bit_and, bit_and-low, arith}
use wheatley.Apic.{Write, msr, mmio, wrmsr}

-- The 64 bits that the register takes.
abbrev pub written : Write → ℕ
written (msr number low high) = low + high * 2 ^ 32
written (mmio reg value) = value

-- `wrmsr` hands a 64-bit value over whole exactly when its bits 24 to 31 are clear.
pub wrmsr-whole :
    (number value : ℕ) → (written (wrmsr number value) ≡ value) ↔ (value % 2 ^ 32 < 2 ^ 24)
unfolding wrmsr
wrmsr-whole number value =
    let e : bit_and value 0xffffff ≡ value % 2 ^ 24 = bit_and-low 24 value in
    (λ same. omega (arith, same, e), λ small. omega (arith, small, e))
