-- ===== src/Timer/Registers.antt =====
-- The registers of Kernel/inc/drivers/timer/hpet.h as words of 64 bits, and what `hpet_init` of
-- Kernel/src/drivers/timer/hpet.c does to the configuration.
use wheatley.Common.{
  ℕ, ◌/◌, ◌%◌, ◌^◌, ◌<◌, bit_and, bit_or, ◌≡◌, ◌∙◌, arith, ◌==◌, if◌then◌else◌, bit, complement,
  bit-or, bit-and, bit-lt, bit-two-pow, bit-complement,
}

-- The fields of `hpet_gen_cap_reg_t`, the lowest first.
pub record HpetGenCapReg : Type 0 where
  pub rev_id : ℕ  -- 8 bits
  pub num_tim_cap : ℕ  -- 5 bits
  pub count_size_cap : ℕ
  pub reserved : ℕ
  pub legacy_replace_cap : ℕ
  pub vendor_id : ℕ  -- 16 bits
  pub counter_clk_period : ℕ  -- 32 bits

unfoldable pub gen_cap_of : (value : ℕ) → HpetGenCapReg
gen_cap_of value = record {
  rev_id = value % 2 ^ 8;
  num_tim_cap = value / 2 ^ 8 % 2 ^ 5;
  count_size_cap = value / 2 ^ 13 % 2;
  reserved = value / 2 ^ 14 % 2;
  legacy_replace_cap = value / 2 ^ 15 % 2;
  vendor_id = value / 2 ^ 16 % 2 ^ 16;
  counter_clk_period = value / 2 ^ 32 % 2 ^ 32;
}

-- `genConf->enable = 1` and then `genConf->legacyReplace = 0`: the lowest bit and the one above it.
unfoldable pub configure : (value : ℕ) → ℕ
configure value = bit_and (bit_or value 1) (complement 64 2)

-- The counter is switched on, interrupts are not routed as the old timers' are, and the other bits
-- stay.
pub configure-bits :
    (value k : ℕ)
    → k < 64
    → bit (configure value) k ≡ (if k == 0 then 1 else if k == 1 then 0 else bit value k)
unfolding configure
configure-bits value k lt =
    let one = bit-two-pow 0 k in
    let two = bit-two-pow 1 k in
    bit-and k (bit_or value 1) (complement 64 2)
    ∙ ground
        (arith, bit-or k value 1, one, two, bit-complement 64 k 2 lt (omega arith), bit-lt value k)
