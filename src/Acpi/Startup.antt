-- ===== src/Acpi/Startup.antt =====
-- `acpi_init` of Kernel/src/fw/acpi.c, with `pci_init` of Kernel/src/sys/pci.c and `hpet_init` of
-- Kernel/src/drivers/timer/hpet.c, which it calls: which of the firmware's tables the kernel needs,
-- and how it ends without them.
pub mod Ready
pub mod Mapping
use wheatley.Common.{
  ℕ, zero, suc, ◌+◌, ◌-◌, ◌*◌, ◌/◌, ◌%◌, ◌^◌, ◌≤◌, ◌<◌, min, max, bit_and, bit_or, bit_xor, ◌≡◌,
  refl, sym, ap, ap₂, ◌∙◌, fun_ext, ◌≢◌, ◌↔◌, ◌⊎◌, inl, inr, Bool, true, false, not, ◌&&◌, ◌||◌,
  Option, none, some, List, [], ◌∷◌, ◌++◌, map, arith, ltb, leb, ◌==◌, if◌then◌else◌, ltb→lt,
  lt→ltb, ==_iff, ==_refl, Bool-cases, Option-cases, length, get_elem?, get_or, length-append,
  update, fill, shr, bit, complement, bit-or, bit-and, bit-lt, bit-two-pow, bit-complement,
  bit_or-lt, bit_and-le, bit_and-low, bit_and-up, bit_and-one, two-pow-lt, bit_and_digit, ℤ, pos,
  negsuc, bit_or_digit, bit-zero, bit-suc,
}
use wheatley.Common.{Result, ok, panic, failed_assertion, fault, and_then, and_then-ok, passed_not}
use wheatley.Common.{◌>>=◌}
use wheatley.Acpi.{Tables, acpi_checksum, acpi_find_table}
use wheatley.Timer.{multiplier}
use wheatley.Timer.Registers.{HpetGenCapReg, gen_cap_of, configure}

-- What is read besides the tables: the hand-over, and the fields of HPET's table and registers.
pub record Firmware : Type 0 where
  pub revision : ℕ  -- `g_handoff->rsdp.revision`
  pub mcfg : ℕ  -- "MCFG"
  pub hpet : ℕ  -- "HPET"
  pub hpet_base : (hpet : ℕ) → ℕ  -- `gas.base`
  pub gen_cap : (base : ℕ) → ℕ  -- at the base
  pub gen_conf : (base : ℕ) → ℕ  -- `HPET_CONFIGURATION`

-- The pointer that a search gives, and the pages that it has mapped.
abbrev pub found : Option (ℕ × List ℕ) → Result (ℕ × List ℕ)
found none = fault
found (some r) = ok r

-- `hpetData`, `multiplier` and what is written to the configuration, with the pages mapped.
pub record Hpet : Type 0 where
  pub hpet_data : ℕ
  pub multiplier : ℕ
  pub gen_conf : ℕ
  pub mapped : List ℕ

-- What is known when the interpreter of ACPI's code is called, with `revision`; and the addresses given to
-- `vmm_map_page`, each with itself, in order.
pub record Started : Type 0 where
  pub g_mcfg : ℕ
  pub hpet_data : ℕ
  pub multiplier : ℕ
  pub gen_conf : ℕ
  pub lai_revision : ℕ
  pub mapped : List ℕ

module _ (T : Tables) (F : Firmware) where
  -- `g_mcfg`
  unfoldable pub pci_init : Result (ℕ × List ℕ)
  pci_init = and_then (found (acpi_find_table T F.mcfg 0)) λ (mcfg, mapped).
      if mcfg == 0
      then panic "pci: MCFG not supported"
      else if T.length mcfg == 0
      then panic "pci: MCFG not supported"
      else ok (mcfg, mapped)

  unfoldable pub hpet_init : Result Hpet
  hpet_init = and_then (found (acpi_find_table T F.hpet 0)) λ (hpet, mapped).
      if hpet == 0
      then panic "Wheatley requires an HPET"
      else let base = F.hpet_base hpet in
        let gen_cap = gen_cap_of (F.gen_cap base) in
        if gen_cap.rev_id == 0
        then failed_assertion
        else if gen_cap.counter_clk_period == 0
        then fault
        else ok (record {
          hpet_data = base;
          multiplier = multiplier gen_cap.counter_clk_period;
          gen_conf = configure (F.gen_conf base);
          mapped = mapped ++ (base ∷ []);
        })

  unfoldable pub acpi_init : Result Started
  acpi_init =
      if leb F.revision 0
      then panic "support for RSDT isn't here yet"
      else if not (acpi_checksum T T.xsdt)
      then failed_assertion
      else and_then pci_init λ (g_mcfg, mapped). and_then hpet_init λ h. ok (record {
        g_mcfg = g_mcfg;
        hpet_data = h.hpet_data;
        multiplier = h.multiplier;
        gen_conf = h.gen_conf;
        lai_revision = F.revision;
        mapped = T.xsdt ∷ (mapped ++ h.mapped);
      })
