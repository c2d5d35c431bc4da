-- ===== src/Acpi/Startup/Ready.antt =====
-- What `acpi_init` of Kernel/src/fw/acpi.c has made sure of when it returns.
use wheatley.Common.{
  ℕ, ◌<◌, ◌≡◌, refl, ◌≢◌, Bool, true, false, not, Option, none, some, List, [], ◌∷◌, ◌++◌, ap,
  arith, leb, ◌==◌, if◌then◌else◌, bit,
}
use mathlib.Core.Path.{subst}
use wheatley.Common.{ok, and_then-ok, passed_not}
use wheatley.Acpi.{Tables, acpi_checksum, acpi_find_table}
use wheatley.Timer.{multiplier}
use wheatley.Common.{ok_inj}
use wheatley.Timer.Registers.{gen_cap_of, configure-bits}
use wheatley.Acpi.Startup.{Firmware, Hpet, pci_init, hpet_init, Started, acpi_init, found}

found-ok : (o : Option (ℕ × List ℕ)) (r : ℕ × List ℕ) → found o ≡ ok r → o ≡ some r
found-ok none r e = cc e
found-ok (some q) r e = ap some (ok_inj q r e)

nonzero : (a : ℕ) → (a == 0) ≡ false → a ≢ 0
nonzero a e z = ground arith

holds_then : (b : Bool) → not b ≡ false → b ≡ true
holds_then true e = refl
holds_then false e = cc e

module _ (T : Tables) (F : Firmware) where
  -- The first table of that signature is at `ptr`, and the search for it maps these pages.
  abbrev pub Has : (sig ptr : ℕ) → List ℕ → Type 0
  Has sig ptr mapped = (ptr ≢ 0) × (acpi_find_table T sig 0 ≡ some (ptr, mapped))

  pci_init-ok : (r : ℕ × List ℕ) → pci_init T F ≡ ok r → Has F.mcfg r.0 r.1 × (T.length r.0 ≢ 0)
  unfolding pci_init
  pci_init-ok r e =
      let ((m, mapped), at, e1) = and_then-ok (found (acpi_find_table T F.mcfg 0)) _ r e in
      let there = found-ok (acpi_find_table T F.mcfg 0) (m, mapped) at in
      let (some_table, e2) = passed_not (m == 0) _ _ r e1 (λ q. cc q) in
      let (some_length, e3) = passed_not (T.length m == 0) _ _ r e2 (λ q. cc q) in
      subst (λ x. Has F.mcfg x.0 x.1 × (T.length x.0 ≢ 0)) (ok_inj _ r e3)
        ((nonzero m some_table, there), nonzero (T.length m) some_length)

  -- The counter is switched on, and its ticks have a length.
  pub record Counts (hpet base mult conf : ℕ) : Type 0 where
    pub at : base ≡ F.hpet_base hpet
    pub revised : (gen_cap_of (F.gen_cap base)).rev_id ≢ 0
    pub ticks : (gen_cap_of (F.gen_cap base)).counter_clk_period ≢ 0
    pub taken : mult ≡ multiplier (gen_cap_of (F.gen_cap base)).counter_clk_period
    pub switched :
        (k : ℕ)
        → k < 64
        → bit conf k ≡ (if k == 0 then 1 else if k == 1 then 0 else bit (F.gen_conf base) k)

  -- The table of the HPET.
  pub record HasHpet (h : Hpet) : Type 0 where
    pub table : ℕ
    pub pages : List ℕ
    pub there : Has F.hpet table pages
    pub counts : Counts table h.hpet_data h.multiplier h.gen_conf
    pub mapped : h.mapped ≡ pages ++ (h.hpet_data ∷ [])

  hpet_init-ok : (h : Hpet) → hpet_init T F ≡ ok h → HasHpet h
  unfolding hpet_init
  hpet_init-ok r e =
      let ((h, mapped), at, e1) = and_then-ok (found (acpi_find_table T F.hpet 0)) _ r e in
      let there = found-ok (acpi_find_table T F.hpet 0) (h, mapped) at in
      let (some_table, e2) = passed_not (h == 0) _ _ r e1 (λ q. cc q) in
      let b = F.hpet_base h in
      let cap = gen_cap_of (F.gen_cap b) in
      let (revised, e3) = passed_not (cap.rev_id == 0) _ _ r e2 (λ q. cc q) in
      let (ticks, e4) = passed_not (cap.counter_clk_period == 0) _ _ r e3 (λ q. cc q) in
      subst HasHpet (ok_inj _ r e4) (record {
        table = h;
        pages = mapped;
        there = (nonzero h some_table, there);
        counts = record {
          at = refl;
          revised = nonzero cap.rev_id revised;
          ticks = nonzero cap.counter_clk_period ticks;
          taken = refl;
          switched = λ k lt. configure-bits (F.gen_conf b) k lt;
        };
        mapped = refl;
      })

  pub record Ready (s : Started) : Type 0 where
    pub revised : 0 < F.revision
    pub valid : acpi_checksum T T.xsdt ≡ true
    pub mcfg_pages : List ℕ
    pub mcfg : Has F.mcfg s.g_mcfg mcfg_pages
    pub mcfg_length : T.length s.g_mcfg ≢ 0
    pub hpet_pages : List ℕ
    pub hpet : HasHpet (record {
      hpet_data = s.hpet_data;
      multiplier = s.multiplier;
      gen_conf = s.gen_conf;
      mapped = hpet_pages;
    })
    pub handed_on : s.lai_revision ≡ F.revision
    pub mapped : s.mapped ≡ T.xsdt ∷ (mcfg_pages ++ hpet_pages)

  -- `acpi_init` comes to the call of the interpreter only with a firmware of revision 1 or later, an
  -- XSDT whose checksum is right, a first MCFG that is not of length zero, and a first HPET with a
  -- counter whose revision and tick are not zero; the multiplier is taken from that tick, the counter
  -- is switched on with the other bits of its configuration kept but for the routing of the old timers'
  -- interrupts, which is off, and the interpreter is told the revision. It has asked for the mapping of
  -- the XSDT's page, of those that the two searches look at and of the counter's, in this order.
  pub acpi_init-Ready : (s : Started) → acpi_init T F ≡ ok s → Ready s
  unfolding acpi_init
  acpi_init-Ready s e =
      let (new, e1) = passed_not (leb F.revision 0) _ _ s e (λ q. cc q) in
      let (bad, e2) = passed_not (not (acpi_checksum T T.xsdt)) _ _ s e1 (λ q. cc q) in
      let ((g_mcfg, mapped), m, e3) = and_then-ok (pci_init T F) _ s e2 in
      let (h, at, e4) = and_then-ok (hpet_init T F) _ s e3 in
      let (has_mcfg, some_length) = pci_init-ok (g_mcfg, mapped) m in
      subst Ready (ok_inj _ s e4) (record {
        revised = ground arith;
        valid = holds_then (acpi_checksum T T.xsdt) bad;
        mcfg_pages = mapped;
        mcfg = has_mcfg;
        mcfg_length = some_length;
        hpet_pages = h.mapped;
        hpet = hpet_init-ok h at;
        handed_on = refl;
        mapped = refl;
      })
