-- ===== src/Apic/Redirect.antt =====
-- `ioapic_redirect_gsi` of Kernel/src/sys/apic.c, bit by bit.
use wheatley.Common.{
  ℕ, ◌+◌, ◌-◌, ◌*◌, ◌%◌, ◌^◌, ◌≤◌, ◌<◌, ◌≡◌, ◌≢◌, refl, ap, ◌∙◌, Bool, true, false, Option, some,
  List, [], ◌∷◌, bit_and, ltb, if◌then◌else◌, update, arith, bit, bit_and-low,
}
use wheatley.Apic.Words.{low_bits, bit-low_word, bit-high_word}
use wheatley.Apic.{
  Ioapic, Registers, ioapic_read, ioapic_write, get_ioapic_by_gsi, low_word, high_word,
  ioapic_redirect_gsi,
}

first_or_rest :
    (test : Bool) (x ioapic : Ioapic) (rest : Option Ioapic) (gsi : ℕ)
    → (test ≡ true → x.gsi_base ≤ gsi)
    → (rest ≡ some ioapic → ioapic.gsi_base ≤ gsi)
    → (if test then some x else rest) ≡ some ioapic
    → ioapic.gsi_base ≤ gsi
first_or_rest true x ioapic rest gsi first later e =
    let same : x ≡ ioapic = cc e in omega (arith, first refl, ap (λ y. y.gsi_base) same)
first_or_rest false x ioapic rest gsi first later e = later e

get_ioapic_by_gsi-base :
    (regs : Registers) (ioapics : List Ioapic) (gsi : ℕ) (ioapic : Ioapic)
    → get_ioapic_by_gsi regs ioapics gsi ≡ some ioapic
    → ioapic.gsi_base ≤ gsi
unfolding get_ioapic_by_gsi
get_ioapic_by_gsi-base regs [] gsi ioapic e = absurd (cc e)
get_ioapic_by_gsi-base regs (x ∷ xs) gsi ioapic e =
    first_or_rest _ x ioapic _ gsi (λ test. ground arith)
      (get_ioapic_by_gsi-base regs xs gsi ioapic) e

-- An entry of an I/O APIC, as its two registers.
abbrev pub low_register : Ioapic → (gsi : ℕ) → ℕ
low_register ioapic gsi = 0x10 + (gsi - ioapic.gsi_base) * 2

-- The interrupt's entry has changed as it should, and nothing else has.
pub record Redirected (regs regs' : Registers) (ioapic : Ioapic) (gsi vec flags : ℕ) : Type 0 where
  pub low :
      (j : ℕ)
      → j < 32
      → bit (regs' ioapic.address (low_register ioapic gsi)) j
        ≡ low_bits (regs ioapic.address (low_register ioapic gsi)) vec flags j
  pub high :
      (j : ℕ)
      → j < 32
      → bit (regs' ioapic.address (low_register ioapic gsi + 1)) j ≡ (
          if ltb j 24
          then bit (regs ioapic.address (low_register ioapic gsi + 1)) j
          else bit (regs ioapic.address 0) (j - 24))
  pub others :
      (r : ℕ)
      → r ≢ low_register ioapic gsi
      → r ≢ low_register ioapic gsi + 1
      → regs' ioapic.address r ≡ regs ioapic.address r
  pub elsewhere : (b r : ℕ) → b ≢ ioapic.address → regs' b r ≡ regs b r

byte_index : (r : ℕ) → r < 256 → bit_and r 0xff ≡ r
byte_index r lt = omega (arith, bit_and-low 8 r)

-- The two writes to the entry with the low register `r` of the I/O APIC at `a`.
abbrev rewritten : Registers → (a r vec flags : ℕ) → Registers
rewritten regs a r vec flags =
    let regs1 = update regs a (update (regs a) (r + 1) (high_word (regs a (r + 1)) (regs a 0))) in
    update regs1 a (update (regs1 a) r (low_word (regs1 a r) vec flags))

module _ (regs : Registers) (a r vec flags : ℕ) where
  rewritten_low : rewritten regs a r vec flags a r ≡ low_word (regs a r) vec flags
  rewritten_low = ground arith

  rewritten_high : rewritten regs a r vec flags a (r + 1) ≡ high_word (regs a (r + 1)) (regs a 0)
  rewritten_high = ground arith

  rewritten_other : (q : ℕ) → q ≢ r → q ≢ r + 1 → rewritten regs a r vec flags a q ≡ regs a q
  rewritten_other q ne ne' = ground arith

  rewritten_elsewhere : (b q : ℕ) → b ≢ a → rewritten regs a r vec flags b q ≡ regs b q
  rewritten_elsewhere b q ne = ground arith

module _ (regs : Registers) (ioapics : List Ioapic) (ioapic : Ioapic) (gsi vec flags : ℕ)
    (search : get_ioapic_by_gsi regs ioapics gsi ≡ some ioapic) (byte : vec < 2 ^ 8)
    (narrow : gsi < 2 ^ 32) (entries : gsi < ioapic.gsi_base + 120) where
  abbrev redirected : Registers
  redirected = rewritten regs ioapic.address (low_register ioapic gsi) vec flags

  ioapic_redirect_gsi-redirected : ioapic_redirect_gsi regs ioapics gsi vec flags ≡ some redirected
  unfolding ioapic_redirect_gsi ioapic_read ioapic_write
  ioapic_redirect_gsi-redirected =
      let base = get_ioapic_by_gsi-base regs ioapics gsi ioapic search in
      let r = low_register ioapic gsi in
      let low_index : (0x10 + (gsi + 2 ^ 32 - ioapic.gsi_base) * 2) % 2 ^ 32 ≡ r = omega arith in
      let high_index : (r + 1) % 2 ^ 32 ≡ r + 1 = omega arith in
      let at_low = byte_index r (omega arith) in
      let at_high = byte_index (r + 1) (omega arith) in
      rw (search, low_index, high_index, at_low, at_high, ioapic_redirect_gsi) refl

  -- An interrupt that an I/O APIC serves, of its first 120, goes to a vector of 8 bits: in the
  -- entry's low word the vector and the bits for fixed delivery, physical destination and no mask are
  -- as they should be, low polarity and level trigger are set if the flags ask for it and stay as
  -- they were if not, and the other bits stay; the high word's top byte is the low byte of the I/O
  -- APIC's register 0; no other register changes.
  pub ioapic_redirect_gsi-Redirected :
      (regs' : Registers) × (ioapic_redirect_gsi regs ioapics gsi vec flags ≡ some regs')
      × Redirected regs regs' ioapic gsi vec flags
  ioapic_redirect_gsi-Redirected =
      let a = ioapic.address in
      let r = low_register ioapic gsi in
      (
        redirected,
        ioapic_redirect_gsi-redirected,
        record {
          low = λ j lt.
              ap (λ x. bit x j) (rewritten_low regs a r vec flags)
              ∙ bit-low_word (regs a r) vec flags j byte lt;
          high = λ j lt.
              ap (λ x. bit x j) (rewritten_high regs a r vec flags)
              ∙ bit-high_word (regs a (r + 1)) (regs a 0) j lt;
          others = rewritten_other regs a r vec flags;
          elsewhere = rewritten_elsewhere regs a r vec flags;
        },
      )
