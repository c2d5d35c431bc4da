-- ===== src/Apic/Startup/Programmed.antt =====
-- What `lapic_init` of Kernel/src/sys/apic.c leaves in the controllers.
use wheatley.Common.{
  ℕ, ◌/◌, ◌%◌, ◌^◌, ◌<◌, ◌≡◌, refl, ◌∙◌, inl, inr, ◌⊎◌, ◌≢◌, Bool, true, false, not, ◌&&◌, ◌||◌,
  Option, none, some, List, [], ◌∷◌, ◌++◌, map, arith, leb, ◌==◌, if◌then◌else◌, Bool-cases,
  get_elem?,
}
use wheatley.Apic.{Write, wrmsr, lapic_write, lapic_set_nmi, nmi_word}
use wheatley.Timer.{apic_timer_init}
use wheatley.Apic.Startup.{
  Nmi, Out, port, apic, has_x2apic, enabled_msr, has_pic, disable_pic, init_registers, set_nmis,
  timer_writes, lapic_init, lapic_outs,
}

-- The value that a port was given last.
abbrev pub last_port : ℕ → List Out → Option ℕ
last_port p [] = none
last_port p (port number value ∷ outs) = elim (last_port p outs) [
  | some later ↦ some later
  | none ↦ if p == number then some value else none
]
last_port p (apic w ∷ outs) = last_port p outs

last_port-apic : (p : ℕ) (ws : List Write) → last_port p (map apic ws) ≡ none
last_port-apic p [] = refl
last_port-apic p (w ∷ ws) = last_port-apic p ws

last_port-append :
    (p : ℕ) (outs rest : List Out)
    → last_port p rest ≡ none
    → last_port p (outs ++ rest) ≡ last_port p outs
last_port-append p [] rest e = e
last_port-append p (port number value ∷ outs) rest e =
    rw (last_port-append p outs rest e, last_port)
last_port-append p (apic w ∷ outs) rest e = last_port-append p outs rest e

-- An interrupt line that the local APIC has.
abbrev pub LintsExist : List Nmi → Type 0
LintsExist [] = Unit
LintsExist (nmi ∷ nmis) = (nmi.lint < 2) × LintsExist nmis

lapic_set_nmi-returns :
    (x2apic : Bool) (current processor flags lint : ℕ)
    → lint < 2
    → (ws : List Write) × (lapic_set_nmi x2apic 2 current processor flags lint ≡ some ws)
unfolding lapic_set_nmi
lapic_set_nmi-returns x2apic current processor flags lint lt =
    let low : leb 2 lint ≡ false = ground arith in
    elim (Bool-cases (not (processor == 0xff) && not (current == processor))) [
      | inl other ↦ ([], rw (low, other, lapic_set_nmi))
      | inr here ↦ (
        lapic_write x2apic (if lint == 0 then 0x350 else 0x360) (nmi_word 2 flags) ∷ [],
        rw (low, here, lapic_set_nmi),
      )
    ]

set_nmis-returns :
    (x2apic : Bool) (current : ℕ) (nmis : List Nmi)
    → LintsExist nmis
    → (ws : List Write) × (set_nmis x2apic current nmis ≡ some ws)
unfolding set_nmis
set_nmis-returns x2apic current [] ok = ([], refl)
set_nmis-returns x2apic current (nmi ∷ nmis) (lt, ok) =
    let (ws, e) = lapic_set_nmi-returns x2apic current nmi.processor nmi.flags nmi.lint lt in
    let (rest, f) = set_nmis-returns x2apic current nmis ok in (ws ++ rest, rw (e, f))

-- What `lapic_init` leaves behind.
pub record Programmed (x2apic : Bool) (rcx apic_msr madt_flags : ℕ) (x2apic' : Bool)
    (outs : List Out) : Type 0 where
  pub mode : x2apic' ≡ (x2apic || has_x2apic rcx)
  pub first : get_elem? outs 0 ≡ some (apic (wrmsr 0x1b (enabled_msr apic_msr rcx)))
  -- Both of the old controllers have every line masked, if they are there; else they get nothing.
  pub master : last_port 0x21 outs ≡ (if has_pic madt_flags then some 0xff else none)
  pub slave : last_port 0xa1 outs ≡ (if has_pic madt_flags then some 0xff else none)

pic_last :
    (p : ℕ) (there : Bool)
    → last_port p disable_pic ≡ some 0xff
    → last_port p (if there then disable_pic else []) ≡ (if there then some 0xff else none)
pic_last p true e = e
pic_last p false e = refl

outs_last :
    (p : ℕ) (there : Bool) (ws : List Write)
    → last_port p disable_pic ≡ some 0xff
    → last_port p ((if there then disable_pic else []) ++ map apic ws)
      ≡ (if there then some 0xff else none)
outs_last p there ws e =
    last_port-append p (if there then disable_pic else []) (map apic ws) (last_port-apic p ws)
    ∙ pic_last p there e

-- When every NMI of the table names one of the local APIC's two lines, and the x2APIC is used or the local
-- APIC's address is not NULL, `lapic_init` returns: it uses
-- the x2APIC if it did before or the processor has one; the first thing written is the MSR with the
-- enabling bits; and the last value for both of the old controllers' mask ports is 0xff if the table
-- says that the controllers are there, and they are not written to otherwise.
pub lapic_init-Programmed :
    (x2apic : Bool) (lapic_addr rbx rcx apic_msr madt_flags : ℕ) (registers : ℕ → ℕ)
    (nmis : List Nmi) (timer_count : ℕ)
    → LintsExist nmis
    → (x2apic || has_x2apic rcx) ≡ true ⊎ lapic_addr ≢ 0
    → (x2apic' : Bool) × (outs : List Out) × (lapic_init x2apic lapic_addr rbx rcx apic_msr
          madt_flags registers nmis timer_count
        ≡ some (x2apic', outs))
      × Programmed x2apic rcx apic_msr madt_flags x2apic' outs
unfolding lapic_init lapic_outs disable_pic
lapic_init-Programmed x2apic lapic_addr rbx rcx apic_msr madt_flags registers nmis timer_count ok
      known =
    let (ws, e) = set_nmis-returns (x2apic || has_x2apic rcx) (rbx / 2 ^ 24 % 2 ^ 8) nmis ok in
    let x2apic' = x2apic || has_x2apic rcx in
    let asserted : (not x2apic' && lapic_addr == 0) ≡ false = elim known [
      | inl on ↦ rw on refl
      | inr there ↦
          let ne : (lapic_addr == 0) ≡ false = ground arith in
          elim (Bool-cases x2apic') [ inl e' ↦ rw e' refl | inr e' ↦ rw (e', ne) refl ]
    ] in
    let writes =
      init_registers x2apic' registers
      ++ ws
      ++ timer_writes x2apic' (apic_timer_init timer_count) in
    (
      x2apic',
      lapic_outs x2apic' rcx apic_msr madt_flags registers ws timer_count,
      rw (asserted, e, lapic_init),
      record {
        mode = refl;
        first = refl;
        master = outs_last 0x21 (has_pic madt_flags) writes refl;
        slave = outs_last 0xa1 (has_pic madt_flags) writes refl;
      },
    )
