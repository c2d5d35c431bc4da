-- ===== src/Madt/Sorted.antt =====
-- What `madt_init` of Kernel/src/fw/madt.c leaves: each array holds the records of its type, in the
-- table's order.
use wheatley.Common.{
  ℕ, zero, suc, ◌+◌, ◌^◌, ◌%◌, ◌≤◌, ◌<◌, ◌≡◌, ◌⊎◌, refl, ap, ◌∙◌, sym, false, some, List, [], ◌∷◌,
  ◌++◌, ◌==◌, if◌then◌else◌, Bool-cases, inl, inr, arith, length, get_elem?, length-append,
}
use mathlib.Core.List.{append-nil, append_assoc}
use wheatley.Madt.{
  Memory, Madt, Array, push, add_record, length_of, type_of, lapic, ioapic,
  ioapic_interrupt_source_override, lapic_nmi, lapic_address_override, override_address, madt_init,
  done,
}
use wheatley.Madt.Walk.{
  Records, last, next, IsRecord, at_start, behind, Fits, add_records, walk-Records,
}

-- The records of one type, in order.
abbrev pub of_type : Memory → (type : ℕ) → List ℕ → List ℕ
of_type mem type [] = []
of_type mem type (r ∷ rs) =
    let rest = of_type mem type rs in if type_of mem r == type then r ∷ rest else rest

-- The address in the last record that overrides it, or `address`.
abbrev pub final_address : Memory → (address : ℕ) → List ℕ → ℕ
final_address mem address [] = address
final_address mem address (r ∷ rs) =
    final_address mem
      (if type_of mem r == lapic_address_override then override_address mem r else address) rs

-- The array holds the list.
pub record Holds (a : Array) (rs : List ℕ) : Type 0 where
  pub count : a.count ≡ length rs
  pub items : (i r : ℕ) → get_elem? rs i ≡ some r → a.items i ≡ r

get_elem?-snoc :
    (rs : List ℕ) (x i r : ℕ)
    → get_elem? (rs ++ (x ∷ [])) i ≡ some r
    → ((length rs ≡ i) × (x ≡ r)) ⊎ (get_elem? rs i ≡ some r)
get_elem?-snoc [] x zero r e = inl (refl, cc e)
get_elem?-snoc [] x (suc i) r e = inr e
get_elem?-snoc (y ∷ rs) x zero r e = inr e
get_elem?-snoc (y ∷ rs) x (suc i) r e = elim (get_elem?-snoc rs x i r e) [
  | inl (at, same) ↦ inl (omega arith, same)
  | inr before ↦ inr before
]

get_elem?-lt : (rs : List ℕ) (i r : ℕ) → get_elem? rs i ≡ some r → i < length rs
get_elem?-lt [] i r e = absurd (cc e)
get_elem?-lt (y ∷ rs) zero r e = omega arith
get_elem?-lt (y ∷ rs) (suc i) r e = omega (arith, get_elem?-lt rs i r e)

push-Holds :
    (a : Array) (rs : List ℕ) (r : ℕ)
    → Holds a rs
    → length (rs ++ (r ∷ [])) < 2 ^ 8
    → Holds (push a r) (rs ++ (r ∷ []))
unfolding push
push-Holds a rs r h lt =
    let size : length (rs ++ (r ∷ [])) ≡ length rs + 1 = length-append rs (r ∷ []) in
    record {
      count = omega (arith, h.count, size);
      items = λ i x e. elim (get_elem?-snoc rs r i x e) [
        | inl (at, same) ↦ ground (arith, h.count)
        | inr before ↦ ground (arith, h.count, get_elem?-lt rs i x before, h.items i x before)
      ];
    }

module _ (mem : Memory) where
  of_type-append :
      (type : ℕ) (xs ys : List ℕ)
      → of_type mem type (xs ++ ys) ≡ of_type mem type xs ++ of_type mem type ys
  of_type-append type [] ys = refl
  of_type-append type (x ∷ xs) ys = elim (Bool-cases (type_of mem x == type)) [
    | inl same ↦ rw same (ap (λ l. x ∷ l) (of_type-append type xs ys))
    | inr other ↦ rw other (of_type-append type xs ys)
  ]

  final_address-append :
      (xs ys : List ℕ) (address : ℕ)
      → final_address mem address (xs ++ ys) ≡ final_address mem (final_address mem address xs) ys
  final_address-append [] ys address = refl
  final_address-append (x ∷ xs) ys address = final_address-append xs ys _

  array_step :
      (type : ℕ) (a : Array) (pre : List ℕ) (r : ℕ)
      → Holds a (of_type mem type pre)
      → length (of_type mem type (pre ++ (r ∷ []))) < 2 ^ 8
      → Holds (if type_of mem r == type then push a r else a) (of_type mem type (pre ++ (r ∷ [])))
  array_step type a pre r h lt = elim (Bool-cases (type_of mem r == type)) [
    | inl same ↦
        let e : of_type mem type (pre ++ (r ∷ [])) ≡ of_type mem type pre ++ (r ∷ []) =
          of_type-append type pre (r ∷ []) ∙ rw same refl in
        rw (same, e) (push-Holds a (of_type mem type pre) r h (rw (sym e) lt))
    | inr other ↦
        let e : of_type mem type (pre ++ (r ∷ [])) ≡ of_type mem type pre =
          of_type-append type pre (r ∷ []) ∙ rw other (append-nil (of_type mem type pre)) in
        rw (other, e) h
  ]

  -- Where the records' addresses went.
  pub record Sorted (address : ℕ) (rs : List ℕ) (m : Madt) : Type 0 where
    pub lapic_addr : m.lapic_addr ≡ final_address mem address rs
    pub lapics : Holds m.lapics (of_type mem lapic rs)
    pub ioapics : Holds m.ioapics (of_type mem ioapic rs)
    pub isos : Holds m.isos (of_type mem ioapic_interrupt_source_override rs)
    pub nmis : Holds m.nmis (of_type mem lapic_nmi rs)

  -- Fewer than 256 records of any one type.
  abbrev pub Few : List ℕ → Type 0
  Few rs = (type : ℕ) → length (of_type mem type rs) < 2 ^ 8

  fewer : (pre rs : List ℕ) → Few (pre ++ rs) → Few pre
  fewer pre rs few type = omega (
    arith,
    few type,
    ap length (of_type-append type pre rs),
    length-append (of_type mem type pre) (of_type mem type rs),
  )

  module _ (m : Madt) (r : ℕ) where
    added_address :
        (add_record mem m r).lapic_addr
        ≡ (if type_of mem r == lapic_address_override then override_address mem r else m.lapic_addr)
    unfolding add_record
    added_address = ground arith

    added_lapics :
        (add_record mem m r).lapics ≡ (if type_of mem r == lapic then push m.lapics r else m.lapics)
    unfolding add_record
    added_lapics = ground arith

    added_ioapics :
        (add_record mem m r).ioapics
        ≡ (if type_of mem r == ioapic then push m.ioapics r else m.ioapics)
    unfolding add_record
    added_ioapics = ground arith

    added_isos :
        (add_record mem m r).isos
        ≡ (if type_of mem r == ioapic_interrupt_source_override then push m.isos r else m.isos)
    unfolding add_record
    added_isos = ground arith

    added_nmis :
        (add_record mem m r).nmis ≡ (if type_of mem r == lapic_nmi then push m.nmis r else m.nmis)
    unfolding add_record
    added_nmis = ground arith

  add_record-Sorted :
      (address : ℕ) (pre : List ℕ) (m : Madt) (r : ℕ)
      → Sorted address pre m
      → Few (pre ++ (r ∷ []))
      → Sorted address (pre ++ (r ∷ [])) (add_record mem m r)
  add_record-Sorted address pre m r s few = record {
    lapic_addr =
        added_address m r
        ∙ ap (λ a. if type_of mem r == lapic_address_override then override_address mem r else a)
            s.lapic_addr
        ∙ sym (final_address-append pre (r ∷ []) address);
    lapics = rw (added_lapics m r) (array_step lapic m.lapics pre r s.lapics (few lapic));
    ioapics = rw (added_ioapics m r) (array_step ioapic m.ioapics pre r s.ioapics (few ioapic));
    isos = rw (added_isos m r) (array_step _ m.isos pre r s.isos (few _));
    nmis = rw (added_nmis m r) (array_step lapic_nmi m.nmis pre r s.nmis (few lapic_nmi));
  }

  add_records-Sorted :
      (address : ℕ) (rs pre : List ℕ) (m : Madt)
      → Sorted address pre m
      → Few (pre ++ rs)
      → Sorted address (pre ++ rs) (add_records mem m rs)
  add_records-Sorted address [] pre m s few = rw (append-nil pre) s
  add_records-Sorted address (r ∷ rs) pre m s few =
      let e : (pre ++ (r ∷ [])) ++ rs ≡ pre ++ (r ∷ rs) = append_assoc pre (r ∷ []) rs in
      let few' : Few ((pre ++ (r ∷ [])) ++ rs) = rw e few in
      rw⁻¹ e (
        add_records-Sorted address rs (pre ++ (r ∷ [])) (add_record mem m r)
          (add_record-Sorted address pre m r s (fewer (pre ++ (r ∷ [])) rs few')) few')

of_type-length : (mem : Memory) (type : ℕ) (rs : List ℕ) → length (of_type mem type rs) ≤ length rs
of_type-length mem type [] = omega arith
of_type-length mem type (r ∷ rs) = ground (arith, of_type-length mem type rs)

module _ (mem : Memory) (end start : ℕ)
    (nonzero : (r : ℕ) → IsRecord mem end start r → 0 < length_of mem r) where
  Records-length :
      {r : ℕ} {rs : List ℕ}
      → Records mem end r rs
      → IsRecord mem end start r
      → r < end
      → r + length rs ≤ end
  Records-length (last r le) here lt = omega arith
  Records-length (next r rs le more) here lt =
      omega (arith, nonzero r here, Records-length more (behind r here le) le)

  -- A table of fewer than 256 bytes of records has fewer than 256 of each type.
  pub Few-of_short :
      (rs : List ℕ) → Records mem end start rs → start < end → end < start + 2 ^ 8 → Few mem rs
  Few-of_short rs chain lt short type =
      omega (arith, of_type-length mem type rs, Records-length chain at_start lt)

-- The arrays at the start.
abbrev pub no_records : Madt
no_records =
    let none_yet : Array = record { items = λ _. 0; count = 0 } in
    record {
      lapic_addr = 0;
      lapics = none_yet;
      ioapics = none_yet;
      isos = none_yet;
      nmis = none_yet;
    }

nothing-Holds : Holds (record { items = λ _. 0; count = 0 }) []
nothing-Holds = record { count = refl; items = λ i r e. absurd (cc e) }

module _ (mem : Memory) (madt table_length lapic_address : ℕ) (there : 0 < madt)
    (fits : Fits mem (madt + table_length)) (long : 0x2c < table_length)
    (nonzero : (r : ℕ) → IsRecord mem (madt + table_length) (madt + 0x2c) r → 0 < length_of mem r)
    (few : (rs : List ℕ) → Records mem (madt + table_length) (madt + 0x2c) rs → Few mem rs) where
  -- For a table at an address that is not NULL, longer than its header, within 64 bits, whose records
  -- have lengths other than 0 and which has fewer than 256 records of each type: with the table's
  -- length as fuel `madt_init` ends, each array holds the addresses of all records of its type in
  -- the table's order, and the local APIC's address is the last record's that overrides it, or the
  -- header's.
  pub madt_init-Sorted :
      (rs : List ℕ) × (m : Madt) × Records mem (madt + table_length) (madt + 0x2c) rs
      × (madt_init mem table_length madt table_length lapic_address no_records
          ≡ done m (m.lapic_addr ∷ []))
      × Sorted mem lapic_address rs m
  unfolding madt_init
  madt_init-Sorted =
      let below = fits.below in
      let start : Madt = record no_records { lapic_addr = lapic_address } in
      let (rs, chain, e) =
        walk-Records mem (madt + table_length) (madt + 0x2c) fits nonzero table_length (madt + 0x2c)
          start at_start (omega arith) (omega arith) (omega arith) in
      let first : (madt + 0x2c) % 2 ^ 64 ≡ madt + 0x2c = omega arith in
      let end : (madt + table_length) % 2 ^ 64 ≡ madt + table_length = omega arith in
      let given : (madt == 0) ≡ false = ground arith in
      (
        rs,
        add_records mem start rs,
        chain,
        rw (given, first, end, e) refl,
        add_records-Sorted mem lapic_address rs [] start
            (record {
              lapic_addr = refl;
              lapics = nothing-Holds;
              ioapics = nothing-Holds;
              isos = nothing-Holds;
              nmis = nothing-Holds;
            })
            (few rs chain),
      )
