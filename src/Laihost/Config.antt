-- ===== src/Laihost/Config.antt =====
-- The configuration space of PCI through Kernel/src/fw/laihost.c: what a read finds after a write.
use wheatley.Common.{
  ℕ, ◌+◌, ◌-◌, ◌*◌, ◌%◌, ◌^◌, ◌≤◌, ◌<◌, ◌≡◌, sym, ap, ◌∙◌, ◌⊎◌, inl, inr, some, List, arith,
  Bool-cases, ltb, ltb→lt,
}
use wheatley.Pci.{McfgAddr, find_segment, pci_get_mcfg_addr}
use wheatley.Pci.Address.{IsRegister, ecam_address, pci_get_mcfg_addr-ecam_address}
use wheatley.Pci.Access.{
  Bytes, mmout, mmin, pointer, pci_outb, pci_outw, pci_outd, pci_inb, pci_inw, pci_ind,
}
use wheatley.Pci.Access.Bytes.{
  mmin-mmout, mmin-mmout-apart, low_bytes-byte, low_bytes-word, low_bytes-dword, low_bytes,
}
use wheatley.Laihost.{
  device, laihost_pci_writeb, laihost_pci_writew, laihost_pci_writed, laihost_pci_readb,
  laihost_pci_readw, laihost_pci_readd,
}

-- A register of one function, of one, two or four bytes.
pub data Width : Type 0 where
  byte : Width
  word : Width
  dword : Width

abbrev pub bytes : Width → ℕ
bytes byte = 1
bytes word = 2
bytes dword = 4

pub record Register : Type 0 where
  pub bus : ℕ
  pub slot : ℕ
  pub fun : ℕ
  pub offset : ℕ
  pub width : Width

module _ (mcfg : List McfgAddr) (seg : ℕ) where
  -- The call for a width.
  abbrev pub write_as : Width → Bytes → Register → (val : ℕ) → Bytes
  write_as w mem r val = elim w [
    | byte ↦ laihost_pci_writeb mcfg mem seg r.bus r.slot r.fun r.offset val
    | word ↦ laihost_pci_writew mcfg mem seg r.bus r.slot r.fun r.offset val
    | dword ↦ laihost_pci_writed mcfg mem seg r.bus r.slot r.fun r.offset val
  ]

  abbrev pub read_as : Width → Bytes → Register → ℕ
  read_as w mem r = elim w [
    | byte ↦ laihost_pci_readb mcfg mem seg r.bus r.slot r.fun r.offset
    | word ↦ laihost_pci_readw mcfg mem seg r.bus r.slot r.fun r.offset
    | dword ↦ laihost_pci_readd mcfg mem seg r.bus r.slot r.fun r.offset
  ]

  abbrev pub write : Bytes → Register → (val : ℕ) → Bytes
  write mem r val = write_as r.width mem r val

  abbrev pub read : Bytes → Register → ℕ
  read mem r = read_as r.width mem r

  -- The bytes of the register lie in the function's 4096.
  pub record Lies (entry : McfgAddr) (r : Register) : Type 0 where
    pub register : IsRegister entry (device seg r.bus r.slot r.fun) r.offset
    pub inside : r.offset + bytes r.width ≤ 4096

-- Two registers of different functions, or of one function without a common byte.
abbrev pub Apart : Register → Register → Type 0
Apart r q =
    (¬ ((r.bus ≡ q.bus) × (r.slot ≡ q.slot) × (r.fun ≡ q.fun)))
    ⊎ ((r.offset + bytes r.width ≤ q.offset) ⊎ (q.offset + bytes q.width ≤ r.offset))

module _ (mcfg : List McfgAddr) (seg : ℕ) (entry : McfgAddr)
    (search : find_segment mcfg seg ≡ some entry) where
  abbrev address : Register → ℕ
  address r = ecam_address entry (device seg r.bus r.slot r.fun) r.offset

  abbrev number : Register → ℕ
  number r = (r.bus - entry.bus_start) * 256 + r.slot * 8 + r.fun

  at :
      (r : Register)
      → Lies mcfg seg entry r
      → pointer (pci_get_mcfg_addr mcfg (device seg r.bus r.slot r.fun) r.offset) ≡ address r
  unfolding pointer
  at r l = ap pointer (pci_get_mcfg_addr-ecam_address mcfg entry _ r.offset search l.register)

  write-mmout :
      (mem : Bytes) (r : Register) (val : ℕ)
      → Lies mcfg seg entry r
      → write mcfg seg mem r val ≡ mmout mem (address r) (bytes r.width) val
  unfolding laihost_pci_writeb laihost_pci_writew laihost_pci_writed pci_outb pci_outw pci_outd
  write-mmout mem r val l =
      elim r.width as (λ w. write_as mcfg seg w mem r val ≡ mmout mem (address r) (bytes w) val) [
        | byte ↦ ap (λ a. mmout mem a 1 val) (at r l)
        | word ↦ ap (λ a. mmout mem a 2 val) (at r l)
        | dword ↦ ap (λ a. mmout mem a 4 val) (at r l)
      ]

  read-mmin :
      (mem : Bytes) (r : Register)
      → Lies mcfg seg entry r
      → read mcfg seg mem r ≡ mmin mem (address r) (bytes r.width)
  unfolding laihost_pci_readb laihost_pci_readw laihost_pci_readd pci_inb pci_inw pci_ind
  read-mmin mem r l =
      elim r.width as (λ w. read_as mcfg seg w mem r ≡ mmin mem (address r) (bytes w)) [
        | byte ↦ ap (λ a. mmin mem a 1) (at r l)
        | word ↦ ap (λ a. mmin mem a 2) (at r l)
        | dword ↦ ap (λ a. mmin mem a 4) (at r l)
      ]

  addresses-Apart :
      (r q : Register)
      → Lies mcfg seg entry r
      → Lies mcfg seg entry q
      → Apart r q
      → (address q + bytes q.width ≤ address r) ⊎ (address r + bytes r.width ≤ address q)
  addresses-Apart r q l k apart =
      let f = l.register in
      let g = k.register in
      let first = f.first in
      let first' = g.first in
      let slot = f.slot in
      let slot' = g.slot in
      let fun = f.fun in
      let fun' = g.fun in
      let in_r = l.inside in
      let in_q = k.inside in
      elim (Bool-cases (ltb (number q) (number r))) [
        | inl before ↦
            let lt : number q < number r = ltb→lt _ _ before in inl (omega (arith, lt, in_q))
        | inr not_before ↦ elim (Bool-cases (ltb (number r) (number q))) [
          | inl behind ↦
              let lt : number r < number q = ltb→lt _ _ behind in inr (omega (arith, lt, in_r))
          | inr not_behind ↦
              let same : number r ≡ number q = ground arith in
              elim apart [
                | inl other ↦
                    absurd (other (omega (arith, same), omega (arith, same), omega (arith, same)))
                | inr (inl over) ↦ inr (omega (arith, same, over))
                | inr (inr under) ↦ inl (omega (arith, same, under))
              ]
        ]
      ]

  -- What a value has in a register.
  abbrev pub kept : Width → (val : ℕ) → ℕ
  kept byte val = val % 2 ^ 8
  kept word val = val % 2 ^ 16
  kept dword val = val % 2 ^ 32

  low_bytes-kept : (w : Width) (val : ℕ) → low_bytes (bytes w) val ≡ kept w val
  low_bytes-kept byte val = low_bytes-byte val
  low_bytes-kept word val = low_bytes-word val
  low_bytes-kept dword val = low_bytes-dword val

  -- Of two registers of functions of one segment, on buses from its entry's first on, that have no
  -- byte in common: after a write to the first, a read of it gives the value, as far as the register is
  -- wide, and a read of the second gives what it gave before.
  pub read-write :
      (mem : Bytes) (r q : Register) (val : ℕ)
      → Lies mcfg seg entry r
      → Lies mcfg seg entry q
      → Apart r q
      → (read mcfg seg (write mcfg seg mem r val) r ≡ kept r.width val)
        × (read mcfg seg (write mcfg seg mem r val) q ≡ read mcfg seg mem q)
  read-write mem r q val l k apart =
      let w = write-mmout mem r val l in
      (
        ap (λ x. read mcfg seg x r) w
            ∙ read-mmin (mmout mem (address r) (bytes r.width) val) r l
            ∙ mmin-mmout mem (address r) (bytes r.width) val
            ∙ low_bytes-kept r.width val,
        ap (λ x. read mcfg seg x q) w
            ∙ read-mmin (mmout mem (address r) (bytes r.width) val) q k
            ∙ mmin-mmout-apart mem (address r) (bytes r.width) val (address q) (bytes q.width)
                (addresses-Apart r q l k apart)
            ∙ sym (read-mmin mem q k),
      )
