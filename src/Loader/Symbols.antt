-- ===== src/Loader/Symbols.antt =====
-- The kernel's functions that Bootloader/src/elfloader.c hands over.
use wheatley.Common.{
  ℕ, zero, suc, ◌+◌, ◌≤◌, ◌<◌, ◌≡◌, ◌≢◌, refl, sym, ap, ◌∙◌, arith, true, false, some, List, [],
  ◌∷◌, ◌++◌, ltb, ◌==◌, if◌then◌else◌, length, length-append, Bool-cases, inl, inr,
}
use mathlib.Core.List.{append-nil, append_assoc}
use wheatley.Loader.{
  ElfSymbol, HandoffSymbol, copy_name, expected_info, symbols_loop, elf_load_symbols,
}

module _ (elf_strtab : ℕ → ℕ) where
  -- The characters from `pos` on, up to a 0.
  pub data IsName : (pos : ℕ) → List ℕ → Type 0 where
    ends : (pos : ℕ) → elf_strtab pos ≡ 0 → IsName pos []
    goes_on :
        (pos : ℕ) (name : List ℕ)
        → elf_strtab pos ≢ 0
        → IsName (pos + 1) name
        → IsName pos (elf_strtab pos ∷ name)

  -- There is a 0 within 64 characters.
  abbrev pub EndsWithin : (pos rounds : ℕ) → Type 0
  EndsWithin pos rounds = (n : ℕ) × (n < rounds) × (elf_strtab (pos + n) ≡ 0)

  copy_name-IsName :
      (rounds pos : ℕ)
      → EndsWithin pos rounds
      → (name : List ℕ) × (copy_name elf_strtab pos rounds ≡ some name) × IsName pos name
  unfolding copy_name
  copy_name-IsName zero pos (n, lt, e) = absurd (omega arith)
  copy_name-IsName (suc rounds) pos (n, lt, e) = elim (Bool-cases (elf_strtab pos == 0)) [
    | inl at_end ↦ ([], rw at_end refl, ends pos (ground arith))
    | inr more ↦
        let (name, run, is) = copy_name-IsName rounds (pos + 1) (step pos n rounds lt e more) in
        (elf_strtab pos ∷ name, rw (more, run) refl, goes_on pos name (ground arith) is)
  ]
    where
      step :
          (pos n rounds : ℕ)
          → n < suc rounds
          → elf_strtab (pos + n) ≡ 0
          → (elf_strtab pos == 0) ≡ false
          → EndsWithin (pos + 1) rounds
      step pos zero rounds lt e more =
          let at : pos + 0 ≡ pos = omega arith in absurd (ground (arith, ap elf_strtab at))
      step pos (suc n) rounds lt e more =
          let at : pos + suc n ≡ pos + 1 + n = omega arith in
          (n, omega arith, ap elf_strtab (sym at) ∙ e)

  -- The symbols that are global functions, in order, with their names and addresses.
  pub data Functions : List ElfSymbol → List HandoffSymbol → Type 0 where
    no_more : Functions [] []
    passed :
        (s : ElfSymbol) (ss : List ElfSymbol) (out : List HandoffSymbol)
        → s.info ≢ expected_info
        → Functions ss out
        → Functions (s ∷ ss) out
    taken :
        (s : ElfSymbol) (ss : List ElfSymbol) (name : List ℕ) (out : List HandoffSymbol)
        → s.info ≡ expected_info
        → IsName s.name name
        → Functions ss out
        → Functions (s ∷ ss) (record { name = name; addr = s.symbol_value } ∷ out)

  -- How many they are, and that their names end.
  abbrev pub function_count : List ElfSymbol → ℕ
  function_count [] = 0
  function_count (s ∷ ss) =
      let rest = function_count ss in if s.info == expected_info then rest + 1 else rest

  abbrev pub NamesEnd : List ElfSymbol → Type 0
  NamesEnd [] = Unit
  NamesEnd (s ∷ ss) = (s.info ≡ expected_info → EndsWithin s.name 64) × NamesEnd ss

  symbols_loop-Functions :
      (symbols : List ElfSymbol) (out : List HandoffSymbol)
      → NamesEnd symbols
      → length out + function_count symbols ≤ 256
      → (found : List HandoffSymbol) × (symbols_loop elf_strtab symbols out ≡ some (out ++ found))
        × Functions symbols found
  unfolding symbols_loop
  symbols_loop-Functions [] out names room = ([], ap some (sym (append-nil out)), no_more)
  symbols_loop-Functions (s ∷ ss) out (name_ends, names) room =
      elim (Bool-cases (s.info == expected_info)) [
        | inl on ↦
            let (name, run, is) = copy_name-IsName 64 s.name (name_ends (ground arith)) in
            let new : HandoffSymbol = record { name = name; addr = s.symbol_value } in
            let fewer : length out < 256 = ground arith in
            let free_place : ltb (length out) 256 ≡ true = ground arith in
            let (found, more, f) =
              symbols_loop-Functions ss (out ++ (new ∷ [])) names
                (ground (arith, length-append out (new ∷ []))) in
            (
              new ∷ found,
              rw (on, free_place, run) (more ∙ ap some (append_assoc out (new ∷ []) found)),
              taken s ss name found (ground arith) is f,
            )
        | inr off ↦
            let (found, more, f) = symbols_loop-Functions ss out names (ground arith) in
            (found, rw off more, passed s ss found (ground arith) f)
      ]

  -- With at most 256 global functions, whose names end within 64 characters, the hand-over holds
  -- exactly these, in the order of the symbol table, each with its whole name and its address.
  pub elf_load_symbols-Functions :
      (symbols : List ElfSymbol)
      → NamesEnd symbols
      → function_count symbols ≤ 256
      → (found : List HandoffSymbol) × (elf_load_symbols elf_strtab symbols ≡ some found)
        × Functions symbols found
  unfolding elf_load_symbols
  elf_load_symbols-Functions symbols names room =
      symbols_loop-Functions symbols [] names (omega arith)
