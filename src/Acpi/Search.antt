-- ===== src/Acpi/Search.antt =====
-- `acpi_find_table` of Kernel/src/fw/acpi.c finds the table of a signature by its number.
use wheatley.Common.{
  ℕ, zero, suc, ◌+◌, ◌≤◌, ◌<◌, ◌≡◌, ◌≢◌, refl, sym, ap, ◌∙◌, true, false, ◌==◌, arith, some, List,
  [], ◌∷◌, ◌++◌, if◌then◌else◌, Bool-cases, inl, inr,
}
use wheatley.Acpi.{Tables, is_match, find_loop, xsdt_entries, find_in_xsdt, acpi_find_table}

module _ (T : Tables) (sig : ℕ) where
  -- How many of the first `n` tables match.
  abbrev pub matches : ℕ → ℕ
  matches zero = 0
  matches (suc n) =
      let before = matches n in if is_match T sig (T.entry n) then before + 1 else before

  -- The first `n` tables.
  abbrev pub first_tables : ℕ → List ℕ
  first_tables zero = []
  first_tables (suc n) = first_tables n ++ (T.entry n ∷ [])

  -- The ends of the search of `n` tables for the match of number `index`.
  pub data Search (index n : ℕ) (r : ℕ × List ℕ) : Type 0 where
    found :
        (k : ℕ)
        → k < n
        → is_match T sig (T.entry k) ≡ true
        → matches k ≡ index
        → r ≡ (T.entry k, first_tables (suc k))
        → Search index n r
    missing : matches n ≤ index → r ≡ (0, first_tables n) → Search index n r

  matches_next :
      (i : ℕ) → matches (i + 1) ≡ (if is_match T sig (T.entry i) then matches i + 1 else matches i)
  matches_next i = let e : i + 1 ≡ suc i = omega arith in ap matches e

  first_tables_next : (i : ℕ) → first_tables (i + 1) ≡ first_tables i ++ (T.entry i ∷ [])
  first_tables_next i = let e : i + 1 ≡ suc i = omega arith in ap first_tables e

  find_loop-Search :
      (rounds index i n count : ℕ) (mapped : List ℕ)
      → n ≡ i + rounds
      → count ≡ matches i
      → count ≤ index
      → mapped ≡ first_tables i
      → Search index n (find_loop T sig index i rounds count mapped)
  unfolding find_loop
  find_loop-Search zero index i n count mapped e c few m =
      let at : i ≡ n = omega arith in
      missing (omega (arith, ap matches at)) (ap (λ l. (0, l)) (m ∙ ap first_tables at))
  find_loop-Search (suc rounds) index i n count mapped e c few m =
      let seen : mapped ++ (T.entry i ∷ []) ≡ first_tables i ++ (T.entry i ∷ []) =
        ap (λ l. l ++ (T.entry i ∷ [])) m in
      let next = matches_next i in
      let more = seen ∙ sym (first_tables_next i) in
      elim (Bool-cases (is_match T sig (T.entry i))) [
        | inl on ↦ elim (Bool-cases (count == index)) [
          | inl last ↦
              rw (on, last)
                (found i (omega arith) on (ground arith) (ap (λ l. (T.entry i, l)) seen))
          | inr not_yet ↦
              rw (on, not_yet)
                (find_loop-Search rounds index (i + 1) n (count + 1) _ (omega arith) (ground arith)
                  (ground arith) more)
        ]
        | inr off ↦
            rw off (
              find_loop-Search rounds index (i + 1) n count _ (omega arith) (ground arith) few more)
      ]

  -- A search for a signature other than the DSDT's returns: either the match of number `index`, a
  -- table of the XSDT with the signature and a right checksum and as many of those before it, with
  -- the pages of the tables up to it mapped; or NULL, where there are no more matches than `index`,
  -- with the pages of all tables mapped.
  pub acpi_find_table-Search :
      (index : ℕ)
      → sig ≢ T.dsdt
      → (r : ℕ × List ℕ) × (acpi_find_table T sig index ≡ some r) × Search index (xsdt_entries T) r
  unfolding acpi_find_table find_in_xsdt
  acpi_find_table-Search index ne =
      let other : (sig == T.dsdt) ≡ false = ground arith in
      (
        find_in_xsdt T sig index,
        rw other refl,
        find_loop-Search (xsdt_entries T) index 0 (xsdt_entries T) 0 [] (omega arith) refl
            (omega arith) refl,
      )
