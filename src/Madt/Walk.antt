-- ===== src/Madt/Walk.antt =====
-- The loop of `madt_init` in Kernel/src/fw/madt.c visits the records one behind the other, and ends.
use wheatley.Common.{
  ℕ, zero, suc, ◌+◌, ◌^◌, ◌%◌, ◌≤◌, ◌<◌, ◌≡◌, refl, ◌∙◌, true, false, none, some, List, [], ◌∷◌,
  ◌==◌, leb, Bool-cases, inl, inr, arith,
}
use wheatley.Madt.{Memory, Madt, add_record, walk, length_of}

-- `rs` are the addresses of the records from `r` on, each at the end of the one before, up to the
-- one that reaches the table's end.
pub data Records (mem : Memory) (end : ℕ) : ℕ → List ℕ → Type 0 where
  last : (r : ℕ) → end ≤ r + length_of mem r → Records mem end r (r ∷ [])
  next :
      (r : ℕ) (rs : List ℕ)
      → r + length_of mem r < end
      → Records mem end (r + length_of mem r) rs
      → Records mem end r (r ∷ rs)

-- There is a record at the address, counted from `start`.
pub data IsRecord (mem : Memory) (end start : ℕ) : ℕ → Type 0 where
  at_start : IsRecord mem end start start
  behind :
      (r : ℕ)
      → IsRecord mem end start r
      → r + length_of mem r < end
      → IsRecord mem end start (r + length_of mem r)

abbrev pub add_records : Memory → Madt → List ℕ → Madt
add_records mem m [] = m
add_records mem m (r ∷ rs) = add_records mem (add_record mem m r) rs

-- A table that lies in 64 bits, with the bytes that its records reach past its end.
pub record Fits (mem : Memory) (end : ℕ) : Type 0 where
  pub bytes : (a : ℕ) → mem a < 2 ^ 8
  pub below : end + 2 ^ 8 < 2 ^ 64

module _ (mem : Memory) (fuel r end : ℕ) (m : Madt) (there : (r == 0) ≡ false)
    (flat : (r + length_of mem r) % 2 ^ 64 ≡ r + length_of mem r) where
  walk_last :
      leb end (r + length_of mem r) ≡ true → walk mem (suc fuel) r end m ≡ some (add_record mem m r)
  unfolding walk
  walk_last e = rw (there, flat, e) refl

  walk_next :
      leb end (r + length_of mem r) ≡ false
      → walk mem (suc fuel) r end m ≡ walk mem fuel (r + length_of mem r) end (add_record mem m r)
  unfolding walk
  walk_next e = rw (there, flat, e) refl

module _ (mem : Memory) (end start : ℕ) (fits : Fits mem end)
    (nonzero : (r : ℕ) → IsRecord mem end start r → 0 < length_of mem r) where
  -- Where no record has length 0, the loop ends within the table's length in rounds, whatever it
  -- holds, and has added the records one behind the other.
  pub walk-Records :
      (fuel r : ℕ) (m : Madt)
      → IsRecord mem end start r
      → 0 < r
      → r < end
      → end ≤ r + fuel
      → (rs : List ℕ) × Records mem end r rs × (walk mem fuel r end m ≡ some (add_records mem m rs))
  walk-Records zero r m here pos lt enough = absurd (omega arith)
  walk-Records (suc fuel) r m here pos lt enough =
      let small : length_of mem r < 2 ^ 8 = fits.bytes (r + 1) in
      let below = fits.below in
      let there : (r == 0) ≡ false = ground arith in
      let flat : (r + length_of mem r) % 2 ^ 64 ≡ r + length_of mem r = omega arith in
      elim (Bool-cases (leb end (r + length_of mem r))) [
        | inl on ↦ (r ∷ [], last r (ground arith), walk_last mem fuel r end m there flat on)
        | inr off ↦
            let (rs, more, e) =
              walk-Records fuel (r + length_of mem r) (add_record mem m r)
                (behind r here (ground arith)) (omega arith) (ground arith)
                (let some_length = nonzero r here in omega arith) in
            (r ∷ rs, next r rs (ground arith) more, walk_next mem fuel r end m there flat off ∙ e)
      ]

-- A record of length 0 before the table's end, at an address that is not NULL, holds the loop: no amount of
-- fuel ends it.
pub walk_stuck :
    (mem : Memory) (fuel r end : ℕ) (m : Madt)
    → 0 < r
    → r < 2 ^ 64
    → r < end
    → length_of mem r ≡ 0
    → walk mem fuel r end m ≡ none
unfolding walk
walk_stuck mem zero r end m pos fit lt e = refl
walk_stuck mem (suc fuel) r end m pos fit lt e =
    let same : (r + length_of mem r) % 2 ^ 64 ≡ r = omega arith in
    let there : (r == 0) ≡ false = ground arith in
    let before : leb end r ≡ false = ground arith in
    rw (there, same, before) (walk_stuck mem fuel r end (add_record mem m r) pos fit lt e)
