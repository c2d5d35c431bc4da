-- ===== src/Paging/Masks.antt =====
-- The masks and shifts of Kernel/src/mm/vmm.c as arithmetic.
use wheatley.Common.{
  ℕ, zero, suc, ◌+◌, ◌-◌, ◌*◌, ◌/◌, ◌%◌, ◌^◌, ◌≤◌, ◌<◌, bit_and, bit_or, ◌≡◌, refl, ap, ◌∙◌, Bool,
  true, not, arith, ◌==◌, complement, bit_and-low, bit_and-up, bit_and-one, bit_or_digit,
}
use wheatley.Paging.{level4_of, level3_of, level2_of, level1_of}

-- The entry's present bit, and the table that it names.
abbrev pub is_present : ℕ → Bool
is_present e = not (bit_and e 1 == 0)

abbrev pub table_of : ℕ → ℕ
table_of e = bit_and e (complement 64 0xfff)

pub is_present_iff : (e : ℕ) → is_present e ≡ (e % 2 == 1)
is_present_iff e = ground (arith, bit_and-one e)

pub table_of_lem : (e : ℕ) → table_of e ≡ e / 4096 % 2 ^ 52 * 4096
table_of_lem e = bit_and-up 12 (2 ^ 52 - 1) e ∙ ap (λ (x : ℕ). x * 4096) (bit_and-low 52 (e / 4096))

bit_or-zero_fuel : (n a : ℕ) → a ≤ n → bit_or a 0 ≡ a
bit_or-zero_fuel n zero h = refl
bit_or-zero_fuel zero (suc a) h = absurd (omega arith)
bit_or-zero_fuel (suc n) (suc a) h =
    omega (arith, bit_or_digit (suc a) 0, bit_or-zero_fuel n (suc a / 2) (omega arith))

-- A new entry: the table's address with the present, write and user bits.
pub new_entry : (a : ℕ) → a % 4096 ≡ 0 → bit_or a 0b111 ≡ a + 7
new_entry a h = omega (
  arith,
  bit_or_digit a 7,
  bit_or_digit (a / 2) 3,
  bit_or_digit (a / 2 / 2) 1,
  bit_or-zero_fuel (a / 2 / 2 / 2) (a / 2 / 2 / 2) (omega arith),
)

pub new_entry-table : (a : ℕ) → a % 4096 ≡ 0 → a < 2 ^ 64 → table_of (bit_or a 0b111) ≡ a
new_entry-table a h lt = omega (arith, new_entry a h, table_of_lem (bit_or a 0b111))

pub new_entry-present : (a : ℕ) → a % 4096 ≡ 0 → is_present (bit_or a 0b111) ≡ true
new_entry-present a h = ground (arith, new_entry a h, is_present_iff (bit_or a 0b111))

pub level4_of_lem : (v : ℕ) → level4_of v ≡ v / 2 ^ 39 % 512
level4_of_lem v = omega (arith, bit_and-up 39 0x1ff v, bit_and-low 9 (v / 2 ^ 39))

pub level3_of_lem : (v : ℕ) → level3_of v ≡ v / 2 ^ 30 % 512
level3_of_lem v = omega (arith, bit_and-up 30 0x1ff v, bit_and-low 9 (v / 2 ^ 30))

pub level2_of_lem : (v : ℕ) → level2_of v ≡ v / 2 ^ 21 % 512
level2_of_lem v = omega (arith, bit_and-up 21 0x1ff v, bit_and-low 9 (v / 2 ^ 21))

pub level1_of_lem : (v : ℕ) → level1_of v ≡ v / 2 ^ 12 % 512
level1_of_lem v = omega (arith, bit_and-up 12 0x1ff v, bit_and-low 9 (v / 2 ^ 12))
