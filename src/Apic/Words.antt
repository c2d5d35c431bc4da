-- ===== src/Apic/Words.antt =====
-- The bits of the two words of an entry, in Kernel/src/sys/apic.c.
use wheatley.Common.{
  ℕ, zero, suc, ◌-◌, ◌*◌, ◌/◌, ◌%◌, ◌^◌, ◌≤◌, ◌<◌, ◌≡◌, refl, sym, ap, ◌∙◌, Bool, true, false, ◌&&◌,
  ◌||◌, bit_and, bit_or, complement, ltb, leb, ◌==◌, not, if◌then◌else◌, arith, bit, bit-or,
  bit-and, bit-two-pow, bit-complement, bit-lt, bit-suc, bit-zero, bit-none, bit_and-low,
}
use native.Mathlib.Nat.{two-pow-succ, one-le-pow}
use wheatley.Apic.{low_word, high_word}

-- A number below 2^w has no bits from w on.
pub bit-above : (w k x : ℕ) → x < 2 ^ w → w ≤ k → bit x k ≡ 0
bit-above zero k x lt le = let e : x ≡ 0 = omega arith in rw e (bit-none k)
bit-above (suc w) zero x lt le = absurd (omega arith)
bit-above (suc w) (suc k) x lt le =
    bit-suc x k ∙ bit-above w k (x / 2) (omega (arith, two-pow-succ w)) (omega arith)

pub bit-byte_mask : (j : ℕ) → bit 0xff j ≡ (if ltb j 8 then 1 else 0)
bit-byte_mask j = ground (arith, bit-complement 8 j 0, bit-none j, bit-above 8 j 0xff (omega arith))

pub bit-mode_mask : (j : ℕ) → bit 0x700 j ≡ (if leb 8 j && leb j 10 then 1 else 0)
bit-mode_mask j =
    let e : 0x700 ≡ bit_or (bit_or (2 ^ 8) (2 ^ 9)) (2 ^ 10) = refl in
    ap (λ x. bit x j) e
    ∙ ground (
      arith,
      bit-or j (bit_or (2 ^ 8) (2 ^ 9)) (2 ^ 10),
      bit-or j (2 ^ 8) (2 ^ 9),
      bit-two-pow 8 j,
      bit-two-pow 9 j,
      bit-two-pow 10 j,
    )

-- A bit of a word after `low &= ~mask`.
pub bit-without :
    (x mask j : ℕ)
    → j < 32
    → mask < 2 ^ 32
    → bit (bit_and x (complement 32 mask)) j ≡ (if bit mask j == 1 then 0 else bit x j)
bit-without x mask j lt fits = ground (
  arith,
  bit-and j x (complement 32 mask),
  bit-complement 32 j mask lt fits,
  bit-lt mask j,
  bit-lt x j,
)

-- A bit after `if (test) low |= 1 << k`.
pub bit-set_if :
    (test : Bool) (x k j : ℕ)
    → bit (if test then x else bit_or x (2 ^ k)) j ≡ (if not test && j == k then 1 else bit x j)
bit-set_if true x k j = refl
bit-set_if false x k j = ground (arith, bit-or j x (2 ^ k), bit-two-pow k j, bit-lt x j)

-- The bits that an entry's low word is to have, over those of the old one.
abbrev pub low_bits : (low vec flags j : ℕ) → ℕ
low_bits low vec flags j =
    if ltb j 8
    then bit vec j
    else if leb j 11 || j == 16
    then 0
    else if not (bit_and flags 2 == 0) && j == 13
    then 1
    else if not (bit_and flags 8 == 0) && j == 15
    then 1
    else bit low j

pub bit-low_word :
    (low vec flags j : ℕ)
    → vec < 2 ^ 8
    → j < 32
    → bit (low_word low vec flags) j ≡ low_bits low vec flags j
unfolding low_word
bit-low_word low vec flags j byte lt =
    let unmasked = bit_and low (complement 32 (2 ^ 16)) in
    let physical = bit_and unmasked (complement 32 (2 ^ 11)) in
    let fixed = bit_and physical (complement 32 0x700) in
    let cleared = bit_and fixed (complement 32 0xff) in
    let vectored = bit_or cleared vec in
    let polarity = if bit_and flags 2 == 0 then vectored else bit_or vectored (2 ^ 13) in
    bit-set_if (bit_and flags 8 == 0) polarity 15 j
    ∙ ground (
      arith,
      bit-set_if (bit_and flags 2 == 0) vectored 13 j,
      bit-or j cleared vec,
      bit-without fixed 0xff j lt (omega arith),
      bit-byte_mask j,
      bit-without physical 0x700 j lt (omega arith),
      bit-mode_mask j,
      bit-without unmasked (2 ^ 11) j lt (omega arith),
      bit-two-pow 11 j,
      bit-without low (2 ^ 16) j lt (omega arith),
      bit-two-pow 16 j,
      bit-above 8 j vec byte,
    )

pub bit-doubled : (x j : ℕ) → bit (x * 2) (suc j) ≡ bit x j
bit-doubled x j = bit-suc (x * 2) j ∙ ap (λ y. bit y j) (omega arith)

pub double-shift : (k x : ℕ) → x * 2 ^ suc k ≡ x * 2 ^ k * 2
double-shift k x = ap (λ y. x * y) (two-pow-succ k) ∙ omega arith

pub bit-shifted : (k x j : ℕ) → bit (x * 2 ^ k) j ≡ (if ltb j k then 0 else bit x (j - k))
bit-shifted zero x j = let e : x * 2 ^ 0 ≡ x = omega arith in ap (λ y. bit y j) e ∙ ground arith
bit-shifted (suc k) x zero = bit-zero (x * 2 ^ suc k) ∙ ground (arith, double-shift k x)
bit-shifted (suc k) x (suc j) =
    ap (λ y. bit y (suc j)) (double-shift k x)
    ∙ bit-doubled (x * 2 ^ k) j
    ∙ bit-shifted k x j
    ∙ ground arith

pub bit-low_part : (w x j : ℕ) → j < w → bit (x % 2 ^ w) j ≡ bit x j
bit-low_part w x j lt =
    ap (λ y. bit y j) (sym (bit_and-low w x))
    ∙ ground (
      arith,
      bit-and j x (2 ^ w - 1),
      bit-complement w j 0 lt (one-le-pow w 2 (omega arith)),
      bit-none j,
      bit-lt x j,
    )

pub bit-high_word :
    (high id j : ℕ)
    → j < 32
    → bit (high_word high id) j ≡ (if ltb j 24 then bit high j else bit id (j - 24))
unfolding high_word
bit-high_word high id j lt = ground (
  arith,
  bit-or j (bit_and high (complement 32 0xff000000)) (id * 2 ^ 24 % 2 ^ 32),
  bit-without high 0xff000000 j lt (omega arith),
  bit-shifted 24 0xff j,
  bit-byte_mask (j - 24),
  bit-low_part 32 (id * 2 ^ 24) j lt,
  bit-shifted 24 id j,
)
