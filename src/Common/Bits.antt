-- ===== src/Common/Bits.antt =====
-- The binary digits of `&`, `|` and `1 << k`, one digit at a time. `bit x k` is `(x >> k) & 1`.
use Prim.Native.Nat.{ℕ, zero, suc, ◌+◌, ◌-◌, ◌*◌, ◌/◌, ◌%◌, ◌^◌, ◌≤◌, ◌<◌, min, max}
use Prim.Native.Nat.{bit_and, bit_or, digits, bit_and-bitwise, bit_or-bitwise}
use mathlib.Core.Path.{◌≡◌, refl, ap, ◌∙◌}
use native.Mathlib.Nat.{two-pow-succ, one-le-pow, mul-one, div-one, div-div-eq-div-mul, div-add-mod}
use native.Mathlib.Omega.{arith}
use wheatley.Common.Tests.{◌==◌, if◌then◌else◌}

-- The digit recursion does not depend on how many digits it is allowed beyond those of `a`.
module _ (z : ℕ → ℕ) (f : ℕ → ℕ → ℕ) where
  digits_enough : (n m a b : ℕ) → a ≤ n → a ≤ m → digits z f n a b ≡ digits z f m a b
  digits_enough zero zero a b p q = refl
  digits_enough zero (suc m) zero b p q = refl
  digits_enough zero (suc m) (suc a) b p q = absurd (omega arith)
  digits_enough (suc n) zero zero b p q = refl
  digits_enough (suc n) zero (suc a) b p q = absurd (omega arith)
  digits_enough (suc n) (suc m) zero b p q = refl
  digits_enough (suc n) (suc m) (suc a) b p q =
      omega (arith, digits_enough n m (suc a / 2) (b / 2) (omega arith) (omega arith))

pub bit_and_digit : (a b : ℕ) → bit_and a b ≡ bit_and (a / 2) (b / 2) * 2 + min (a % 2) (b % 2)
bit_and_digit zero b = omega (arith, bit_and-bitwise 0 b, bit_and-bitwise 0 (b / 2))
bit_and_digit (suc a) b = omega (
  arith,
  bit_and-bitwise (suc a) b,
  bit_and-bitwise (suc a / 2) (b / 2),
  digits_enough (λ _. 0) min a (suc a / 2) (suc a / 2) (b / 2) (omega arith) (omega arith),
)

pub bit_or_digit : (a b : ℕ) → bit_or a b ≡ bit_or (a / 2) (b / 2) * 2 + max (a % 2) (b % 2)
bit_or_digit zero b = omega (arith, bit_or-bitwise 0 b, bit_or-bitwise 0 (b / 2))
bit_or_digit (suc a) b = omega (
  arith,
  bit_or-bitwise (suc a) b,
  bit_or-bitwise (suc a / 2) (b / 2),
  digits_enough (λ x. x) max a (suc a / 2) (suc a / 2) (b / 2) (omega arith) (omega arith),
)

-- `x >> k` of an unsigned word, a place at a time.
unfoldable pub shr : ℕ → ℕ → ℕ
shr x zero = x
shr x (suc k) = shr (x / 2) k

-- `(x >> k) & 1`
unfoldable pub bit : ℕ → ℕ → ℕ
unfolding shr
bit x k = bit_and (shr x k) 1

bit_and-zero : (n a : ℕ) → a ≤ n → bit_and a 0 ≡ 0
bit_and-zero n zero h = refl
bit_and-zero zero (suc a) h = absurd (omega arith)
bit_and-zero (suc n) (suc a) h =
    omega (arith, bit_and_digit (suc a) 0, bit_and-zero n (suc a / 2) (omega arith))

pub bit_and-one : (a : ℕ) → bit_and a 1 ≡ a % 2
bit_and-one a = omega (arith, bit_and_digit a 1, bit_and-zero (a / 2) (a / 2) (omega arith))

pub shr-div : (x k : ℕ) → shr x (suc k) ≡ shr (x / 2) k
unfolding shr
shr-div x k = refl

pub bit-zero : (x : ℕ) → bit x 0 ≡ x % 2
unfolding bit
bit-zero x = bit_and-one x

pub bit-suc : (x k : ℕ) → bit x (suc k) ≡ bit (x / 2) k
unfolding bit
bit-suc x k = refl

pub bit-lt : (x k : ℕ) → bit x k < 2
unfolding bit
bit-lt x k = omega (arith, bit_and-one (shr x k))

halves-or : (a b : ℕ) → bit_or a b / 2 ≡ bit_or (a / 2) (b / 2)
halves-or a b = omega (arith, bit_or_digit a b)

halves-and : (a b : ℕ) → bit_and a b / 2 ≡ bit_and (a / 2) (b / 2)
halves-and a b = omega (arith, bit_and_digit a b)

pub bit-or : (k a b : ℕ) → bit (bit_or a b) k ≡ max (bit a k) (bit b k)
bit-or zero a b = omega (arith, bit-zero (bit_or a b), bit-zero a, bit-zero b, bit_or_digit a b)
bit-or (suc k) a b = rw (bit-suc, bit-suc, bit-suc, halves-or) (bit-or k (a / 2) (b / 2))

pub bit-and : (k a b : ℕ) → bit (bit_and a b) k ≡ min (bit a k) (bit b k)
bit-and zero a b = omega (arith, bit-zero (bit_and a b), bit-zero a, bit-zero b, bit_and_digit a b)
bit-and (suc k) a b = rw (bit-suc, bit-suc, bit-suc, halves-and) (bit-and k (a / 2) (b / 2))

pub bit-none : (k : ℕ) → bit 0 k ≡ 0
bit-none zero = bit-zero 0
bit-none (suc k) = rw bit-suc (bit-none k)

-- The word with the one bit `j`.
pub bit-two-pow : (j k : ℕ) → bit (2 ^ j) k ≡ (if j == k then 1 else 0)
bit-two-pow zero zero = bit-zero 1
bit-two-pow zero (suc k) = ground (arith, bit-suc 1 k, bit-none k)
bit-two-pow (suc j) zero = ground (arith, bit-zero (2 ^ suc j), two-pow-succ j)
bit-two-pow (suc j) (suc k) =
    let half : 2 ^ suc j / 2 ≡ 2 ^ j = omega (arith, two-pow-succ j) in
    rw (bit-suc, half, bit-two-pow j k) (ground arith)

-- `~x` of a word of `w` bits.
abbrev pub complement : ℕ → ℕ → ℕ
complement w x = 2 ^ w - 1 - x

pub bit-complement : (w k x : ℕ) → k < w → x < 2 ^ w → bit (complement w x) k ≡ 1 - bit x k
bit-complement zero k x h fits = absurd (omega arith)
bit-complement (suc w) zero x h fits =
    omega (arith, bit-zero (complement (suc w) x), bit-zero x, two-pow-succ w)
bit-complement (suc w) (suc k) x h fits =
    let half : complement (suc w) x / 2 ≡ complement w (x / 2) = omega (arith, two-pow-succ w) in
    rw (bit-suc, bit-suc, half)
      (bit-complement w k (x / 2) (omega arith) (omega (arith, two-pow-succ w)))

pub two-pow-lt : (w k : ℕ) → k < w → 2 ^ k < 2 ^ w
two-pow-lt zero k h = absurd (omega arith)
two-pow-lt (suc w) zero h = omega (arith, two-pow-succ w, one-le-pow w 2 (omega arith))
two-pow-lt (suc w) (suc k) h =
    omega (arith, two-pow-succ w, two-pow-succ k, two-pow-lt w k (omega arith))

-- Words stay words.
pub bit_or-lt : (w a b : ℕ) → a < 2 ^ w → b < 2 ^ w → bit_or a b < 2 ^ w
bit_or-lt zero zero zero h k = omega (arith, bit_or_digit 0 0)
bit_or-lt zero zero (suc b) h k = absurd (omega arith)
bit_or-lt zero (suc a) b h k = absurd (omega arith)
bit_or-lt (suc w) a b h k = omega (
  arith,
  bit_or_digit a b,
  two-pow-succ w,
  bit_or-lt w (a / 2) (b / 2) (omega (arith, two-pow-succ w)) (omega (arith, two-pow-succ w)),
)

bit_and-le_fuel : (n a b : ℕ) → a ≤ n → bit_and a b ≤ a
bit_and-le_fuel n zero b h = omega (arith, bit_and-bitwise 0 b)
bit_and-le_fuel zero (suc a) b h = absurd (omega arith)
bit_and-le_fuel (suc n) (suc a) b h =
    omega (arith, bit_and_digit (suc a) b, bit_and-le_fuel n (suc a / 2) (b / 2) (omega arith))

pub bit_and-le : (a b : ℕ) → bit_and a b ≤ a
bit_and-le a b = bit_and-le_fuel a a b (omega arith)

mod-double : (a n : ℕ) → 1 ≤ n → a % (n + n) ≡ a / 2 % n * 2 + a % 2
mod-double a n h =
    let quotient : a / 2 / n ≡ a / (n + n) =
      div-div-eq-div-mul a 2 n ∙ ap (λ (t : ℕ). a / t) (omega arith) in
    omega (
      arith,
      quotient,
      div-add-mod a (n + n),
      div-add-mod (a / 2) n,
      ap (λ (t : ℕ). n * t) quotient,
    )

-- A mask of `k` low ones is the remainder by `2 ^ k`.
pub bit_and-low : (k a : ℕ) → bit_and a (2 ^ k - 1) ≡ a % 2 ^ k
bit_and-low zero a = omega (arith, bit_and-zero a a (omega arith))
bit_and-low (suc k) a =
    let half : (2 ^ suc k - 1) / 2 ≡ 2 ^ k - 1 = omega (arith, two-pow-succ k) in
    let rest : bit_and (a / 2) ((2 ^ suc k - 1) / 2) ≡ a / 2 % 2 ^ k =
      rw half (bit_and-low k (a / 2)) in
    let pos : 1 ≤ 2 ^ k = one-le-pow k 2 (omega arith) in
    let split : a % 2 ^ suc k ≡ a / 2 % 2 ^ k * 2 + a % 2 =
      ap (λ (t : ℕ). a % t) (two-pow-succ k) ∙ mod-double a (2 ^ k) pos in
    omega (arith, bit_and_digit a (2 ^ suc k - 1), rest, two-pow-succ k, split)

-- A mask that stands `k` places up.
pub bit_and-up : (k m a : ℕ) → bit_and a (m * 2 ^ k) ≡ bit_and (a / 2 ^ k) m * 2 ^ k
bit_and-up zero m a = rw (mul-one, mul-one, div-one)
bit_and-up (suc k) m a =
    let twice : m * 2 ^ suc k ≡ 2 * (m * 2 ^ k) =
      omega (arith, ap (λ (t : ℕ). m * t) (two-pow-succ k)) in
    let half : m * 2 ^ suc k / 2 ≡ m * 2 ^ k = omega (arith, twice) in
    let there : a / 2 / 2 ^ k ≡ a / 2 ^ suc k =
      div-div-eq-div-mul a 2 (2 ^ k) ∙ ap (λ (t : ℕ). a / t) (omega (arith, two-pow-succ k)) in
    let rest : bit_and (a / 2) (m * 2 ^ suc k / 2) ≡ bit_and (a / 2 ^ suc k) m * 2 ^ k =
      rw (half, ← there) (bit_and-up k m (a / 2)) in
    omega (
      arith,
      bit_and_digit a (m * 2 ^ suc k),
      rest,
      twice,
      ap (λ (t : ℕ). bit_and (a / 2 ^ suc k) m * t) (two-pow-succ k),
    )
