-- ===== src/Pci/Disjoint.antt =====
-- Fields of a word that do not overlap: their disjunction is their sum.
use wheatley.Common.{
  ℕ, zero, suc, ◌+◌, ◌*◌, ◌/◌, ◌^◌, ◌<◌, ◌≡◌, refl, ap, ◌∙◌, bit_or, bit_or_digit, arith,
}
use native.Mathlib.Nat.{two-pow-succ}

double-shift : (k x : ℕ) → x * 2 ^ suc k ≡ x * 2 ^ k * 2
double-shift k x = ap (λ y. x * y) (two-pow-succ k) ∙ omega arith

bit_or-zero : (n a : ℕ) → a < suc n → bit_or a 0 ≡ a
bit_or-zero zero a lt = let e : a ≡ 0 = omega arith in rw e refl
bit_or-zero (suc n) a lt = omega (arith, bit_or_digit a 0, bit_or-zero n (a / 2) (omega arith))

pub bit_or-disjoint : (k a b : ℕ) → b < 2 ^ k → bit_or (a * 2 ^ k) b ≡ a * 2 ^ k + b
bit_or-disjoint zero a b lt =
    let e : b ≡ 0 = omega arith in
    ap (λ x. bit_or (a * 2 ^ 0) x) e
    ∙ bit_or-zero (a * 2 ^ 0) (a * 2 ^ 0) (omega arith)
    ∙ omega arith
bit_or-disjoint (suc k) a b lt =
    let e = double-shift k a in
    let half : a * 2 ^ suc k / 2 ≡ a * 2 ^ k = omega (arith, e) in
    let rest = bit_or-disjoint k a (b / 2) (omega (arith, two-pow-succ k)) in
    bit_or_digit (a * 2 ^ suc k) b ∙ omega (arith, ap (λ x. bit_or x (b / 2)) half, rest, e)
