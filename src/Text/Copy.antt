-- ===== src/Text/Copy.antt =====
-- What `strlen` and `strcpy` of Kernel/src/string.c do with a string in memory.
use wheatley.Common.{
  ℕ, zero, suc, ◌+◌, ◌-◌, ◌≤◌, ◌<◌, ◌≡◌, ◌≢◌, ◌⊎◌, inl, inr, refl, sym, ap, ◌∙◌, some, false, ◌==◌,
  update, arith,
}
use wheatley.Text.{strlen_loop, strlen, memcpy, strcpy}

-- A string of `n` characters at `str`: the first 0 is behind them.
pub record IsString (mem : ℕ → ℕ) (str n : ℕ) : Type 0 where
  pub terminated : mem (str + n) ≡ 0
  pub before : (i : ℕ) → i < n → mem (str + i) ≢ 0

strlen_loop-ends :
    (mem : ℕ → ℕ) (fuel s n : ℕ)
    → IsString mem s n
    → n < fuel
    → strlen_loop mem s fuel ≡ some (s + n)
unfolding strlen_loop
strlen_loop-ends mem zero s n string lt = absurd (omega arith)
strlen_loop-ends mem (suc fuel) s zero string lt = ground (arith, string.terminated)
strlen_loop-ends mem (suc fuel) s (suc n) string lt =
    let rest =
      strlen_loop-ends mem fuel (s + 1) n
        (record {
          terminated = ground (arith, string.terminated);
          before = λ i below. ground (arith, string.before (suc i));
        })
        (omega arith) in
    ground (arith, rest, string.before 0 (omega arith))

-- A string's length is the number of its characters, with more fuel than these.
strlen-length :
    (mem : ℕ → ℕ) (fuel str n : ℕ) → IsString mem str n → n < fuel → strlen mem str fuel ≡ some n
unfolding strlen
strlen-length mem fuel str n string lt =
    let same : str + n - str ≡ n = omega arith in
    rw (strlen_loop-ends mem fuel str n string lt, same, strlen)

pub memcpy-outside :
    (mem : ℕ → ℕ) (dest source n x : ℕ)
    → x < dest ⊎ dest + n ≤ x
    → memcpy mem dest source n x ≡ mem x
unfolding memcpy
memcpy-outside mem dest source zero x out = refl
memcpy-outside mem dest source (suc n) x out =
    memcpy-outside (update mem dest (mem source)) (dest + 1) (source + 1) n x
      (elim out [ inl l ↦ inl (omega arith) | inr l ↦ inr (omega arith) ])
    ∙ ground arith

-- A copy to lower addresses, or to behind its source, is of the bytes that were there.
pub memcpy-inside :
    (mem : ℕ → ℕ) (dest source n i : ℕ)
    → dest ≤ source ⊎ source + n ≤ dest
    → i < n
    → memcpy mem dest source n (dest + i) ≡ mem (source + i)
unfolding memcpy
memcpy-inside mem dest source zero i apart lt = absurd (omega arith)
memcpy-inside mem dest source (suc n) zero apart lt =
    memcpy-outside (update mem dest (mem source)) (dest + 1) (source + 1) n (dest + 0)
      (inl (omega arith))
    ∙ ground arith
memcpy-inside mem dest source (suc n) (suc i) apart lt =
    let at : dest + suc i ≡ dest + 1 + i = omega arith in
    let from : source + suc i ≡ source + 1 + i = omega arith in
    let other : (dest == source + 1 + i) ≡ false = elim apart [
      | inl l ↦ ground arith
      | inr l ↦ ground arith
    ] in
    let rest =
      memcpy-inside (update mem dest (mem source)) (dest + 1) (source + 1) n i
        (elim apart [ inl l ↦ inl (omega arith) | inr l ↦ inr (omega arith) ]) (omega arith) in
    ap (memcpy mem dest source (suc n)) at ∙ rest ∙ ground (arith, other) ∙ sym (ap mem from)

-- What `strcpy` leaves of a string of `n` characters.
pub record Copied (mem mem' : ℕ → ℕ) (dest source n : ℕ) : Type 0 where
  pub characters : (i : ℕ) → i < n → mem' (dest + i) ≡ mem (source + i)
  pub elsewhere : (x : ℕ) → x < dest ⊎ dest + n ≤ x → mem' x ≡ mem x

-- `strcpy` of a string, to a lower address or to behind its characters, returns, with more fuel than the
-- string has characters: the characters are at the destination, and every other byte, the one behind
-- them included, is as it was.
pub strcpy-Copied :
    (mem : ℕ → ℕ) (fuel dest source n : ℕ)
    → IsString mem source n
    → n < fuel
    → dest ≤ source ⊎ source + n ≤ dest
    → (mem' : ℕ → ℕ) × (strcpy mem dest source fuel ≡ some mem') × Copied mem mem' dest source n
unfolding strcpy
strcpy-Copied mem fuel dest source n string lt apart = (
  memcpy mem dest source n,
  rw (strlen-length mem fuel source n string lt, strcpy),
  record {
    characters = λ i below. memcpy-inside mem dest source n i apart below;
    elsewhere = λ x out. memcpy-outside mem dest source n x out;
  },
)
