-- ===== src/Compare/Equal.antt =====
-- The two comparisons of the boot loader, in Bootloader/src/main.c and Bootloader/src/helpers.c, agree.
use wheatley.Common.{
  ℕ, zero, suc, ◌+◌, ◌<◌, ◌≤◌, ◌≡◌, ◌↔◌, refl, sym, ap, ap₂, ◌∙◌, arith, Bool, true, false, ltb,
  ◌==◌, if◌then◌else◌, pos, negsuc, Bool-cases, inl, inr,
}
use wheatley.Compare.{my_memcmp, my_memcmp_loop, is_zero, guid_matches, memcmp, memcmp_loop}

module _ (mem : ℕ → ℕ) where
  abbrev pub Same : (a b n : ℕ) → Type 0
  Same a b n = (k : ℕ) → k < n → mem (a + k) ≡ mem (b + k)

  is_zero_if : (b : Bool) → is_zero (if b then pos 1 else negsuc 0) ≡ false
  unfolding is_zero
  is_zero_if true = refl
  is_zero_if false = refl

  loops-agree :
      (rounds a b i : ℕ)
      → is_zero (my_memcmp_loop mem (a + i) (b + i) rounds) ≡ memcmp_loop mem a b i rounds
  unfolding my_memcmp_loop memcmp_loop is_zero
  loops-agree zero a b i = refl
  loops-agree (suc rounds) a b i = elim (Bool-cases (mem (a + i) == mem (b + i))) [
    | inl on ↦
        let p : a + i + 1 ≡ a + (i + 1) = omega arith in
        let q : b + i + 1 ≡ b + (i + 1) = omega arith in
        rw (on, p, q) (loops-agree rounds a b (i + 1))
    | inr off ↦ rw off (is_zero_if (ltb (mem (b + i)) (mem (a + i))))
  ]

  memcmp_loop-true :
      (rounds a b i : ℕ)
      → ((k : ℕ) → i ≤ k → k < i + rounds → mem (a + k) ≡ mem (b + k))
      → memcmp_loop mem a b i rounds ≡ true
  unfolding memcmp_loop
  memcmp_loop-true zero a b i same = refl
  memcmp_loop-true (suc rounds) a b i same = ground (
    arith,
    same i (omega arith) (omega arith),
    memcmp_loop-true rounds a b (i + 1) (λ k ge lt. same k (omega arith) (omega arith)),
  )

  same-memcmp_loop :
      (rounds a b i : ℕ)
      → memcmp_loop mem a b i rounds ≡ true
      → (k : ℕ) → k < rounds
      → mem (a + (i + k)) ≡ mem (b + (i + k))
  unfolding memcmp_loop
  same-memcmp_loop zero a b i e k lt = absurd (omega arith)
  same-memcmp_loop (suc rounds) a b i e zero lt =
      let at : i + 0 ≡ i = omega arith in rw at (ground arith)
  same-memcmp_loop (suc rounds) a b i e (suc k) lt =
      let at : i + suc k ≡ i + 1 + k = omega arith in
      rw at (same-memcmp_loop rounds a b (i + 1) (ground arith) k (omega arith))

  -- `memcmp` of helpers.c holds exactly of two places with the same bytes.
  pub memcmp-Same : (a b n : ℕ) → (memcmp mem a b n ≡ true) ↔ Same a b n
  unfolding memcmp
  memcmp-Same a b n = (
    (λ e k lt.
        let at : 0 + k ≡ k = omega arith in
        ap (λ i. mem (a + i)) (sym at)
        ∙ same-memcmp_loop n a b 0 e k lt
        ∙ ap (λ i. mem (b + i)) at),
    (λ same. memcmp_loop-true n a b 0 (λ k ge lt. same k (omega arith))),
  )

  -- Two GUIDs match exactly if `memcmp` of helpers.c holds of their 16 bytes, whether they are in one
  -- place or in two.
  pub guid_matches-memcmp : (a b : ℕ) → guid_matches mem a b ≡ memcmp mem a b 16
  unfolding guid_matches memcmp my_memcmp is_zero
  guid_matches-memcmp a b = elim (Bool-cases (a == b)) [
    | inl on ↦
        let e : a ≡ b = ground arith in
        rw on (sym (memcmp_loop-true 16 a b 0 (λ k ge lt. ap (λ x. mem (x + k)) e)))
    | inr off ↦
        let p : a + 0 ≡ a = omega arith in
        let q : b + 0 ≡ b = omega arith in
        rw off
          (ap₂ (λ x y. is_zero (my_memcmp_loop mem x y 16)) (sym p) (sym q) ∙ loops-agree 16 a b 0)
  ]
