-- ===== src/Timer/Sleep.antt =====
-- `hpet_sleep`, `udelay` and `mdelay` of Kernel/src/drivers/timer/hpet.c end, and not too early.
use wheatley.Common.{
  ℕ, zero, suc, ◌+◌, ◌-◌, ◌*◌, ◌/◌, ◌%◌, ◌^◌, ◌≤◌, ◌<◌, ◌≡◌, refl, ap, ◌∙◌, some, ltb, arith,
  Bool-cases, inl, inr,
}
use native.Mathlib.Nat.{mul-le-mul_right, div-mul-le_self, lt-div-mul-add}
use native.Mathlib.Decide.{dec_lt}
use wheatley.Timer.{hpet_time, sleep_loop, hpet_sleep}

-- The read `k` is the first, from `from` on, at which it is `target` or later.
pub record FirstAt (clock : ℕ → ℕ) (multiplier target from k : ℕ) : Type 0 where
  pub after : from ≤ k
  pub reached : target ≤ hpet_time multiplier (clock k)
  pub not_before : (j : ℕ) → from ≤ j → j < k → hpet_time multiplier (clock j) < target

module _ (clock : ℕ → ℕ) (mult target n : ℕ) (reached : target ≤ hpet_time mult (clock n)) where
  not_yet : (from : ℕ) → from ≤ n → hpet_time mult (clock from) < target → from + 1 ≤ n
  not_yet from le early = elim (dec_lt from n) [
    | yes lt ↦ omega arith
    | no ge ↦
        let e : from ≡ n = omega arith in
        absurd (omega (arith, reached, ap (λ k. hpet_time mult (clock k)) e))
  ]

  earlier :
      (from k : ℕ)
      → hpet_time mult (clock from) < target
      → FirstAt clock mult target (from + 1) k
      → FirstAt clock mult target from k
  earlier from k early f = record {
    after = omega (arith, f.after);
    reached = f.reached;
    not_before = λ j ge lt. elim (dec_lt from j) [
      | yes past ↦ f.not_before j (omega arith) lt
      | no here ↦
          let e : from ≡ j = omega arith in
          omega (arith, early, ap (λ k. hpet_time mult (clock k)) e)
    ];
  }

  sleep_loop-FirstAt :
      (fuel from : ℕ)
      → from ≤ n
      → n < from + fuel
      → (k : ℕ) × (sleep_loop clock mult target from fuel ≡ some k)
        × FirstAt clock mult target from k
  unfolding sleep_loop
  sleep_loop-FirstAt zero from le enough = absurd (omega arith)
  sleep_loop-FirstAt (suc fuel) from le enough =
      elim (Bool-cases (ltb (hpet_time mult (clock from)) target)) [
        | inl early ↦
            let later : from + 1 ≤ n = not_yet from le (ground arith) in
            let (k, e, f) = sleep_loop-FirstAt fuel (from + 1) later (omega arith) in
            (k, rw early e, earlier from k (ground arith) f)
        | inr late ↦ (
          from,
          rw late refl,
          record {
            after = omega arith;
            reached = ground arith;
            not_before = λ j ge lt. absurd (omega arith);
          },
        )
      ]

-- The counter has gone on by more ticks than `ns - 1` units of `mult` ticks have.
ticks_between :
    (mult ns c d : ℕ) → 0 < mult → 0 < ns → c / mult + ns ≤ d / mult → c + (ns - 1) * mult < d
ticks_between mult ns c d pos some_time le =
    let one_less : c / mult + ns ≡ c / mult + (ns - 1) + 1 = omega arith in
    let product : (c / mult + ns) * mult ≡ c / mult * mult + (ns - 1) * mult + mult =
      ap (λ x. x * mult) one_less ∙ omega arith in
    omega
      (arith, lt-div-mul-add {a = c} pos, mul-le-mul_right mult le, product, div-mul-le_self d mult)

-- A sleep of some time whose end is in 64 bits and which the counter reaches at some later read ends,
-- with as many rounds as fuel, at the first such read; by then the counter has gone on by more than
-- `ns - 1` units of `mult` ticks.
pub hpet_sleep-FirstAt :
    (clock : ℕ → ℕ) (mult ns n : ℕ)
    → 0 < mult
    → 0 < ns
    → hpet_time mult (clock 0) + ns < 2 ^ 64
    → 0 < n
    → hpet_time mult (clock 0) + ns ≤ hpet_time mult (clock n)
    → (k : ℕ) × (hpet_sleep clock mult ns n ≡ some k)
      × FirstAt clock mult (hpet_time mult (clock 0) + ns) 1 k
      × (clock 0 + (ns - 1) * mult < clock k)
unfolding hpet_sleep hpet_time
hpet_sleep-FirstAt clock mult ns n ticking some_time fits pos reached =
    let target = hpet_time mult (clock 0) + ns in
    let flat : target % 2 ^ 64 ≡ target = omega arith in
    let (k, e, f) = sleep_loop-FirstAt clock mult target n reached n 1 pos (omega arith) in
    (k, rw flat e, f, ticks_between mult ns (clock 0) (clock k) ticking some_time f.reached)
