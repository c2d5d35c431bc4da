-- ===== src/Smp/Count.antt =====
-- `ap_startup` of Kernel/src/sys/smp.c: any number of processors count themselves in `aprunning`, and
-- the boot processor reads it, each under `apRunningSpinlock`.
use wheatley.Common.{
  ℕ, zero, suc, ◌+◌, ◌%◌, ◌^◌, ◌≤◌, ◌<◌, ◌≡◌, refl, sym, ap, ◌∙◌, inl, inr, Bool, true, false,
  arith, ◌==◌, if◌then◌else◌, Bool-cases, update,
}
use wheatley.Spinlock.{test_and_set, clear}

-- Where a processor stands in `ap_startup`; `aprunning++` is a read and a write.
pub data Place : Type 0 where
  waiting : Place  -- at `spinlock_wait_and_acquire`
  inside : Place  -- the lock is taken
  loaded : (value : ℕ) → Place
  stored : Place  -- at `spinlock_release`
  finished : Place

pub record Count : Type 0 where
  pub flag : Bool  -- `apRunningSpinlock`
  pub running : ℕ  -- `aprunning`, a uint8_t
  pub place : ℕ → Place

abbrev pub goes : Count → ℕ → Place → Count
goes s i p = record s { place = update s.place i p }

unfoldable pub acquire : Count → ℕ → Count
unfolding test_and_set
acquire s i =
    let (old, flag) = test_and_set s.flag in
    record (goes s i (if old then waiting else inside)) { flag = flag }

unfoldable pub load : Count → ℕ → Count
load s i = goes s i (loaded s.running)

pub store : Count → (i value : ℕ) → Count
store s i value = record (goes s i stored) { running = (value + 1) % 2 ^ 8 }

pub let_go : Count → ℕ → Count
unfolding clear
let_go s i = record (goes s i finished) { flag = clear s.flag }

-- One of the first `n` processors takes its next step.
pub data Turn (n : ℕ) (s : Count) : Count → Type 0 where
  try : (i : ℕ) → i < n → s.place i ≡ waiting → Turn n s (acquire s i)
  read : (i : ℕ) → i < n → s.place i ≡ inside → Turn n s (load s i)
  count : (i value : ℕ) → i < n → s.place i ≡ loaded value → Turn n s (store s i value)
  release : (i : ℕ) → i < n → s.place i ≡ stored → Turn n s (let_go s i)

-- `SPINLOCK_INIT` and `aprunning = 0`, before any processor runs.
abbrev pub at_rest : Count
at_rest = record { flag = false; running = 0; place = λ _. waiting }

pub data Reached (n : ℕ) : Count → Type 0 where
  start : Reached n at_rest
  later : {s t : Count} → Reached n s → Turn n s t → Reached n t

-- Whether the processor has written its sum.
abbrev pub has_counted : Place → Bool
has_counted waiting = false
has_counted inside = false
has_counted (loaded value) = false
has_counted stored = true
has_counted finished = true

-- How many of the first `n` have.
abbrev pub counted : (ℕ → Place) → ℕ → ℕ
counted place zero = 0
counted place (suc n) = (if has_counted (place n) then 1 else 0) + counted place n

-- Whether the processor stands between the acquisition and the release.
abbrev pub holds : Place → Bool
holds waiting = false
holds inside = true
holds (loaded value) = true
holds stored = true
holds finished = false

counted-update_above :
    (place : ℕ → Place) (i n : ℕ) (p : Place)
    → n ≤ i
    → counted (update place i p) n ≡ counted place n
counted-update_above place i zero p le = refl
counted-update_above place i (suc n) p le =
    ground (arith, counted-update_above place i n p (omega arith))

-- A processor whose step leaves its share as it was.
counted-same :
    (place : ℕ → Place) (i n : ℕ) (p : Place)
    → has_counted p ≡ has_counted (place i)
    → counted (update place i p) n ≡ counted place n
counted-same place i zero p e = refl
counted-same place i (suc n) p e = elim (Bool-cases (i == n)) [
  | inl here ↦ ground (arith, counted-same place i n p e)
  | inr other ↦ ground (arith, counted-same place i n p e)
]

counted-more :
    (place : ℕ → Place) (i n : ℕ)
    → i < n
    → has_counted (place i) ≡ false
    → counted (update place i stored) n ≡ counted place n + 1
counted-more place i zero lt e = absurd (omega arith)
counted-more place i (suc n) lt e = elim (Bool-cases (i == n)) [
  | inl here ↦ ground (arith, counted-update_above place i n stored (ground arith))
  | inr other ↦ ground (arith, counted-more place i n (ground arith) e)
]

-- One processor at most is between the acquisition and the release, and then the lock is taken; what
-- it has read is still there; and the sum is the number of those that have written it, in 8 bits.
pub record Counts (n : ℕ) (s : Count) : Type 0 where
  pub one : (i j : ℕ) → holds (s.place i) ≡ true → holds (s.place j) ≡ true → i ≡ j
  pub held : (i : ℕ) → holds (s.place i) ≡ true → s.flag ≡ true
  pub fresh : (i value : ℕ) → s.place i ≡ loaded value → value ≡ s.running
  pub sum : s.running ≡ counted s.place n % 2 ^ 8

not_yet : (flag : Bool) → has_counted (if flag then waiting else inside) ≡ false
not_yet true = refl
not_yet false = refl

acquire-Counts : (n i : ℕ) (s : Count) → s.place i ≡ waiting → Counts n s → Counts n (acquire s i)
unfolding acquire
acquire-Counts n i s at c = record {
  one = λ a b in_a in_b. ground (arith, c.one a b, c.held a, c.held b);
  held = λ a in_a. refl;
  fresh = λ a v e. ground (arith, c.fresh a v);
  sum =
      c.sum
      ∙ ap (λ x. x % 2 ^ 8)
          (sym (
            counted-same s.place i n (if s.flag then waiting else inside)
              (not_yet s.flag ∙ sym (ap has_counted at))));
}

load-Counts : (n i : ℕ) (s : Count) → s.place i ≡ inside → Counts n s → Counts n (load s i)
unfolding load
load-Counts n i s at c = record {
  one = λ a b in_a in_b. ground (arith, c.one a b);
  held = λ a in_a. ground (arith, c.held a);
  fresh = λ a v e. ground (arith, c.fresh a v);
  sum =
      c.sum
      ∙ ap (λ x. x % 2 ^ 8)
          (sym (counted-same s.place i n (loaded s.running) (sym (ap has_counted at))));
}

store-Counts :
    (n i value : ℕ) (s : Count)
    → i < n
    → s.place i ≡ loaded value
    → Counts n s
    → Counts n (store s i value)
unfolding store
store-Counts n i value s lt at c = record {
  one = λ a b in_a in_b. ground (arith, c.one a b);
  held = λ a in_a. ground (arith, c.held a);
  fresh = λ a v e. ground (arith, c.one a i);
  sum = omega (arith, c.fresh i value at, c.sum, counted-more s.place i n lt (ap has_counted at));
}

let_go-Counts : (n i : ℕ) (s : Count) → s.place i ≡ stored → Counts n s → Counts n (let_go s i)
unfolding let_go
let_go-Counts n i s at c = record {
  one = λ a b in_a in_b. ground (arith, c.one a b);
  held = λ a in_a. ground (arith, c.one a i);
  fresh = λ a v e. ground (arith, c.fresh a v);
  sum =
      c.sum
      ∙ ap (λ x. x % 2 ^ 8) (sym (counted-same s.place i n finished (sym (ap has_counted at))));
}

Turn-Counts : {n : ℕ} {s t : Count} → Turn n s t → Counts n s → Counts n t
Turn-Counts {n} {s} (try i lt at) c = acquire-Counts n i s at c
Turn-Counts {n} {s} (read i lt at) c = load-Counts n i s at c
Turn-Counts {n} {s} (count i value lt at) c = store-Counts n i value s lt at c
Turn-Counts {n} {s} (release i lt at) c = let_go-Counts n i s at c

none_counted : (n : ℕ) → counted (λ _. waiting) n ≡ 0
none_counted zero = refl
none_counted (suc n) = omega (arith, none_counted n)

-- In every state that `n` processors reach from `aprunning = 0` and an unlocked lock, one at most is
-- in the critical section, what it has read of `aprunning` is still its value, and `aprunning` is the
-- number of processors that have counted themselves, in 8 bits: no increment is lost.
pub Reached-Counts : {n : ℕ} {s : Count} → Reached n s → Counts n s
Reached-Counts {n} start = record {
  one = λ i j in_i in_j. cc;
  held = λ i in_i. cc;
  fresh = λ i v e. cc e;
  sum = sym (ap (λ x. x % 2 ^ 8) (none_counted n));
}
Reached-Counts (later r t) = Turn-Counts t (Reached-Counts r)

all_counted :
    (place : ℕ → Place) (n : ℕ) → ((i : ℕ) → i < n → place i ≡ finished) → counted place n ≡ n
all_counted place zero at = refl
all_counted place (suc n) at =
    ground (arith, at n (omega arith), all_counted place n (λ i lt. at i (omega arith)))

-- Once `n` processors, fewer than 256, have come through, `aprunning` is their number.
pub running-all :
    (n : ℕ) (s : Count)
    → Reached n s
    → n < 2 ^ 8
    → ((i : ℕ) → i < n → s.place i ≡ finished)
    → s.running ≡ n
running-all n s r few at = omega (arith, (Reached-Counts r).sum, all_counted s.place n at)
