-- ===== src/Mm/FirstFit.antt =====
-- `_mm_find_page` of Kernel/src/mm/mm.c finds the first run of free pages, or there is none.
use wheatley.Common.{
  ℕ, zero, suc, ◌+◌, ◌-◌, ◌*◌, ◌≤◌, ◌<◌, max, ◌≡◌, refl, inl, inr, true, false, arith, Bool-cases,
}
use mathlib.Core.Path.{subst}
use native.Mathlib.Decide.{dec_lt}
use wheatley.Mm.{Mm, get_page_bit, run_is_free, find_page_loop, find_page, no_page}

-- A page from which `len` pages are free. Even for no pages the page itself has to be free.
abbrev pub Fits : Mm → ℕ → ℕ → Type 0
Fits m len page = (k : ℕ) → k < max len 1 → get_page_bit m (page + k) ≡ false

abbrev pub NoFit : Mm → ℕ → (from to : ℕ) → Type 0
NoFit m len from to = (page : ℕ) → from ≤ page → page < to → ¬ Fits m len page

-- The result of a search from `from` up to `to`.
pub data FirstFit (m : Mm) (len from to : ℕ) (result : ℕ) : Type 0 where
  found :
      from ≤ result
      → result < to
      → Fits m len result
      → NoFit m len from result
      → FirstFit m len from to result
  missing : result ≡ no_page → NoFit m len from to → FirstFit m len from to result

run_is_free_sound :
    (rounds : ℕ) (m : Mm) (i j : ℕ)
    → run_is_free m i j rounds ≡ true
    → (k : ℕ) → k < rounds
    → get_page_bit m (i + j + k) ≡ false
unfolding run_is_free
run_is_free_sound zero m i j h k lt = absurd (omega arith)
run_is_free_sound (suc rounds) m i j h zero lt = ground arith
run_is_free_sound (suc rounds) m i j h (suc k) lt =
    ground (arith, run_is_free_sound rounds m i (j + 1) (ground arith) k (omega arith))

run_is_free_complete :
    (rounds : ℕ) (m : Mm) (i j : ℕ)
    → ((k : ℕ) → k < rounds → get_page_bit m (i + j + k) ≡ false)
    → run_is_free m i j rounds ≡ true
unfolding run_is_free
run_is_free_complete zero m i j h = refl
run_is_free_complete (suc rounds) m i j h = ground (
  arith,
  h 0 (omega arith),
  run_is_free_complete rounds m i (j + 1) (λ k lt. ground (arith, h (suc k) (omega arith))),
)

Fits-of_run :
    (m : Mm) (len i : ℕ)
    → get_page_bit m i ≡ false
    → run_is_free m i 1 (len - 1) ≡ true
    → Fits m len i
Fits-of_run m len i free run zero lt = ground arith
Fits-of_run m len i free run (suc k) lt =
    ground (arith, run_is_free_sound (len - 1) m i 1 run k (omega arith))

run_of_Fits : (m : Mm) (len i : ℕ) → Fits m len i → run_is_free m i 1 (len - 1) ≡ true
run_of_Fits m len i fits =
    run_is_free_complete (len - 1) m i 1 (λ k lt. ground (arith, fits (suc k) (omega arith)))

NoFit-cons :
    (m : Mm) (len from to : ℕ) → ¬ Fits m len from → NoFit m len (from + 1) to → NoFit m len from to
NoFit-cons m len from to no_fit later page le lt fits = elim (dec_lt from page) [
  | yes past ↦ later page (omega arith) lt fits
  | no here ↦ let e : page ≡ from = omega arith in no_fit (subst (Fits m len) e fits)
]

-- One page that does not fit is passed over.
skip :
    {m : Mm} {len from to result : ℕ}
    → ¬ Fits m len from
    → FirstFit m len (from + 1) to result
    → FirstFit m len from to result
skip no_fit (found lo hi fits before) =
    found (omega arith) hi fits (NoFit-cons _ _ _ _ no_fit before)
skip no_fit (missing e before) = missing e (NoFit-cons _ _ _ _ no_fit before)

find_page_loop-FirstFit :
    (rounds : ℕ) (m : Mm) (len i : ℕ)
    → FirstFit m len i (i + rounds) (find_page_loop m len i rounds)
unfolding find_page_loop
find_page_loop-FirstFit zero m len i = missing refl (λ page le lt. absurd (omega arith))
find_page_loop-FirstFit (suc rounds) m len i =
    let rest : FirstFit m len (i + 1) (i + suc rounds) (find_page_loop m len (i + 1) rounds) =
      subst (λ to. FirstFit m len (i + 1) to (find_page_loop m len (i + 1) rounds)) (omega arith)
        (find_page_loop-FirstFit rounds m len (i + 1)) in
    elim (Bool-cases (get_page_bit m i)) [
      | inl taken ↦ rw taken (skip (λ fits. ground (arith, fits 0 (omega arith))) rest)
      | inr free ↦ rw free (elim (Bool-cases (run_is_free m i 1 (len - 1))) [
        | inl run ↦ rw run (
            found (omega arith) (omega arith) (Fits-of_run m len i free run)
              (λ page le lt. absurd (omega arith)))
        | inr short ↦ rw short (skip (λ fits. cc (run_of_Fits m len i fits)) rest)
      ])
    ]

-- The search returns the least page in the bitmap from which `len` pages are free, and -1 exactly
-- when there is none.
pub find_page-FirstFit : (m : Mm) (len : ℕ) → FirstFit m len 0 (m.page_count * 8) (find_page m len)
unfolding find_page
find_page-FirstFit m len =
    subst (λ to. FirstFit m len 0 to (find_page_loop m len 0 (m.page_count * 8))) (omega arith)
      (find_page_loop-FirstFit (m.page_count * 8) m len 0)
