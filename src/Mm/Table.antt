-- ===== src/Mm/Table.antt =====
-- `_mm_find_alloc` of Kernel/src/mm/mm.c: the search of the allocation table.
use wheatley.Common.{
  ℕ, zero, suc, ◌+◌, ◌%◌, ◌^◌, ◌≤◌, ◌<◌, ◌≡◌, sym, ap, ◌∙◌, ◌≢◌, inl, inr, none, some, arith, ◌==◌,
  Bool-cases, Option-cases,
}
use native.Mathlib.Decide.{dec_lt}
use wheatley.Mm.{Mm, find_alloc_loop, find_alloc}

find_alloc_loop-some :
    (rounds : ℕ) (m : Mm) (p i : ℕ) {j : ℕ}
    → find_alloc_loop m p i rounds ≡ some j
    → (i ≤ j) × (j < i + rounds) × ((m.allocs j).page_start ≡ p)
unfolding find_alloc_loop
find_alloc_loop-some zero m p i h = cc
find_alloc_loop-some (suc rounds) m p i {j} h = elim (Bool-cases ((m.allocs i).page_start == p)) [
  | inl here ↦ let e : i ≡ j = ground arith in ground arith
  | inr there ↦
      let (lo, hi, start) = find_alloc_loop-some rounds m p (i + 1) {j = j} (ground arith) in
      (omega arith, omega arith, start)
]

find_alloc_loop-none :
    (rounds : ℕ) (m : Mm) (p i : ℕ)
    → find_alloc_loop m p i rounds ≡ none
    → (j : ℕ) → i ≤ j
    → j < i + rounds
    → (m.allocs j).page_start ≢ p
unfolding find_alloc_loop
find_alloc_loop-none zero m p i h j lo hi e = absurd (omega arith)
find_alloc_loop-none (suc rounds) m p i h j lo hi e = elim (dec_lt i j) [
  | yes past ↦
      find_alloc_loop-none rounds m p (i + 1) (ground arith) j (omega arith) (omega arith) e
  | no here ↦ let at : i ≡ j = omega arith in ground arith
]

-- A hit is an entry in use by the table with the page, truncated to 32 bits, as its start.
pub find_alloc-some :
    (m : Mm) (page : ℕ) {j : ℕ}
    → find_alloc m page ≡ some j
    → (j < m.alloc_count) × ((m.allocs j).page_start ≡ page % 2 ^ 32)
unfolding find_alloc
find_alloc-some m page h =
    let (lo, hi, start) = find_alloc_loop-some m.alloc_count m (page % 2 ^ 32) 0 h in
    (omega arith, start)

pub find_alloc-none :
    (m : Mm) (page : ℕ)
    → find_alloc m page ≡ none
    → (j : ℕ) → j < m.alloc_count
    → (m.allocs j).page_start ≢ page % 2 ^ 32
unfolding find_alloc
find_alloc-none m page h j lt =
    find_alloc_loop-none m.alloc_count m (page % 2 ^ 32) 0 h j (omega arith) (omega arith)

-- In a table where no two entries start alike, an entry is found by its start.
pub find_alloc-start :
    (m : Mm) (i page : ℕ)
    → ((a b : ℕ)
        → a < m.alloc_count
        → b < m.alloc_count
        → (m.allocs a).page_start ≡ (m.allocs b).page_start
        → a ≡ b)
    → i < m.alloc_count
    → (m.allocs i).page_start ≡ page % 2 ^ 32
    → find_alloc m page ≡ some i
find_alloc-start m i page unique lt start = elim (Option-cases (find_alloc m page)) [
  | inl miss ↦ absurd (find_alloc-none m page miss i lt start)
  | inr (j, hit) ↦
      let (lt', start') = find_alloc-some m page hit in
      hit ∙ ap some (unique j i lt' lt (start' ∙ sym start))
]
