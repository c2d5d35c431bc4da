-- ===== src/Panic/Symbols.antt =====
-- `find_symbol` of Kernel/src/panic.c finds the symbol that an address lies in.
use wheatley.Common.{
  ℕ, zero, suc, ◌≤◌, ◌<◌, ◌≡◌, refl, true, ◌&&◌, Option, none, some, List, [], ◌∷◌, leb, ap,
  get_elem?, arith, Bool-cases, inl, inr,
}
use wheatley.Panic.{Symbol, find_symbol, find_symbol_loop, is_no_worse}

-- Every symbol of the list that starts at or before `rip` starts before `bound`.
abbrev AllBefore : List Symbol → (rip bound : ℕ) → Type 0
AllBefore symbols rip bound =
    (j : ℕ) (t : Symbol) → get_elem? symbols j ≡ some t → t.addr ≤ rip → t.addr < bound

-- The symbol at index `i` starts at or before `rip`; none that does starts later, and none that does
-- and comes later in the list starts there.
pub record IsBest (symbols : List Symbol) (rip i : ℕ) (s : Symbol) : Type 0 where
  pub there : get_elem? symbols i ≡ some s
  pub starts : s.addr ≤ rip
  pub nearest : (j : ℕ) (t : Symbol) → get_elem? symbols j ≡ some t → t.addr ≤ rip → t.addr ≤ s.addr
  pub last :
      (j : ℕ) (t : Symbol) → get_elem? symbols j ≡ some t → t.addr ≤ rip → i < j → t.addr < s.addr

pub data Best (symbols : List Symbol) (rip : ℕ) (r : Option Symbol) : Type 0 where
  no_symbol :
      r ≡ none
      → ((j : ℕ) (t : Symbol) → get_elem? symbols j ≡ some t → rip < t.addr)
      → Best symbols rip r
  best : (i : ℕ) (s : Symbol) → r ≡ some s → IsBest symbols rip i s → Best symbols rip r

-- With a best symbol `b` so far: it stays, or one of the rest takes its place.
data Rest (symbols : List Symbol) (rip : ℕ) (b : Symbol) (r : Option Symbol) : Type 0 where
  stays : r ≡ some b → AllBefore symbols rip b.addr → Rest symbols rip b r
  replaced :
      (i : ℕ) (s : Symbol)
      → r ≡ some s
      → IsBest symbols rip i s
      → b.addr ≤ s.addr
      → Rest symbols rip b r

module _ (ts : List Symbol) (rip : ℕ) (t : Symbol) where
  AllBefore-cons :
      (bound : ℕ)
      → (t.addr ≤ rip → t.addr < bound)
      → AllBefore ts rip bound
      → AllBefore (t ∷ ts) rip bound
  AllBefore-cons bound first others zero u e le =
      let same : t ≡ u = cc e in
      let at = ap (λ s. s.addr) same in omega (arith, at, first (omega (arith, at)))
  AllBefore-cons bound first others (suc j) u e le = others j u e le

  head_nearest :
      AllBefore ts rip t.addr
      → (j : ℕ) (u : Symbol) → get_elem? (t ∷ ts) j ≡ some u
      → u.addr ≤ rip
      → u.addr ≤ t.addr
  head_nearest all zero u e le = let same : t ≡ u = cc e in omega (arith, ap (λ s. s.addr) same)
  head_nearest all (suc j) u e le = omega (arith, all j u e le)

  head_last :
      AllBefore ts rip t.addr
      → (j : ℕ) (u : Symbol) → get_elem? (t ∷ ts) j ≡ some u
      → u.addr ≤ rip
      → 0 < j
      → u.addr < t.addr
  head_last all zero u e le lt = absurd (omega arith)
  head_last all (suc j) u e le lt = all j u e le

  IsBest-head : t.addr ≤ rip → AllBefore ts rip t.addr → IsBest (t ∷ ts) rip 0 t
  IsBest-head le all = record {
    there = refl;
    starts = le;
    nearest = head_nearest all;
    last = head_last all;
  }

  after_cons :
      rip < t.addr
      → ((j : ℕ) (u : Symbol) → get_elem? ts j ≡ some u → rip < u.addr)
      → (j : ℕ) (u : Symbol) → get_elem? (t ∷ ts) j ≡ some u
      → rip < u.addr
  after_cons after all zero u e = let same : t ≡ u = cc e in omega (arith, ap (λ s. s.addr) same)
  after_cons after all (suc j) u e = all j u e

  module _ (i : ℕ) (s : Symbol) where
    cons_nearest :
        (t.addr ≤ rip → t.addr ≤ s.addr)
        → IsBest ts rip i s
        → (j : ℕ) (u : Symbol) → get_elem? (t ∷ ts) j ≡ some u
        → u.addr ≤ rip
        → u.addr ≤ s.addr
    cons_nearest first b zero u e le =
        let same : t ≡ u = cc e in
        let at = ap (λ s. s.addr) same in omega (arith, at, first (omega (arith, at)))
    cons_nearest first b (suc j) u e le = b.nearest j u e le

    cons_last :
        IsBest ts rip i s
        → (j : ℕ) (u : Symbol) → get_elem? (t ∷ ts) j ≡ some u
        → u.addr ≤ rip
        → suc i < j
        → u.addr < s.addr
    cons_last b zero u e le lt = absurd (omega arith)
    cons_last b (suc j) u e le lt = b.last j u e le (omega arith)

    IsBest-cons :
        (t.addr ≤ rip → t.addr ≤ s.addr) → IsBest ts rip i s → IsBest (t ∷ ts) rip (suc i) s
    IsBest-cons first b = record {
      there = b.there;
      starts = b.starts;
      nearest = cons_nearest first b;
      last = cons_last b;
    }

  taken :
      (b : Symbol) (r : Option Symbol)
      → t.addr ≤ rip
      → b.addr ≤ t.addr
      → Rest ts rip t r
      → Rest (t ∷ ts) rip b r
  taken b r le ge (stays e all) = replaced 0 t e (IsBest-head le all) ge
  taken b r le ge (replaced i s e most more) =
      replaced (suc i) s e (IsBest-cons i s (λ _. more) most) (omega arith)

  passed :
      (b : Symbol) (r : Option Symbol)
      → (t.addr ≤ rip → t.addr < b.addr)
      → Rest ts rip b r
      → Rest (t ∷ ts) rip b r
  passed b r before (stays e all) = stays e (AllBefore-cons b.addr before all)
  passed b r before (replaced i s e most more) =
      replaced (suc i) s e (IsBest-cons i s (λ le. omega (arith, before le)) most) more

  first_found : (r : Option Symbol) → t.addr ≤ rip → Rest ts rip t r → Best (t ∷ ts) rip r
  first_found r le (stays e all) = best 0 t e (IsBest-head le all)
  first_found r le (replaced i s e most more) = best (suc i) s e (IsBest-cons i s (λ _. more) most)

  first_passed : (r : Option Symbol) → rip < t.addr → Best ts rip r → Best (t ∷ ts) rip r
  first_passed r after (no_symbol e all) = no_symbol e (after_cons after all)
  first_passed r after (best i s e most) =
      best (suc i) s e (IsBest-cons i s (λ le. absurd (omega arith)) most)

find_symbol_loop-Rest :
    (symbols : List Symbol) (rip : ℕ) (b : Symbol)
    → Rest symbols rip b (find_symbol_loop symbols rip (some b))
unfolding find_symbol_loop is_no_worse
find_symbol_loop-Rest [] rip b = stays refl (λ j t e le. cc e)
find_symbol_loop-Rest (t ∷ ts) rip b = elim (Bool-cases (leb t.addr rip && leb b.addr t.addr)) [
  | inl on ↦
      rw on (taken ts rip t b _ (ground arith) (ground arith) (find_symbol_loop-Rest ts rip t))
  | inr off ↦ rw off (passed ts rip t b _ (λ le. ground arith) (find_symbol_loop-Rest ts rip b))
]

find_symbol_loop-Best :
    (symbols : List Symbol) (rip : ℕ) → Best symbols rip (find_symbol_loop symbols rip none)
unfolding find_symbol_loop is_no_worse
find_symbol_loop-Best [] rip = no_symbol refl (λ j t e. cc e)
find_symbol_loop-Best (t ∷ ts) rip = elim (Bool-cases (leb t.addr rip && true)) [
  | inl on ↦ rw on (first_found ts rip t _ (ground arith) (find_symbol_loop-Rest ts rip t))
  | inr off ↦ rw off (first_passed ts rip t _ (ground arith) (find_symbol_loop-Best ts rip))
]

-- The symbol of an address is the one that starts nearest before or at it, the last in the list if
-- several start there; there is none exactly when every symbol starts after the address.
pub find_symbol-Best :
    (symbols : List Symbol) (rip : ℕ) → Best symbols rip (find_symbol symbols rip)
unfolding find_symbol
find_symbol-Best = find_symbol_loop-Best
