-- ===== src/Mm/Calls.antt =====
-- The bodies of `kmalloc` and `kfree` of Kernel/src/mm/mm.c, under the lock: what they do to the
-- bitmap, and that bitmap and table stay consistent.
use wheatley.Common.{
  ℕ, zero, suc, ◌+◌, ◌^◌, ◌≤◌, ◌<◌, ◌≡◌, refl, sym, ap, ap₂, ◌∙◌, fun_ext, ◌≢◌, inl, inr, Bool,
  true, false, none, some, arith, Option-cases, update, ◌-◌, ◌*◌, ◌==◌, Bool-cases,
}
use mathlib.Core.Path.{subst₃}
use wheatley.Mm.{
  Mm, Alloc, alloc_max_size, get_page_bit, set_page_bit, clear_page_bit, set_pages, clear_pages,
  find_alloc, claim, set_alloc, take_pages,
}
use wheatley.Mm.PageBits.{get-set_pages, get-clear_pages}
use native.Mathlib.Decide.{dec_lt}
use wheatley.Mm.FirstFit.{Fits}
use wheatley.Mm.Table.{find_alloc-some, find_alloc-none}
use wheatley.Mm.Consistent.{IsConsistent, marked, entry, take-IsConsistent}

-- Bitmap and table agree, and nothing reaches the bitmap's end: its last page is taken, so that a run of free
-- pages ends before it, and is in no live entry. In memory the table stands behind the bitmap.
pub record IsSound (m : Mm) : Type 0 where
  pub agrees : IsConsistent (get_page_bit m) m.allocs m.alloc_count
  pub last : get_page_bit m (m.page_count * 8 - 1) ≡ true
  pub inside :
      (i : ℕ)
      → i < m.alloc_count
      → (m.allocs i).used ≡ true
      → (m.allocs i).page_start + (m.allocs i).page_count < m.page_count * 8

-- A run of free pages ends before the last page.
pub Fits-inside :
    (m : Mm) (n page : ℕ)
    → IsSound m
    → page < m.page_count * 8
    → Fits m n page
    → page + n < m.page_count * 8
Fits-inside m n page inv lt fits = elim (dec_lt (page + n) (m.page_count * 8)) [
  | yes under ↦ under
  | no over ↦
      let k = m.page_count * 8 - 1 - page in
      let at : page + k ≡ m.page_count * 8 - 1 = omega arith in
      let free = fits k (omega arith) in absurd (cc (inv.last, free, ap (get_page_bit m) at))
]

-- The loops write the bitmap and nothing else.
pub set_pages-rest :
    (rounds : ℕ) (m : Mm) (page i : ℕ)
    → set_pages m page i rounds ≡ record m { pages = (set_pages m page i rounds).pages }
unfolding set_pages set_page_bit
set_pages-rest zero m page i = refl
set_pages-rest (suc rounds) m page i =
    set_pages-rest rounds (set_page_bit m (page + i)) page (i + 1)

pub clear_pages-rest :
    (rounds : ℕ) (m : Mm) (page i : ℕ)
    → clear_pages m page i rounds ≡ record m { pages = (clear_pages m page i rounds).pages }
unfolding clear_pages clear_page_bit
clear_pages-rest zero m page i = refl
clear_pages-rest (suc rounds) m page i =
    clear_pages-rest rounds (clear_page_bit m (page + i)) page (i + 1)

set_pages-marked :
    (m : Mm) (page n : ℕ)
    → get_page_bit (set_pages m page 0 n) ≡ marked (get_page_bit m) true page n
set_pages-marked m page n = fun_ext λ q. ground (arith, get-set_pages n m page 0 q)

pub clear_pages-marked :
    (m : Mm) (page n : ℕ)
    → get_page_bit (clear_pages m page 0 n) ≡ marked (get_page_bit m) false page n
clear_pages-marked m page n = fun_ext λ q. ground (arith, get-clear_pages n m page 0 q)

-- The state once entry `i`, old or new, has taken the pages.
abbrev pub after : Mm → (i count page n : ℕ) → Mm
after m i count page n =
    set_pages (record m { allocs = update m.allocs i (entry page n); alloc_count = count }) page 0 n

-- The entry that `take_pages` uses: one that starts at the page, or the first one not in use.
pub record Claimed (m : Mm) (page n : ℕ) : Type 0 where
  pub i : ℕ
  pub count : ℕ
  pub result : take_pages m page n ≡ after m i count page n
  pub below : i < count
  pub at : i < m.alloc_count → (m.allocs i).page_start ≡ page
  pub keeps : m.alloc_count ≤ count
  pub grows : count ≤ m.alloc_count + 1
  pub old : (j : ℕ) → j < count → j ≢ i → j < m.alloc_count
  pub fresh : (j : ℕ) → j < m.alloc_count → j ≢ i → (m.allocs j).page_start ≢ page

module _ (m : Mm) (page n : ℕ) (short : n < 2 ^ 16) (low : page < 2 ^ 32) where
  Claimed-new : m.alloc_count < alloc_max_size → find_alloc m page ≡ none → Claimed m page n
  unfolding take_pages claim set_alloc
  Claimed-new room miss = record {
    i = m.alloc_count;
    count = m.alloc_count + 1;
    result =
        rw (miss, claim)
          (ap₂ (λ a c. set_pages (record m { allocs = a; alloc_count = c }) page 0 n)
            (fun_ext λ j. ground arith) (omega arith));
    below = omega arith;
    at = λ lt. absurd (omega arith);
    keeps = omega arith;
    grows = omega arith;
    old = λ j lt ne. omega arith;
    fresh = λ j lt ne e. ground (arith, find_alloc-none m page miss j);
  }

  Claimed-old :
      ((a b : ℕ)
        → a < m.alloc_count
        → b < m.alloc_count
        → (m.allocs a).page_start ≡ (m.allocs b).page_start
        → a ≡ b)
      → (i : ℕ) → find_alloc m page ≡ some i
      → Claimed m page n
  unfolding take_pages claim set_alloc
  Claimed-old unique i hit =
      let (lt, start) = find_alloc-some m page hit in
      record {
        i = i;
        count = m.alloc_count;
        result =
            rw (hit, claim)
              (ap (λ a. set_pages (record m { allocs = a }) page 0 n) (fun_ext λ j. ground arith));
        below = lt;
        at = λ _. ground arith;
        keeps = omega arith;
        grows = omega arith;
        old = λ j lt ne. lt;
        fresh = λ j lt' ne e. ne (unique j i lt' lt (ground arith));
      }

  pub claimed :
      m.alloc_count < alloc_max_size
      → ((a b : ℕ)
          → a < m.alloc_count
          → b < m.alloc_count
          → (m.allocs a).page_start ≡ (m.allocs b).page_start
          → a ≡ b)
      → Claimed m page n
  claimed room unique = elim (Option-cases (find_alloc m page)) [
    | inl miss ↦ Claimed-new room miss
    | inr (i, hit) ↦ Claimed-old unique i hit
  ]

-- The bitmap and the table of `after`.
after-marked :
    (m : Mm) (i count page n : ℕ)
    → get_page_bit (after m i count page n) ≡ marked (get_page_bit m) true page n
unfolding get_page_bit
after-marked m i count page n = set_pages-marked _ page n

after-rest :
    (m : Mm) (i count page n : ℕ)
    → ((after m i count page n).allocs ≡ update m.allocs i (entry page n))
      × ((after m i count page n).alloc_count ≡ count)
      × ((after m i count page n).page_count ≡ m.page_count)
      × ((after m i count page n).ram ≡ m.ram)
after-rest m i count page n =
    let e =
      set_pages-rest n (record m { allocs = update m.allocs i (entry page n); alloc_count = count })
        page 0 in
    (ap (λ s. s.allocs) e, ap (λ s. s.alloc_count) e, ap (λ s. s.page_count) e, ap (λ s. s.ram) e)

take-inside :
    (m : Mm) (e count page n : ℕ)
    → ((i : ℕ)
        → i < m.alloc_count
        → (m.allocs i).used ≡ true
        → (m.allocs i).page_start + (m.allocs i).page_count < m.page_count * 8)
    → ((j : ℕ) → j < count → j ≢ e → j < m.alloc_count)
    → page + n < m.page_count * 8
    → (allocs : ℕ → Alloc) (new_count size : ℕ) → allocs ≡ update m.allocs e (entry page n)
    → new_count ≡ count
    → size ≡ m.page_count
    → (i : ℕ) → i < new_count
    → (allocs i).used ≡ true
    → (allocs i).page_start + (allocs i).page_count < size * 8
take-inside m e count page n inside old end allocs new_count size same counted sized i below live =
    elim (Bool-cases (e == i)) [
      | inl new ↦
          let at : allocs i ≡ entry page n = ap (λ f. f i) same ∙ rw new refl in
          omega (arith, ap (λ a. a.page_start) at, ap (λ a. a.page_count) at, end, sized)
      | inr kept ↦
          let at : allocs i ≡ m.allocs i = ap (λ f. f i) same ∙ rw kept refl in
          let h =
            inside i (old i (omega (arith, below, counted)) (ground arith))
              (sym (ap (λ a. a.used) at) ∙ live) in
          omega (arith, ap (λ a. a.page_start) at, ap (λ a. a.page_count) at, h, sized)
    ]

-- Taking pages that were free keeps bitmap and table consistent.
pub take_pages-IsSound :
    (m : Mm) (page n : ℕ)
    → IsSound m
    → m.alloc_count < alloc_max_size
    → n < 2 ^ 16
    → page < 2 ^ 32
    → page < m.page_count * 8
    → Fits m n page
    → IsSound (take_pages m page n)
take_pages-IsSound m page n inv room short low lt fits =
    let c = claimed m page n short low room inv.agrees.unique in
    let (allocs_eq, count_eq, same, same_ram) = after-rest m c.i c.count page n in
    let end = Fits-inside m n page inv lt fits in
    rw c.result (record {
      agrees =
          subst₃ IsConsistent (sym (after-marked m c.i c.count page n)) (sym allocs_eq)
            (sym count_eq)
            (take-IsConsistent inv.agrees c.i c.count page n c.below (omega (arith, c.grows)) c.old
              c.fresh (λ k lt. fits k (omega arith)) low);
      last =
          ap (λ s. get_page_bit (after m c.i c.count page n) (s * 8 - 1)) same
          ∙ ap (λ f. f (m.page_count * 8 - 1)) (after-marked m c.i c.count page n)
          ∙ ground (arith, inv.last);
      inside = λ i below live.
          take-inside m c.i c.count page n inv.inside c.old end _ _ _ allocs_eq count_eq same i
            below live;
    })

-- The table has an entry for exactly these pages, in use.
pub record Owns (m : Mm) (page n i : ℕ) : Type 0 where
  pub below : i < m.alloc_count
  pub start : (m.allocs i).page_start ≡ page
  pub size : (m.allocs i).page_count ≡ n
  pub in_use : (m.allocs i).used ≡ true

-- The lock and the contents of the pages are no part of either.
module _ (m : Mm) (l : Bool) (ram : ℕ → ℕ) where
  pub IsSound-with : IsSound m → IsSound (record m { locked = l; ram = ram })
  unfolding get_page_bit
  IsSound-with inv = record {
    agrees = record {
      room = inv.agrees.room;
      small = inv.agrees.small;
      unique = inv.agrees.unique;
      held = inv.agrees.held;
      apart = inv.agrees.apart;
    };
    last = inv.last;
    inside = inv.inside;
  }

  pub Owns-with : (p k j : ℕ) → Owns m p k j → Owns (record m { locked = l; ram = ram }) p k j
  Owns-with p k j o = record { below = o.below; start = o.start; size = o.size; in_use = o.in_use }

module _ (m : Mm) (page n : ℕ) (inv : IsSound m) (room : m.alloc_count < alloc_max_size)
    (short : n < 2 ^ 16) (low : page < 2 ^ 32) where
  pub take_pages-marked : get_page_bit (take_pages m page n) ≡ marked (get_page_bit m) true page n
  take_pages-marked =
      let c = claimed m page n short low room inv.agrees.unique in
      rw c.result (after-marked m c.i c.count page n)

  pub take_pages-Owns : (i : ℕ) × Owns (take_pages m page n) page n i
  take_pages-Owns =
      let c = claimed m page n short low room inv.agrees.unique in
      let (allocs_eq, count_eq, same, same_ram) = after-rest m c.i c.count page n in
      let at : (after m c.i c.count page n).allocs c.i ≡ entry page n =
        ap (λ f. f c.i) allocs_eq ∙ ground (arith, c.below) in
      (
        c.i,
        rw c.result
            (record { below = rw count_eq c.below; start = rw at; size = rw at; in_use = rw at }),
      )

  pub take_pages-grows : (take_pages m page n).alloc_count ≤ m.alloc_count + 1
  take_pages-grows =
      let c = claimed m page n short low room inv.agrees.unique in
      rw c.result (rw (after-rest m c.i c.count page n).1 c.grows)

  pub take_pages-size : (take_pages m page n).page_count ≡ m.page_count
  take_pages-size =
      let c = claimed m page n short low room inv.agrees.unique in
      rw c.result (after-rest m c.i c.count page n).2

  pub take_pages-ram : (take_pages m page n).ram ≡ m.ram
  take_pages-ram =
      let c = claimed m page n short low room inv.agrees.unique in
      rw c.result (after-rest m c.i c.count page n).3

  -- Another entry that holds pages keeps them.
  pub take_pages-others :
      Fits m n page → (p k j : ℕ) → Owns m p k j → 0 < k → Owns (take_pages m page n) p k j
  take_pages-others fits p k j o pos =
      let c = claimed m page n short low room inv.agrees.unique in
      let (allocs_eq, count_eq, same, same_ram) = after-rest m c.i c.count page n in
      let ne : c.i ≢ j = λ e.
        let start : (m.allocs j).page_start ≡ page =
          ap (λ i. (m.allocs i).page_start) (sym e) ∙ c.at (omega (arith, o.below)) in
        ground (
          arith,
          fits 0 (omega arith),
          inv.agrees.held j 0 o.below o.in_use (omega (arith, o.size)),
        ) in
      let kept : (after m c.i c.count page n).allocs j ≡ m.allocs j =
        ap (λ f. f j) allocs_eq ∙ ground arith in
      rw c.result (record {
        below = rw count_eq (omega (arith, o.below, c.keeps));
        start = rw kept o.start;
        size = rw kept o.size;
        in_use = rw kept o.in_use;
      })
