-- ===== src/Mm/Consistent.antt =====
-- What ties the bitmap of Kernel/src/mm/internal.c to the allocation table of Kernel/src/mm/mm.c,
-- and that taking and releasing pages keeps it.
use wheatley.Common.{
  ℕ, ◌+◌, ◌-◌, ◌^◌, ◌≤◌, ◌<◌, ◌≡◌, sym, ap, ◌≢◌, Bool, true, false, ◌&&◌, arith, ltb, leb,
  if◌then◌else◌, update,
}
use wheatley.Mm.{Alloc, alloc_max_size}

-- Entries start at different pages; the pages of a live entry are taken in the bitmap, and no page
-- belongs to two live entries.
pub record IsConsistent (taken : ℕ → Bool) (allocs : ℕ → Alloc) (count : ℕ) : Type 0 where
  pub room : count ≤ alloc_max_size
  pub small : (i : ℕ) → i < count → (allocs i).page_start < 2 ^ 32
  pub unique :
      (i j : ℕ) → i < count → j < count → (allocs i).page_start ≡ (allocs j).page_start → i ≡ j
  pub held :
      (i k : ℕ)
      → i < count
      → (allocs i).used ≡ true
      → k < (allocs i).page_count
      → taken ((allocs i).page_start + k) ≡ true
  pub apart :
      (i j k l : ℕ)
      → i < count
      → j < count
      → (allocs i).used ≡ true
      → (allocs j).used ≡ true
      → k < (allocs i).page_count
      → l < (allocs j).page_count
      → (allocs i).page_start + k ≡ (allocs j).page_start + l
      → i ≡ j

-- A bitmap with the pages from `page` on set to `v`.
abbrev pub marked : (ℕ → Bool) → Bool → (page count : ℕ) → ℕ → Bool
marked taken v page n q = if leb page q && ltb q (page + n) then v else taken q

abbrev pub entry : (page count : ℕ) → Alloc
entry page n = record { page_start = page; page_count = n; used = true }

-- Entry `i`, old or new, takes `n` free pages from `page` on.
module _ {taken : ℕ → Bool} {allocs : ℕ → Alloc} {count : ℕ} (inv : IsConsistent taken allocs count)
    (i count' page n : ℕ) (below : i < count') (room : count' ≤ alloc_max_size)
    (old : (j : ℕ) → j < count' → j ≢ i → j < count)
    (fresh : (j : ℕ) → j < count → j ≢ i → (allocs j).page_start ≢ page)
    (free : (k : ℕ) → k < n → taken (page + k) ≡ false) (small : page < 2 ^ 32) where
  abbrev allocs' : ℕ → Alloc
  allocs' = update allocs i (entry page n)

  take-small : (j : ℕ) → j < count' → (allocs' j).page_start < 2 ^ 32
  take-small j lt = ground (arith, inv.small j, old j)

  take_unique :
      (a b : ℕ) → a < count' → b < count' → (allocs' a).page_start ≡ (allocs' b).page_start → a ≡ b
  take_unique a b lt_a lt_b e = ground (arith, inv.unique a b, old a, old b, fresh a, fresh b)

  take-held :
      (j k : ℕ)
      → j < count'
      → (allocs' j).used ≡ true
      → k < (allocs' j).page_count
      → marked taken true page n ((allocs' j).page_start + k) ≡ true
  take-held j k lt live in_range = ground (arith, inv.held j k, old j)

  -- A page of the new entry was free, and one of an old entry was not.
  no_overlap :
      (j k l : ℕ)
      → j < count'
      → i ≢ j
      → (allocs j).used ≡ true
      → k < n
      → l < (allocs j).page_count
      → page + k ≢ (allocs j).page_start + l
  no_overlap j k l lt ne live k_lt l_lt e =
      let busy : taken ((allocs j).page_start + l) ≡ true =
        inv.held j l (old j lt (λ q. ne (sym q))) live l_lt in
      cc (free k k_lt, busy, ap taken e)

  take-apart :
      (a b k l : ℕ)
      → a < count'
      → b < count'
      → (allocs' a).used ≡ true
      → (allocs' b).used ≡ true
      → k < (allocs' a).page_count
      → l < (allocs' b).page_count
      → (allocs' a).page_start + k ≡ (allocs' b).page_start + l
      → a ≡ b
  take-apart a b k l lt_a lt_b live_a live_b k_lt l_lt e =
      ground (arith, no_overlap b k l, no_overlap a l k, inv.apart a b k l, old a, old b)

  pub take-IsConsistent : IsConsistent (marked taken true page n) allocs' count'
  take-IsConsistent = record {
    room = room;
    small = take-small;
    unique = take_unique;
    held = take-held;
    apart = take-apart;
  }

-- The live entry `i` gives its pages back.
module _ {taken : ℕ → Bool} {allocs : ℕ → Alloc} {count : ℕ} (inv : IsConsistent taken allocs count)
    (i : ℕ) (below : i < count) (live : (allocs i).used ≡ true) where
  abbrev rest : ℕ → Alloc
  rest = update allocs i (record (allocs i) { used = false })

  abbrev given_back : ℕ → Bool
  given_back = marked taken false (allocs i).page_start (allocs i).page_count

  release-held :
      (j k : ℕ)
      → j < count
      → (rest j).used ≡ true
      → k < (rest j).page_count
      → given_back ((rest j).page_start + k) ≡ true
  release-held j k lt live_j in_range =
      let q : ℕ = (allocs j).page_start + k in
      ground (arith, inv.held j k, inv.apart i j (q - (allocs i).page_start) k)

  pub release-IsConsistent : IsConsistent given_back rest count
  release-IsConsistent = record {
    room = inv.room;
    small = λ j lt. ground (arith, inv.small j);
    unique = λ a b lt_a lt_b e. ground (arith, inv.unique a b);
    held = release-held;
    apart = λ a b k l lt_a lt_b live_a live_b k_lt l_lt e. ground (arith, inv.apart a b k l);
  }
