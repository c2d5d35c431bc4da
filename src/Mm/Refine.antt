-- ===== src/Mm/Refine.antt =====
-- `kmalloc` and `kfree` of Kernel/src/mm/mm.c keep the promise of the pool for every program.
use wheatley.Common.{
  ℕ, zero, suc, ◌+◌, ◌*◌, ◌/◌, ◌^◌, ◌≤◌, ◌<◌, ◌≡◌, refl, sym, ap, ◌∙◌, ◌≢◌, ◌⊎◌, inl, inr, true,
  false, arith, ◌==◌, Bool-cases, update,
}
use wheatley.Mm.{Mm, ok, alloc_max_size, get_page_bit, pages_for, kmalloc, kfree, and_then}
use wheatley.Mm.Consistent.{marked}
use wheatley.Mm.Calls.{IsSound, Owns}
use wheatley.Mm.Kmalloc.{Allocated, Kmalloc, allocated, out_of_memory, kmalloc-Kmalloc}
use wheatley.Mm.Kfree.{Freed, kfree-Freed}
use wheatley.Mm.Pool.{
  Pool, take, give_back, AreFree, Client, done, alloc, free, run, Runs, stop, takes, refuses,
  gives_back, Behaves, stops, asks, frees,
}

-- The allocator stands for the pool: same pages taken, and an entry of the table for every block.
pub record Represents (m : Mm) (s : Pool) : Type 0 where
  pub sound : IsSound m
  pub idle : m.locked ≡ false
  pub bits : get_page_bit m ≡ s.taken
  pub blocks : (page : ℕ) → 0 < s.blocks page → (i : ℕ) × Owns m page (s.blocks page) i

-- A map changed at one place, seen at that place and at the others.
update_case :
    (f : ℕ → ℕ) (i v j : ℕ) → ((i ≡ j) × (update f i v j ≡ v)) ⊎ ((i ≢ j) × (update f i v j ≡ f j))
update_case f i v j = elim (Bool-cases (i == j)) [
  | inl e ↦ inl (ground arith, ground arith)
  | inr e ↦ inr (ground arith, ground arith)
]

take-blocks :
    (m m' : Mm) (s : Pool) (page n p : ℕ)
    → Represents m s
    → Allocated m m' page n
    → 0 < (take s page n).blocks p
    → (i : ℕ) × Owns m' p ((take s page n).blocks p) i
take-blocks m m' s page n p r a some_pages = elim (update_case s.blocks page n p) [
  | inl (here, e) ↦ rw (e, sym here) a.owned
  | inr (ne, e) ↦
      let (i, o) = r.blocks p (rw (sym e) some_pages) in
      (i, rw e (a.others p (s.blocks p) i o (rw (sym e) some_pages)))
]

take-Represents :
    (m m' : Mm) (s : Pool) (page n : ℕ)
    → Represents m s
    → Allocated m m' page n
    → Represents m' (take s page n)
take-Represents m m' s page n r a = record {
  sound = a.sound;
  idle = a.unlocked;
  bits = a.taken ∙ ap (λ t. marked t true page n) r.bits;
  blocks = λ p some_pages. take-blocks m m' s page n p r a some_pages;
}

-- Blocks that start at different pages are held by different entries.
give_back-blocks :
    (m m' : Mm) (s : Pool) (page i p : ℕ)
    → Represents m s
    → Owns m page (s.blocks page) i
    → Freed m m' page (s.blocks page) i
    → 0 < (give_back s page).blocks p
    → (j : ℕ) × Owns m' p ((give_back s page).blocks p) j
give_back-blocks m m' s page i p r o f some_pages = elim (update_case s.blocks page 0 p) [
  | inl (here, e) ↦ absurd (omega (arith, e, some_pages))
  | inr (ne, e) ↦
      let (j, q) = r.blocks p (rw (sym e) some_pages) in
      let other : j ≢ i =
        λ same. ne (sym o.start ∙ ap (λ x. (m.allocs x).page_start) (sym same) ∙ q.start) in
      (j, rw e (f.others p (s.blocks p) j q other))
]

give_back-Represents :
    (m m' : Mm) (s : Pool) (page i : ℕ)
    → Represents m s
    → Owns m page (s.blocks page) i
    → Freed m m' page (s.blocks page) i
    → Represents m' (give_back s page)
give_back-Represents m m' s page i r o f = record {
  sound = f.sound;
  idle = f.unlocked;
  bits = f.given_back ∙ ap (λ t. marked t false page (s.blocks page)) r.bits;
  blocks = λ p some_pages. give_back-blocks m m' s page i p r o f some_pages;
}

-- How the program ends: it returns, and the pool went the same way.
abbrev pub Refines : ℕ → Mm → Pool → Client → Type 0
Refines size m s c =
    (m' : Mm) × (t : Pool) × (run c m ≡ ok tt m') × Represents m' t × Runs size s c t

-- The allocator may be asked for `n` more blocks.
pub record HasRoom (size n : ℕ) (m : Mm) : Type 0 where
  pub room : m.alloc_count + n ≤ alloc_max_size
  pub whole : m.page_count * 8 ≡ size
  pub few : size < 2 ^ 31

after_alloc :
    (m m' : Mm) (len buf : ℕ) (k : ℕ → Client)
    → kmalloc m len ≡ ok buf m'
    → run (alloc len k) m ≡ run (k buf) m'
unfolding run
after_alloc m m' len buf k e = ap (λ o. and_then o λ b x. run (k b) x) e

after_free :
    (m m' : Mm) (buf : ℕ) (c : Client) → kfree m buf ≡ ok tt m' → run (free buf c) m ≡ run c m'
unfolding run
after_free m m' buf c e = ap (λ o. and_then o λ _ x. run c x) e

-- A request, from what the program does with either answer.
alloc-Refines :
    (size n : ℕ) (m : Mm) (s : Pool) (len : ℕ) (k : ℕ → Client)
    → Represents m s
    → HasRoom size (suc n) m
    → Kmalloc m (pages_for len) (kmalloc m len)
    → ((page : ℕ) (m' : Mm)
        → AreFree s page (pages_for len)
        → Represents m' (take s page (pages_for len))
        → HasRoom size n m'
        → Refines size m' (take s page (pages_for len)) (k (page * 4096)))
    → (HasRoom size n m → Refines size m s (k 0))
    → Refines size m s (alloc len k)
alloc-Refines size n m s len k r h (allocated page m' e a) next null =
    let were_free : AreFree s page (pages_for len) =
      λ i lt. sym (ap (λ b. b (page + i)) r.bits) ∙ a.were_free i lt in
    let (m'', t, q, r', steps) =
      next page m' were_free (take-Represents m m' s page (pages_for len) r a) (record {
        room = omega (arith, a.grows, h.room);
        whole = ap (λ x. x * 8) a.same_size ∙ h.whole;
        few = h.few;
      }) in
    (
      m'',
      t,
      after_alloc m m' len (page * 4096) k e ∙ q,
      r',
      takes len page (omega (arith, a.in_bitmap, h.whole)) were_free steps,
    )
alloc-Refines size n m s len k r h (out_of_memory e none_fits) next null =
    let (m'', t, q, r', steps) =
      null (record { room = omega (arith, h.room); whole = h.whole; few = h.few }) in
    (
      m'',
      t,
      after_alloc m m len 0 k e ∙ q,
      r',
      refuses len
          (λ page lt fits.
            none_fits page (omega arith) (omega (arith, h.whole))
              (λ i below. ap (λ b. b (page + i)) r.bits ∙ fits i below))
          steps,
    )

free-Refines :
    (size n : ℕ) (m : Mm) (s : Pool) (buf : ℕ) (c : Client)
    → Represents m s
    → HasRoom size n m
    → 0 < s.blocks (buf / 4096)
    → ((m' : Mm)
        → Represents m' (give_back s (buf / 4096))
        → HasRoom size n m'
        → Refines size m' (give_back s (buf / 4096)) c)
    → Refines size m s (free buf c)
free-Refines size n m s buf c r h live next =
    let page = buf / 4096 in
    let (i, o) = r.blocks page live in
    let (m', e, f) = kfree-Freed m buf page (s.blocks page) i r.sound r.idle o refl in
    let (m'', t, q, r', steps) = next m' (give_back-Represents m m' s page i r o f) (record {
      room = omega (arith, f.same_count, h.room);
      whole = ap (λ x. x * 8) f.same_size ∙ h.whole;
      few = h.few;
    }) in
    (m'', t, after_free m m' buf c e ∙ q, r', gives_back buf live steps)

-- In an allocator of fewer than 2^31 pages that stands for a pool and has `n` entries left in its
-- table, every program that asks for at most `n` blocks of 1 to 65535 pages and frees only live
-- blocks returns: no call panics or waits for ever, each answer is one that the pool allows, and at
-- the end the allocator stands for the pool that these answers lead to.
pub run-Refines :
    (size n : ℕ) (m : Mm) (s : Pool) (c : Client)
    → Represents m s
    → HasRoom size n m
    → Behaves n s c
    → Refines size m s c
unfolding run
run-Refines size n m s done r h stops = (m, s, refl, r, stop)
run-Refines size zero m s (alloc len k) r h b = elim b [ ]
run-Refines size (suc n) m s (alloc _ k) r h (asks len some_pages short next null) =
    alloc-Refines size n m s len k r h
      (kmalloc-Kmalloc m len r.sound r.idle (omega (arith, h.room)) (omega (arith, h.whole, h.few))
        short)
      (λ page m' were_free r' h'.
        run-Refines size n m' (take s page (pages_for len)) (k (page * 4096)) r' h'
          (next page were_free))
      (λ h'. run-Refines size n m s (k 0) r h' null)
run-Refines size n m s (free _ c) r h (frees buf live next) =
    free-Refines size n m s buf c r h live
      (λ m' r' h'. run-Refines size n m' (give_back s (buf / 4096)) c r' h' next)
