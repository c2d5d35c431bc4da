-- ===== src/Paging/Kernel.antt =====
-- `kmalloc(4096)` of Kernel/src/mm/mm.c as the source of pages of Kernel/src/mm/vmm.c.
use wheatley.Common.{
  ℕ, suc, ◌+◌, ◌*◌, ◌/◌, ◌%◌, ◌^◌, ◌≤◌, ◌<◌, ◌≡◌, sym, ap, ◌∙◌, ◌≢◌, true, false, Option, none,
  some, arith,
}
use mathlib.Core.Path.{subst}
use native.Mathlib.Decide.{dec_lt}
use wheatley.Mm.{Mm, Outcome, ok, panic, hang, alloc_max_size, kmalloc, get_page_bit}
use wheatley.Mm.FirstFit.{NoFit}
use wheatley.Mm.Calls.{IsSound, Owns}
use wheatley.Mm.Kmalloc.{Allocated, Kmalloc, allocated, out_of_memory, kmalloc-Kmalloc}
use wheatley.Paging.{PageSource, Gives}

pub returned : Outcome ℕ → Option (ℕ × Mm)
returned (ok a m) = some (a, m)
returned (panic reason m) = none
returned hang = none

pub alloc_page : Mm → Option (ℕ × Mm)
alloc_page m = returned (kmalloc m 4096)

-- The address of a page that the allocation table holds for one caller.
pub record OwnsPage (m : Mm) (a : ℕ) : Type 0 where
  pub holder : (i : ℕ) × Owns m (a / 4096) 1 i
  pub aligned : a % 4096 ≡ 0
  pub pos : 0 < a
  pub word : a < 2 ^ 64

-- The allocator may be asked for `n` more pages.
pub record IsReady (n : ℕ) (m : Mm) : Type 0 where
  pub sound : IsSound m
  pub idle : m.locked ≡ false
  pub room : m.alloc_count + n ≤ alloc_max_size
  pub few : m.page_count * 8 < 2 ^ 31
  pub null_taken : get_page_bit m 0 ≡ true
  pub start : ℕ
  pub in_bits : start + n ≤ m.page_count * 8
  pub run : (k : ℕ) → k < n → get_page_bit m (start + k) ≡ false

-- The run is left when fewer pages are asked for.
pub fewer : (n : ℕ) (m : Mm) → IsReady (suc n) m → IsReady n m
fewer n m r = record {
  sound = r.sound;
  idle = r.idle;
  room = omega (arith, r.room);
  few = r.few;
  null_taken = r.null_taken;
  start = r.start;
  in_bits = omega (arith, r.in_bits);
  run = λ k lt. r.run k (omega arith);
}

-- A block of `n` pages, at least one, comes from the start of the run or before it.
pub Allocated-IsReady :
    (t n size : ℕ) (m m' : Mm) (page : ℕ)
    → t ≡ suc (size + n)
    → IsReady t m
    → Allocated m m' page (suc size)
    → (page ≢ 0) × IsReady n m'
Allocated-IsReady t n size m m' page total r a = (
  λ z. cc (r.null_taken, a.were_free 0 (omega arith), ap (λ p. get_page_bit m (p + 0)) z),
  record {
    sound = a.sound;
    idle = a.unlocked;
    room = omega (arith, a.grows, r.room);
    few = omega (arith, a.same_size, r.few);
    null_taken = ap (λ f. f 0) a.taken ∙ ground (arith, r.null_taken);
    start = r.start + suc size;
    in_bits = omega (arith, r.in_bits, a.same_size);
    run = λ k lt.
        let before : page ≤ r.start = elim (dec_lt r.start page) [
          | yes under ↦
              absurd (a.first r.start (omega arith) under (λ j j_lt. r.run j (omega arith)))
          | no over ↦ omega arith
        ] in
        let at : r.start + suc size + k ≡ r.start + (suc size + k) = omega arith in
        ap (λ f. f (r.start + suc size + k)) a.taken
        ∙ ground (arith, ap (get_page_bit m) at, r.run (suc size + k) (omega arith));
  },
)

-- There is room for it.
pub never_out :
    (t n size : ℕ) (m : Mm)
    → t ≡ suc (size + n)
    → IsReady t m
    → ¬ NoFit m (suc size) 0 (m.page_count * 8)
never_out t n size m total r none_fits =
    none_fits r.start (omega arith) (let b = r.in_bits in omega arith)
      (λ j j_lt. r.run j (omega arith))

asked : (n : ℕ) (m : Mm) → IsReady (suc n) m → Kmalloc m 1 (kmalloc m 4096)
asked n m r = kmalloc-Kmalloc m 4096 r.sound r.idle (omega (arith, r.room)) r.few (omega arith)

pub alloc_page_returns :
    (n : ℕ) (m : Mm)
    → IsReady (suc n) m
    → (a : ℕ) × (m' : Mm) × (alloc_page m ≡ some (a, m')) × IsReady n m'
unfolding alloc_page returned
alloc_page_returns n m r = finish (asked n m r)
  where
    finish :
        Kmalloc m 1 (kmalloc m 4096)
        → (a : ℕ) × (m' : Mm) × (returned (kmalloc m 4096) ≡ some (a, m')) × IsReady n m'
    finish (allocated page m' e a) = (
      page * 4096,
      m',
      ap returned e,
      (Allocated-IsReady (suc n) n 0 m m' page (omega arith) r a).1,
    )
    finish (out_of_memory e none_fits) = (0, m, ap returned e, fewer n m r)

-- A page that is handed out comes from `kmalloc` as its theorem describes it.
alloc_page_inv :
    (n a : ℕ) (m m' : Mm)
    → IsReady (suc n) m
    → alloc_page m ≡ some (a, m')
    → a ≢ 0
    → (page : ℕ) × (a ≡ page * 4096) × Allocated m m' page 1
unfolding alloc_page returned
alloc_page_inv n a m m' r e ne = finish (asked n m r)
  where
    finish : Kmalloc m 1 (kmalloc m 4096) → (page : ℕ) × (a ≡ page * 4096) × Allocated m m' page 1
    finish (allocated page m'' q al) =
        let same : some (a, m') ≡ some (page * 4096, m'') = sym e ∙ ap returned q in
        let at : a ≡ page * 4096 = cc in
        let to : m'' ≡ m' = cc in (page, at, subst (λ x. Allocated m x page 1) to al)
    finish (out_of_memory q none_fits) =
        let same : some (a, m') ≡ some (0, m) = sym e ∙ ap returned q in
        let z : a ≡ 0 = cc in absurd (ne z)

pub alloc_page_fresh :
    (n a : ℕ) (m m' : Mm)
    → IsReady (suc n) m
    → alloc_page m ≡ some (a, m')
    → a ≢ 0
    → OwnsPage m' a × (¬ OwnsPage m a)
alloc_page_fresh n a m m' r e ne =
    let (page, at, al) = alloc_page_inv n a m m' r e ne in
    let (i, o) = al.owned in
    let there : a / 4096 ≡ page = omega (arith, at) in
    (
      record {
        holder = (i, rw there o);
        aligned = omega (arith, at);
        pos = omega arith;
        word = omega (arith, at, al.in_bitmap, r.few);
      },
      λ old.
          let (j, h) = old.holder in
          let free = al.were_free 0 (omega arith) in
          let busy = r.sound.agrees.held j 0 h.below h.in_use (omega (arith, h.size)) in
          let start = h.start in ground arith,
    )

pub alloc_page_keeps :
    (n a b : ℕ) (m m' : Mm)
    → IsReady (suc n) m
    → alloc_page m ≡ some (a, m')
    → OwnsPage m b
    → OwnsPage m' b
unfolding alloc_page returned
alloc_page_keeps n a b m m' r e old = finish (asked n m r)
  where
    finish : Kmalloc m 1 (kmalloc m 4096) → OwnsPage m' b
    finish (allocated page m'' q al) =
        let same : some (a, m') ≡ some (page * 4096, m'') = sym e ∙ ap returned q in
        let to : m'' ≡ m' = cc in
        let (i, h) = old.holder in
        record {
          holder =
              (i, subst (λ x. Owns x (b / 4096) 1 i) to (al.others (b / 4096) 1 i h (omega arith)));
          aligned = old.aligned;
          pos = old.pos;
          word = old.word;
        }
    finish (out_of_memory q none_fits) =
        let same : some (a, m') ≡ some (0, m) = sym e ∙ ap returned q in
        let to : m ≡ m' = cc in subst (λ x. OwnsPage x b) to old

-- What the kernel's page tables are built from.
abbrev pub kernel_pages : PageSource
kernel_pages = record {
  Source = Mm;
  alloc = alloc_page;
  Owned = OwnsPage;
  IsReady = IsReady;
  alloc_returns = alloc_page_returns;
  ready_fewer = fewer;
  alloc_fresh = alloc_page_fresh;
  alloc_keeps = alloc_page_keeps;
  owned_page = λ m a o. (o.aligned, o.pos, o.word);
}

pub kernel_pages-Gives : Gives kernel_pages
unfolding alloc_page returned
kernel_pages-Gives n a m m' r e = finish (asked n m r)
  where
    finish : Kmalloc m 1 (kmalloc m 4096) → a ≢ 0
    finish (allocated page m'' q al) z =
        let same : some (a, m') ≡ some (page * 4096, m'') = sym e ∙ ap returned q in
        let at : a ≡ page * 4096 = cc in
        (Allocated-IsReady (suc n) n 0 m m'' page (omega arith) r al).0 (omega (arith, at))
    finish (out_of_memory q none_fits) z = never_out (suc n) n 0 m (omega arith) r none_fits
