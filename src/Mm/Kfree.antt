-- ===== src/Mm/Kfree.antt =====
-- `kfree` of Kernel/src/mm/mm.c on every branch, and `kmalloc` undone by it.
use wheatley.Common.{
  ℕ, ◌-◌, ◌*◌, ◌/◌, ◌%◌, ◌^◌, ◌<◌, ◌≡◌, refl, sym, ap, ap₂, ◌∙◌, fun_ext, ◌≢◌, inl, inr, true,
  Bool-cases, ◌==◌, ◌+◌, false, some, arith, Option-cases, update,
}
use mathlib.Core.Path.{subst₃}
use wheatley.Mm.{
  Mm, Alloc, ok, panic, lock, unlock, alloc_max_size, get_page_bit, find_alloc, pages_for,
  clear_pages, release_pages, kmalloc, kfree,
}
use wheatley.Mm.Table.{find_alloc-some, find_alloc-start}
use wheatley.Mm.Consistent.{IsConsistent, marked, release-IsConsistent}
use wheatley.Mm.Calls.{IsSound, Owns, clear_pages-rest, clear_pages-marked}
use wheatley.Mm.Kmalloc.{Allocated, Kmalloc, allocated, out_of_memory, kmalloc-Kmalloc}

-- The pages of an entry have gone from taken to free; no other page has changed.
pub record Freed (m m' : Mm) (page n i : ℕ) : Type 0 where
  pub given_back : get_page_bit m' ≡ marked (get_page_bit m) false page n
  pub others : (p k j : ℕ) → Owns m p k j → j ≢ i → Owns m' p k j
  pub not_in_use : (m'.allocs i).used ≡ false
  pub same_count : m'.alloc_count ≡ m.alloc_count
  pub same_size : m'.page_count ≡ m.page_count
  pub same_ram : m'.ram ≡ m.ram
  pub sound : IsSound m'
  pub unlocked : m'.locked ≡ false

kfree-hit :
    (m : Mm) (buf i : ℕ)
    → m.locked ≡ false
    → find_alloc (lock m) (buf / 4096) ≡ some i
    → kfree m buf ≡ ok tt (unlock (release_pages (lock m) i (buf / 4096)))
unfolding kfree
kfree-hit m buf i idle hit = ground arith

-- In an unlocked allocator, `kfree` of a buffer whose page starts no entry of the table ends in a
-- panic, with the lock held.
pub kfree-unknown :
    (m : Mm) (buf : ℕ)
    → m.locked ≡ false
    → ((i : ℕ) → i < m.alloc_count → (m.allocs i).page_start ≢ buf / 4096 % 2 ^ 32)
    → kfree m buf ≡ panic "kfree: failed to find alloc" (lock m)
unfolding kfree
kfree-unknown m buf idle none_starts = elim (Option-cases (find_alloc (lock m) (buf / 4096))) [
  | inl miss ↦ ground arith
  | inr (i, hit) ↦
      let (lt, start) = find_alloc-some (lock m) (buf / 4096) hit in absurd (none_starts i lt start)
]

release-inside :
    (m : Mm) (i : ℕ)
    → ((k : ℕ)
        → k < m.alloc_count
        → (m.allocs k).used ≡ true
        → (m.allocs k).page_start + (m.allocs k).page_count < m.page_count * 8)
    → (j : ℕ) (a : Alloc) (size : ℕ)
    → a ≡ update m.allocs i (record (m.allocs i) { used = false }) j
    → size ≡ m.page_count
    → j < m.alloc_count
    → a.used ≡ true
    → a.page_start + a.page_count < size * 8
release-inside m i inside j a size e sized below live = elim (Bool-cases (i == j)) [
  | inl freed ↦
      let unused : a.used ≡ false = ap (λ x. x.used) e ∙ rw freed refl in absurd (cc (live, unused))
  | inr kept ↦
      let at : a ≡ m.allocs j = e ∙ rw kept refl in
      let h = inside j below (sym (ap (λ x. x.used) at) ∙ live) in
      omega (arith, ap (λ x. x.page_start) at, ap (λ x. x.page_count) at, h, sized)
]

module _ (m : Mm) (buf page n i : ℕ) (inv : IsSound m) (idle : m.locked ≡ false)
    (o : Owns m page n i) (at : buf / 4096 ≡ page) where
  release_pages-Freed : Freed m (unlock (release_pages (lock m) i (buf / 4096))) page n i
  unfolding release_pages get_page_bit
  release_pages-Freed =
      let m' : Mm = record (lock m) {
        allocs = update m.allocs i (record (m.allocs i) { used = false });
      } in
      let e = clear_pages-rest (m.allocs i).page_count m' (buf / 4096) 0 in
      let bits = clear_pages-marked m' (buf / 4096) (m.allocs i).page_count in
      record {
        given_back = bits ∙ ap₂ (λ p k. marked (get_page_bit m) false p k) at o.size;
        others = λ p k j q ne.
            let kept : (clear_pages m' (buf / 4096) 0 (m.allocs i).page_count).allocs j
                ≡ m.allocs j =
              ap (λ s. s.allocs j) e ∙ ground arith in
            record {
              below = rw (ap (λ s. s.alloc_count) e) q.below;
              start = rw kept q.start;
              size = rw kept q.size;
              in_use = rw kept q.in_use;
            };
        not_in_use = ap (λ s. (s.allocs i).used) e ∙ ground arith;
        same_count = ap (λ s. s.alloc_count) e;
        same_size = ap (λ s. s.page_count) e;
        same_ram = ap (λ s. s.ram) e;
        sound = record {
          agrees =
              subst₃ IsConsistent
                (sym (
                  bits
                  ∙ ap (λ p. marked (get_page_bit m) false p (m.allocs i).page_count)
                      (at ∙ sym o.start)))
                (ap (λ s. s.allocs) (sym e)) (ap (λ s. s.alloc_count) (sym e))
                (release-IsConsistent inv.agrees i o.below o.in_use);
          last =
              ap
                (λ s.
                  get_page_bit (clear_pages m' (buf / 4096) 0 (m.allocs i).page_count) (s * 8 - 1))
                (ap (λ s. s.page_count) e)
              ∙ ap (λ f. f (m.page_count * 8 - 1)) bits
              ∙ ground (arith, inv.last, inv.inside i o.below o.in_use, o.start, at);
          inside = λ j below live.
              let kept : (clear_pages m' (buf / 4096) 0 (m.allocs i).page_count).allocs j
                  ≡ update m.allocs i (record (m.allocs i) { used = false }) j =
                ap (λ s. s.allocs j) e in
              release-inside m i inv.inside j _ _ kept (ap (λ s. s.page_count) e)
                (omega (arith, below, ap (λ s. s.alloc_count) e)) live;
        };
        unlocked = refl;
      }

  -- In a consistent, unlocked allocator, `kfree` of a live buffer returns: its pages are free and no
  -- other page has changed, its entry is unused and every other live entry stays, and the allocator
  -- is consistent and unlocked.
  pub kfree-Freed : (m' : Mm) × (kfree m buf ≡ ok tt m') × Freed m m' page n i
  kfree-Freed = (
    unlock (release_pages (lock m) i (buf / 4096)),
    kfree-hit m buf i idle (
        find_alloc-start (lock m) i (buf / 4096) inv.agrees.unique o.below
          (omega (arith, inv.agrees.small i o.below, o.start))),
    release_pages-Freed,
  )

-- A block that `kmalloc` has just handed out goes back without a trace in the bitmap.
module _ (m : Mm) (m' : Mm) (page n : ℕ) (a : Allocated m m' page n) where
  pub kfree_after :
      (m'' : Mm) × (kfree m' (page * 4096) ≡ ok tt m'')
      × (get_page_bit m'' ≡ get_page_bit m)
      × IsSound m''
  kfree_after =
      let (i, o) = a.owned in
      let (m'', e, f) = kfree-Freed m' (page * 4096) page n i a.sound a.unlocked o (omega arith) in
      (
        m'',
        e,
        f.given_back
            ∙ ap (λ t. marked t false page n) a.taken
            ∙ fun_ext (λ q. ground (arith, a.were_free (q - page))),
        f.sound,
      )

-- What `kmalloc` and `kfree` in a row leave: nothing was to be had, or the bitmap is as before.
pub data GivesBack (m : Mm) (len : ℕ) : Type 0 where
  nothing : kmalloc m len ≡ ok 0 m → GivesBack m len
  back :
      (buf : ℕ) (m' m'' : Mm)
      → kmalloc m len ≡ ok buf m'
      → kfree m' buf ≡ ok tt m''
      → get_page_bit m'' ≡ get_page_bit m
      → GivesBack m len

-- In a consistent, unlocked allocator with room in its table and a bitmap of fewer than 2^31 pages,
-- a request of fewer than 2^16 pages ends with NULL and nothing changed, or in a buffer that `kfree` accepts and after whose release
-- the bitmap is the one that `kmalloc` found.
pub kfree-kmalloc :
    (m : Mm) (len : ℕ)
    → IsSound m
    → m.locked ≡ false
    → m.alloc_count < alloc_max_size
    → m.page_count * 8 < 2 ^ 31
    → pages_for len < 2 ^ 16
    → GivesBack m len
kfree-kmalloc m len inv idle room few short = finish (kmalloc-Kmalloc m len inv idle room few short)
  where
    finish : Kmalloc m (pages_for len) (kmalloc m len) → GivesBack m len
    finish (out_of_memory e none_fits) = nothing e
    finish (allocated page m' e a) =
        let (m'', freed, same, sound) = kfree_after m m' page (pages_for len) a in
        back (page * 4096) m' m'' e freed same
