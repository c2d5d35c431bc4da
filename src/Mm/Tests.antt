-- ===== src/Mm/Tests.antt =====
-- Runs of the page allocator, and its theorems at an allocator of 16 pages.
use wheatley.Common.{
  Bool-cases, inl, inr, ◌==◌, if◌then◌else◌, sym, ℕ, zero, suc, ◌+◌, ◌*◌, ◌%◌, ◌<◌, ◌≡◌, refl, true,
  false, Option, none, some, arith, bit,
}
use wheatley.Mm.{
  Mm, Outcome, ok, panic, hang, get_page_bit, set_page_bit, clear_page_bit, run_is_free,
  find_page_loop, find_page, find_alloc_loop, find_alloc, set_pages, clear_pages, claim, set_alloc,
  take_pages, release_pages, copy, move, kmalloc, kfree, krealloc,
}
use wheatley.Mm.Consistent.{entry}
use wheatley.Mm.Calls.{IsSound, Owns}
use wheatley.Mm.Kmalloc.{Kmalloc, kmalloc-Kmalloc}
use wheatley.Mm.Kfree.{Freed, GivesBack, kfree-Freed, kfree-kmalloc}
use wheatley.Mm.Krealloc.{Krealloc}
use wheatley.Mm.Pool.{Pool, Client, done, alloc, free, stops, asks, frees}
use wheatley.Mm.Refine.{Refines, run-Refines}

-- Pages 0 to 5 and 16 to 31 are taken; entry 0 holds pages 4 and 5.
abbrev sixteen : Mm
sixteen = record {
  pages = λ _. 0xffff_803f;
  page_count = 2;
  allocs = λ _. entry 4 2;
  alloc_count = 1;
  locked = false;
  ram = λ x. x % 256;
}

sixteen-held : (k : ℕ) → k < 2 → get_page_bit sixteen (4 + k) ≡ true
unfolding get_page_bit bit
sixteen-held zero lt = refl
sixteen-held (suc zero) lt = refl
sixteen-held (suc (suc k)) lt = absurd (omega arith)

sixteen-last : get_page_bit sixteen 15 ≡ true
unfolding get_page_bit bit
sixteen-last = refl

sixteen-IsSound : IsSound sixteen
sixteen-IsSound = record {
  agrees = record {
    room = omega arith;
    small = λ i lt. omega arith;
    unique = λ i j lt_i lt_j e. omega arith;
    held = λ i k lt live in_range. sixteen-held k in_range;
    apart = λ i j k l lt_i lt_j live_i live_j k_lt l_lt e. omega arith;
  };
  last = sixteen-last;
  inside = λ i lt live. omega arith;
}

-- The line opens the whole allocator for the runs below.
result : {A : Type 0} → Outcome A → Option A
unfolding kmalloc take_pages claim set_alloc find_page find_page_loop run_is_free find_alloc
    find_alloc_loop get_page_bit set_page_bit set_pages bit kfree release_pages clear_pages
    clear_page_bit krealloc move copy
result (ok a m) = some a
result (panic reason m) = none
result hang = none

two_pages : result (kmalloc sixteen 5000) ≡ some (6 * 4096)
unfolding result
two_pages = refl

too_many : result (kmalloc sixteen 0xb000) ≡ some 0
unfolding result
too_many = refl

moved : result (krealloc sixteen 0x4000 0x3000) ≡ some 0x6000
unfolding result
moved = refl

kmalloc-Kmalloc_example : Kmalloc sixteen 2 (kmalloc sixteen 5000)
kmalloc-Kmalloc_example =
    kmalloc-Kmalloc sixteen 5000 sixteen-IsSound refl (omega arith) (omega arith) (omega arith)

sixteen-Owns : Owns sixteen 4 2 0
sixteen-Owns = record { below = omega arith; start = refl; size = refl; in_use = refl }

kfree-Freed_example : (m : Mm) × (kfree sixteen 0x4000 ≡ ok tt m) × Freed sixteen m 4 2 0
kfree-Freed_example = kfree-Freed sixteen 0x4000 4 2 0 sixteen-IsSound refl sixteen-Owns refl

kfree-kmalloc_example : GivesBack sixteen 5000
kfree-kmalloc_example =
    kfree-kmalloc sixteen 5000 sixteen-IsSound refl (omega arith) (omega arith) (omega arith)

-- The pool of that allocator: the taken pages, and the block of pages 4 and 5.
abbrev four_and_five : Pool
four_and_five = record { taken = get_page_bit sixteen; blocks = λ page. if page == 4 then 2 else 0 }

four_and_five-blocks :
    (page : ℕ)
    → 0 < four_and_five.blocks page
    → (i : ℕ) × Owns sixteen page (four_and_five.blocks page) i
four_and_five-blocks page some_pages = elim (Bool-cases (page == 4)) [
  | inl e ↦
      let here : 4 ≡ page = ground arith in
      let two : four_and_five.blocks page ≡ 2 = ground arith in (0, rw (two, sym here) sixteen-Owns)
  | inr e ↦ let nothing : four_and_five.blocks page ≡ 0 = ground arith in absurd (omega arith)
]

-- Frees the block, and asks for a page.
abbrev swap : Client
swap = free 0x4000 (alloc 5000 (λ buf. done))

run-Refines_example : Refines 16 sixteen four_and_five swap
run-Refines_example =
    run-Refines 16 1 sixteen four_and_five swap
      (record { sound = sixteen-IsSound; idle = refl; bits = refl; blocks = four_and_five-blocks })
      (record { room = omega arith; whole = refl; few = omega arith })
      (frees 0x4000 (omega arith)
        (asks 5000 (omega arith) (omega arith) (λ page fits. stops) stops))
