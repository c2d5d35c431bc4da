-- ===== src/Mm/Krealloc.antt =====
-- `krealloc` of Kernel/src/mm/mm.c on a live buffer.
use wheatley.Common.{ℕ, ◌+◌, ◌*◌, ◌≤◌, ◌<◌, ◌≡◌, true, false}
use wheatley.Mm.{Mm, Outcome, ok, get_page_bit}
use wheatley.Mm.FirstFit.{NoFit}
use wheatley.Mm.Consistent.{marked}
use wheatley.Mm.Calls.{IsSound, Owns}
use wheatley.Mm.Kmalloc.{Kmalloc}

-- The outcomes of `krealloc` for a buffer of `n` pages from `page` on, when `needed` are asked for.
pub data Krealloc (m : Mm) (page n needed : ℕ) (r : Outcome ℕ) : Type 0 where
  -- The buffer is large enough and stays as it is.
  stays : needed ≤ n → r ≡ ok (page * 4096) m → Krealloc m page n needed r
  -- A larger block takes over the contents, and the old one is free.
  moves :
      (page' : ℕ) (m' : Mm)
      → n < needed
      → r ≡ ok (page' * 4096) m'
      → ((k : ℕ) → k < n * 4096 → m'.ram (page' * 4096 + k) ≡ m.ram (page * 4096 + k))
      → get_page_bit m' ≡ marked (marked (get_page_bit m) true page' needed) false page n
      → (i : ℕ) × Owns m' page' needed i
      → IsSound m'
      → m'.locked ≡ false
      → Krealloc m page n needed r
  -- Out of memory: the result is NULL, the contents lie at address 0, and the old block is free.
  lost :
      (m' : Mm)
      → n < needed
      → NoFit m needed 0 (m.page_count * 8)
      → r ≡ ok 0 m'
      → ((k : ℕ) → k < n * 4096 → m'.ram k ≡ m.ram (page * 4096 + k))
      → get_page_bit m' ≡ marked (get_page_bit m) false page n
      → IsSound m'
      → m'.locked ≡ false
      → Krealloc m page n needed r
