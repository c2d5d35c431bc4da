-- ===== src/Mm/PageBits.antt =====
-- The bit operations of Kernel/src/mm/internal.c: a page's bit after a write to another's.
use wheatley.Common.{
  ℕ, zero, suc, ◌+◌, ◌/◌, ◌%◌, ◌^◌, ◌≡◌, true, false, complement, ltb, leb, ◌==◌, if◌then◌else◌,
  ◌&&◌, bit-or, bit-and, bit-two-pow, bit-complement, bit-lt, two-pow-lt, arith,
}
use wheatley.Mm.{Mm, get_page_bit, set_page_bit, clear_page_bit, set_pages, clear_pages}

pub get-set_page_bit :
    (m : Mm) (p q : ℕ)
    → get_page_bit (set_page_bit m p) q ≡ (if p == q then true else get_page_bit m q)
unfolding get_page_bit set_page_bit
get-set_page_bit m p q = ground (
  arith,
  bit-or (q % 32) (m.pages (p / 32)) (2 ^ (p % 32)),
  bit-two-pow (p % 32) (q % 32),
  bit-lt (m.pages (p / 32)) (q % 32),
)

pub get-clear_page_bit :
    (m : Mm) (p q : ℕ)
    → get_page_bit (clear_page_bit m p) q ≡ (if p == q then false else get_page_bit m q)
unfolding get_page_bit clear_page_bit
get-clear_page_bit m p q = ground (
  arith,
  bit-and (q % 32) (m.pages (p / 32)) (complement 32 (2 ^ (p % 32))),
  bit-complement 32 (q % 32) (2 ^ (p % 32)) (omega arith) (two-pow-lt 32 (p % 32) (omega arith)),
  bit-two-pow (p % 32) (q % 32),
  bit-lt (m.pages (p / 32)) (q % 32),
)

-- The loops over a run of pages.
pub get-set_pages :
    (rounds : ℕ) (m : Mm) (page i q : ℕ)
    → get_page_bit (set_pages m page i rounds) q
      ≡ (if leb (page + i) q && ltb q (page + i + rounds) then true else get_page_bit m q)
unfolding set_pages
get-set_pages zero m page i q = ground arith
get-set_pages (suc rounds) m page i q = ground (
  arith,
  get-set_pages rounds (set_page_bit m (page + i)) page (i + 1) q,
  get-set_page_bit m (page + i) q,
)

pub get-clear_pages :
    (rounds : ℕ) (m : Mm) (page i q : ℕ)
    → get_page_bit (clear_pages m page i rounds) q
      ≡ (if leb (page + i) q && ltb q (page + i + rounds) then false else get_page_bit m q)
unfolding clear_pages
get-clear_pages zero m page i q = ground arith
get-clear_pages (suc rounds) m page i q = ground (
  arith,
  get-clear_pages rounds (clear_page_bit m (page + i)) page (i + 1) q,
  get-clear_page_bit m (page + i) q,
)
