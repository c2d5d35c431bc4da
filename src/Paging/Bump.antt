-- ===== src/Paging/Bump.antt =====
-- A source of pages for the page tables of Kernel/src/mm/vmm.c and Bootloader/src/paging.c to be tried
-- with.
use wheatley.Common.{ℕ, ◌+◌, ◌*◌, ◌%◌, ◌^◌, ◌<◌, ◌≡◌, refl, Option, some, arith}
use wheatley.Paging.{Gives, PageSource}

-- A source that counts up and has as many pages as addresses below 2^63.
unfoldable pub bump_alloc : ℕ → Option (ℕ × ℕ)
bump_alloc next = some (next, next + 4096)

pub bump_next :
    (next next' a : ℕ) → bump_alloc next ≡ some (a, next') → (a ≡ next) × (next' ≡ next + 4096)
unfolding bump_alloc
bump_next next next' a e = (cc e, cc e)

unfoldable pub bump : PageSource
unfolding bump_alloc
bump = record {
  Source = ℕ;
  alloc = bump_alloc;
  Owned = λ next a. (a % 4096 ≡ 0) × (0 < a) × (a < 2 ^ 64) × (a < next);
  IsReady = λ n next. (next % 4096 ≡ 0) × (0 < next) × (next + n * 4096 < 2 ^ 64);
  alloc_returns = λ n next (whole, some_page, room).
      (next, next + 4096, refl, (omega (arith, whole), omega arith, omega (arith, room)));
  ready_fewer = λ n next (whole, some_page, room). (whole, some_page, omega (arith, room));
  alloc_fresh = λ n a next next' (whole, some_page, room) e ne.
      let (at, later) = bump_next next next' a e in
      (
        (
          omega (arith, at, whole),
          omega (arith, at),
          omega (arith, at, room),
          omega (arith, at, later),
        ),
        λ (w, p, q, below). omega (arith, at, below),
      );
  alloc_keeps = λ n a b next next' ready e (w, p, q, below).
      let (at, later) = bump_next next next' a e in (w, p, q, omega (arith, later, below));
  owned_page = λ next a (w, p, q, below). (w, p, q);
}

pub bump-Gives : Gives bump
unfolding bump
bump-Gives n a next next' (whole, some_page, room) e z =
    let (at, later) = bump_next next next' a e in omega (arith, at, z)
