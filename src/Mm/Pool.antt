-- ===== src/Mm/Pool.antt =====
-- What callers may rely on of `kmalloc` and `kfree` of Kernel/src/mm/mm.c: a pool of pages, some of
-- them taken, and the live blocks. Neither the table's entries nor the words of the bitmap show.
use wheatley.Common.{ℕ, suc, ◌+◌, ◌*◌, ◌/◌, ◌^◌, ◌<◌, max, ◌≡◌, Bool, true, false, update}
use wheatley.Mm.{Mm, Outcome, ok, and_then, kmalloc, kfree, pages_for}
use wheatley.Mm.Consistent.{marked}

-- `blocks` gives the pages of the live block that starts at a page, 0 when there is none.
pub record Pool : Type 0 where
  pub taken : ℕ → Bool
  pub blocks : ℕ → ℕ

abbrev pub take : Pool → (page n : ℕ) → Pool
take s page n = record { taken = marked s.taken true page n; blocks = update s.blocks page n }

abbrev pub give_back : Pool → (page : ℕ) → Pool
give_back s page = record {
  taken = marked s.taken false page (s.blocks page);
  blocks = update s.blocks page 0;
}

abbrev pub AreFree : Pool → (page n : ℕ) → Type 0
AreFree s page n = (k : ℕ) → k < max n 1 → s.taken (page + k) ≡ false

-- A program that allocates and frees, and goes on with the address it was given.
pub data Client : Type 0 where
  done : Client
  alloc : (len : ℕ) → (ℕ → Client) → Client
  free : (buf : ℕ) → Client → Client

-- The program against the allocator of the kernel.
unfoldable pub run : Client → Mm → Outcome (Unit {0})
run done m = ok tt m
run (alloc len k) m = and_then (kmalloc m len) λ buf m'. run (k buf) m'
run (free buf c) m = and_then (kfree m buf) λ _ m'. run c m'

-- The program against a pool of `size` pages: a request is answered with free pages, or with NULL
-- when no run of free pages is long enough; only a live block is freed.
pub data Runs (size : ℕ) : Pool → Client → Pool → Type 0 where
  stop : {s : Pool} → Runs size s done s
  takes :
      {s t : Pool} {k : ℕ → Client} (len page : ℕ)
      → page < size
      → AreFree s page (pages_for len)
      → Runs size (take s page (pages_for len)) (k (page * 4096)) t
      → Runs size s (alloc len k) t
  refuses :
      {s t : Pool} {k : ℕ → Client} (len : ℕ)
      → ((page : ℕ) → page < size → ¬ AreFree s page (pages_for len))
      → Runs size s (k 0) t
      → Runs size s (alloc len k) t
  gives_back :
      {s t : Pool} {c : Client} (buf : ℕ)
      → 0 < s.blocks (buf / 4096)
      → Runs size (give_back s (buf / 4096)) c t
      → Runs size s (free buf c) t

-- A program that asks for at most `n` blocks, each of 1 to 65535 pages, and frees only live blocks,
-- whatever the pool answers.
pub data Behaves : ℕ → Pool → Client → Type 0 where
  stops : {n : ℕ} {s : Pool} → Behaves n s done
  asks :
      {n : ℕ} {s : Pool} {k : ℕ → Client} (len : ℕ)
      → 0 < pages_for len
      → pages_for len < 2 ^ 16
      → ((page : ℕ)
          → AreFree s page (pages_for len)
          → Behaves n (take s page (pages_for len)) (k (page * 4096)))
      → Behaves n s (k 0)
      → Behaves (suc n) s (alloc len k)
  frees :
      {n : ℕ} {s : Pool} {c : Client} (buf : ℕ)
      → 0 < s.blocks (buf / 4096)
      → Behaves n (give_back s (buf / 4096)) c
      → Behaves n s (free buf c)
