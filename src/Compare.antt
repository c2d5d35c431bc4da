-- ===== src/Compare.antt =====
-- The comparisons of memory in Bootloader/src/main.c and Bootloader/src/helpers.c.
--
-- Memory is read by the byte; the length is an `int` that is not negative.
mod Equal
mod Tests
use wheatley.Common.{
  ℕ, zero, suc, ◌+◌, Bool, true, false, ltb, ◌==◌, not, if◌then◌else◌, ℤ, pos, negsuc,
}

-- The loop of `my_memcmp`, with `len` bytes left.
pub my_memcmp_loop : (mem : ℕ → ℕ) → (p q len : ℕ) → ℤ
my_memcmp_loop mem p q zero = pos 0
my_memcmp_loop mem p q (suc len) =
    let rest = my_memcmp_loop mem (p + 1) (q + 1) len in
    if not (mem p == mem q) then (if ltb (mem q) (mem p) then pos 1 else negsuc 0) else rest

pub my_memcmp : (mem : ℕ → ℕ) → (s1 s2 len : ℕ) → ℤ
my_memcmp mem s1 s2 len = if s1 == s2 then pos 0 else my_memcmp_loop mem s1 s2 len

pub is_zero : ℤ → Bool
is_zero (pos zero) = true
is_zero (pos (suc n)) = false
is_zero (negsuc n) = false

-- `guidMatches`, of two GUIDs in memory, 16 bytes each.
pub guid_matches : (mem : ℕ → ℕ) → (guid1 guid2 : ℕ) → Bool
guid_matches mem guid1 guid2 = is_zero (my_memcmp mem guid1 guid2 16)

-- `memcmp` of helpers.c, from index `i` on.
pub memcmp_loop : (mem : ℕ → ℕ) → (a b i rounds : ℕ) → Bool
memcmp_loop mem a b i zero = true
memcmp_loop mem a b i (suc rounds) =
    let rest = memcmp_loop mem a b (i + 1) rounds in
    if not (mem (a + i) == mem (b + i)) then false else rest

pub memcmp : (mem : ℕ → ℕ) → (a b n : ℕ) → Bool
memcmp mem a b n = memcmp_loop mem a b 0 n
