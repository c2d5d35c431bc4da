-- ===== src/Text.antt =====
-- Kernel/src/string.c: the length of a string in memory, and its copy.
--
-- Memory is read and written by the byte. The loop of `strlen` runs on fuel.
pub mod Copy
mod Tests
use wheatley.Common.{
  ℕ, zero, suc, ◌+◌, ◌-◌, ◌*◌, ◌/◌, ◌%◌, ◌^◌, ◌≤◌, ◌<◌, min, max, bit_and, bit_or, bit_xor, ◌≡◌,
  refl, sym, ap, ap₂, ◌∙◌, fun_ext, ◌≢◌, ◌↔◌, ◌⊎◌, inl, inr, Bool, true, false, not, ◌&&◌, ◌||◌,
  Option, none, some, List, [], ◌∷◌, ◌++◌, map, arith, ltb, leb, ◌==◌, if◌then◌else◌, ltb→lt,
  lt→ltb, ==_iff, ==_refl, Bool-cases, Option-cases, length, get_elem?, get_or, length-append,
  update, fill, shr, bit, complement, bit-or, bit-and, bit-lt, bit-two-pow, bit-complement,
  bit_or-lt, bit_and-le, bit_and-low, bit_and-up, bit_and-one, two-pow-lt, bit_and_digit, ℤ, pos,
  negsuc, bit_or_digit, bit-zero, bit-suc,
}

-- The loop, from the pointer `s` on: where it ends.
pub strlen_loop : (mem : ℕ → ℕ) → (s fuel : ℕ) → Option ℕ
strlen_loop mem s zero = none
strlen_loop mem s (suc fuel) =
    let rest = strlen_loop mem (s + 1) fuel in if mem s == 0 then some s else rest

pub strlen : (mem : ℕ → ℕ) → (str fuel : ℕ) → Option ℕ
strlen mem str fuel = elim (strlen_loop mem str fuel) [ none ↦ none | some s ↦ some (s - str) ]

-- `memcpy(dest, source, n)` of Kernel/src/string.asm: `rep movsb`, from the first byte on.
pub memcpy : (mem : ℕ → ℕ) → (dest source n : ℕ) → ℕ → ℕ
memcpy mem dest source zero = mem
memcpy mem dest source (suc n) = memcpy (update mem dest (mem source)) (dest + 1) (source + 1) n

-- The memory after the call; its result is `dest`.
pub strcpy : (mem : ℕ → ℕ) → (dest source fuel : ℕ) → Option (ℕ → ℕ)
strcpy mem dest source fuel = elim (strlen mem source fuel) [
  | none ↦ none
  | some n ↦ some (memcpy mem dest source n)
]
