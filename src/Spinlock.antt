-- ===== src/Spinlock.antt =====
-- Kernel/inc/sys/spinlock.h: a test-and-set lock, and the threads of any number of processors that
-- take turns on it. Memory is sequentially consistent here; the source asks for acquire on the
-- exchange and release on the store.
mod Safety
mod Tests
use wheatley.Common.{
  ℕ, zero, suc, ◌+◌, ◌-◌, ◌*◌, ◌/◌, ◌%◌, ◌^◌, ◌≤◌, ◌<◌, min, max, bit_and, bit_or, bit_xor, ◌≡◌,
  refl, sym, ap, ap₂, ◌∙◌, fun_ext, ◌≢◌, ◌↔◌, ◌⊎◌, inl, inr, Bool, true, false, not, ◌&&◌, ◌||◌,
  Option, none, some, List, [], ◌∷◌, ◌++◌, map, arith, ltb, leb, ◌==◌, if◌then◌else◌, ltb→lt,
  lt→ltb, ==_iff, ==_refl, Bool-cases, Option-cases, length, get_elem?, get_or, length-append,
  update, fill, shr, bit, complement, bit-or, bit-and, bit-lt, bit-two-pow, bit-complement,
  bit_or-lt, bit_and-le, bit_and-low, bit_and-up, bit_and-one, two-pow-lt, bit_and_digit, ℤ, pos,
  negsuc, bit_or_digit, bit-zero, bit-suc,
}

-- Where a thread stands.
pub data Pc : Type 0 where
  outside : Pc
  spinning : Pc  -- in the `while` of `spinlock_wait_and_acquire`
  inside : Pc  -- between its return and the call of `spinlock_release`

pub record System : Type 0 where
  pub flag : Bool  -- `lock->locked`
  pub pc : ℕ → Pc

-- `atomic_flag_test_and_set_explicit`: the old value, and the flag set.
unfoldable pub test_and_set : Bool → Bool × Bool
test_and_set old = (old, true)

-- `atomic_flag_clear_explicit`
unfoldable pub clear : Bool → Bool
clear _ = false

-- One round of `spinlock_wait_and_acquire`: another round, or the lock is taken.
pub try_acquire : System → ℕ → System
unfolding test_and_set
try_acquire s i =
    let (old, flag) = test_and_set s.flag in
    record { flag = flag; pc = update s.pc i (if old then spinning else inside) }

pub release : System → ℕ → System
unfolding clear
release s i = record { flag = clear s.flag; pc = update s.pc i outside }

-- A step of some thread: it calls the lock's functions in turn, as every caller in the kernel does.
pub data Step (s : System) : System → Type 0 where
  enter : (i : ℕ) → s.pc i ≡ outside → Step s (try_acquire s i)
  spin : (i : ℕ) → s.pc i ≡ spinning → Step s (try_acquire s i)
  leave : (i : ℕ) → s.pc i ≡ inside → Step s (release s i)

-- `SPINLOCK_INIT`, with no thread at the lock.
abbrev pub initial : System
initial = record { flag = false; pc = λ _. outside }

pub data Reach : System → Type 0 where
  start : Reach initial
  later : {s t : System} → Reach s → Step s t → Reach t
