-- ===== src/Common.antt =====
-- The names that the other modules share: the libraries', passed on, and those of the children.
-- Numbers of the machine are native numbers with their wrap-around written out.
mod Tests
mod Bits
mod Lists
mod Int
mod Results
pub use Tests.*
pub use Bits.{bit_and_digit, bit_or_digit, bit-lt, bit-or, bit-and, bit-two-pow, bit-zero, bit-suc}
pub use Bits.{complement, bit-complement, bit_or-lt, bit_and-le, bit_and-low, bit_and-up}
pub use Bits.{bit_and-one, two-pow-lt, bit-none}
unfoldable pub use Bits.{shr, bit}
pub use Lists.*
pub use Results.{
  Result, ok, panic, failed_assertion, fault, and_then, and_then-ok, passed_not, ok_inj, needed,
}
pub use Int.{ℤ, pos, negsuc}
pub use Prim.Native.Nat.{ℕ, zero, suc, ◌+◌, ◌-◌, ◌*◌, ◌/◌, ◌%◌, ◌^◌, ◌≤◌, ◌<◌, min, max}
pub use Prim.Native.Nat.{bit_and, bit_or, bit_xor}
pub use mathlib.Core.Path.{◌≡◌, refl, sym, ap, ap₂, ◌∙◌, fun_ext}
pub use mathlib.Core.Logic.{◌≢◌, ◌↔◌, ◌⊎◌, inl, inr}
pub use mathlib.Core.Bool.{Bool, true, false, not, ◌&&◌, ◌||◌}
pub use mathlib.Core.Option.{Option, none, some}
pub use mathlib.Core.List.{List, [], ◌∷◌, ◌++◌, map}
pub use native.Mathlib.Omega.{arith}
