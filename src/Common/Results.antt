-- ===== src/Common/Results.antt =====
-- How a part of a program's start ends, and what is known when it returns.
use Prim.Native.String.{String}
use mathlib.Core.Path.{◌≡◌, refl}
use mathlib.Core.Logic.{◌≢◌}
use mathlib.Core.Bool.{Bool, true, false}
use mathlib.Core.Option.{Option, none, some}
use wheatley.Common.Tests.{if◌then◌else◌}

-- `fault` is what the processor or the language does not define: a division by zero, an access
-- through NULL or behind an array, a call that does not return.
pub data Result (A : Type 0) : Type 0 where
  ok : A → Result A
  panic : String → Result A
  failed_assertion : Result A
  fault : Result A

abbrev pub and_then : {A B : Type 0} → Result A → (A → Result B) → Result B
and_then (ok a) k = k a
and_then (panic reason) k = panic reason
and_then failed_assertion k = failed_assertion
and_then fault k = fault

pub and_then-ok :
    {A B : Type 0} (r : Result A) (k : A → Result B) (b : B)
    → and_then r k ≡ ok b
    → (a : A) × (r ≡ ok a) × (k a ≡ ok b)
and_then-ok (ok a) k b e = (a, refl, e)
and_then-ok (panic reason) k b e = cc e
and_then-ok failed_assertion k b e = cc e
and_then-ok fault k b e = cc e

-- A test that leaves a call only one way to go on.
pub passed_not :
    {A : Type 0} (c : Bool) (x y : Result A) (a : A)
    → (if c then x else y) ≡ ok a
    → x ≢ ok a
    → (c ≡ false) × (y ≡ ok a)
passed_not true x y a e ne = absurd (ne e)
passed_not false x y a e ne = (refl, e)

pub ok_inj : {A : Type 0} (a b : A) → ok a ≡ ok b → a ≡ b
ok_inj a b e = cc e

-- A call that has to give something.
pub needed :
    {A B : Type 0} (o : Option A) (r : Result B) (k : A → Result B) (b : B)
    → elim o [ none ↦ r | some a ↦ k a ] ≡ ok b
    → r ≢ ok b
    → (a : A) × (o ≡ some a) × (k a ≡ ok b)
needed none r k b e ne = absurd (ne e)
needed (some a) r k b e ne = (a, refl, e)
