-- ===== src/Text/Tests.antt =====
-- The copy of "hi" over four bytes.
use wheatley.Common.{ℕ, zero, suc, ◌+◌, ◌<◌, ◌≡◌, refl, ◌≢◌, some, inr, [], ◌∷◌, arith, get_or}
use wheatley.Text.{strcpy}
use wheatley.Text.Copy.{IsString, Copied, strcpy-Copied}

-- "hi" at 0, and 0x78 from 3 on.
abbrev memory : ℕ → ℕ
memory x = get_or (0x68 ∷ 0x69 ∷ 0 ∷ []) x 0x78

hi-before : (i : ℕ) → i < 2 → memory (0 + i) ≢ 0
hi-before zero lt = omega arith
hi-before (suc zero) lt = omega arith
hi-before (suc (suc i)) lt = absurd (omega arith)

hi-IsString : IsString memory 0 2
hi-IsString = record { terminated = refl; before = hi-before }

strcpy-Copied_example :
    (mem' : ℕ → ℕ) × (strcpy memory 10 0 9 ≡ some mem') × Copied memory mem' 10 0 2
strcpy-Copied_example = strcpy-Copied memory 9 10 0 2 hi-IsString (omega arith) (inr (omega arith))
