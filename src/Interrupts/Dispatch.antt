-- ===== src/Interrupts/Dispatch.antt =====
-- The dispatch of Kernel/src/sys/isr.c: registered handlers, exceptions, and the rest.
use wheatley.Common.{
  ℕ, zero, suc, ◌≤◌, ◌<◌, ◌≡◌, refl, inl, inr, ◌&&◌, none, some, List, [], ◌∷◌, arith, ltb, ◌==◌,
  if◌then◌else◌, Option-cases, length, get_elem?, get_or, update, pos,
}
use Prim.Native.String.{String}
use native.Mathlib.Decide.{dec_lt}
use wheatley.Interrupts.{
  Handlers, isr_exceptions, isr_register_handler, Handling, call, panic_unhandled, print_unhandled,
  isr_handle,
}

module _ (Handler : Type 0) where
  -- What the processor's interrupt `number` ends in, for a table of handlers.
  pub data Handled (handlers : Handlers Handler) (number : ℕ) (r : Handling Handler) : Type 0 where
    by_handler :
        (h : Handler)
        → number < 256
        → handlers number ≡ some h
        → r ≡ call h
        → Handled handlers number r
    by_panic :
        (name : String)
        → number < 32
        → handlers number ≡ none
        → get_elem? isr_exceptions number ≡ some name
        → r ≡ panic_unhandled name
        → Handled handlers number r
    by_message :
        32 ≤ number
        → (number < 256 → handlers number ≡ none)
        → r ≡ print_unhandled number
        → Handled handlers number r

  exception_name :
      (number : ℕ)
      → number < 32
      → get_elem? isr_exceptions number ≡ some (get_or isr_exceptions number "")
  exception_name number lt = go isr_exceptions number (omega arith)
    where
      go : (xs : List String) (i : ℕ) → i < length xs → get_elem? xs i ≡ some (get_or xs i "")
      go [] i h = absurd (omega arith)
      go (x ∷ xs) zero h = refl
      go (x ∷ xs) (suc i) h = go xs i (omega arith)

  -- Every interrupt number goes to the handler registered for it below 256; without one, an
  -- exception, below 32, panics under its name, and any other is only reported.
  pub isr_handle-Handled :
      (handlers : Handlers Handler) (number : ℕ)
      → Handled handlers number (isr_handle Handler handlers number)
  unfolding isr_handle
  isr_handle-Handled handlers number = elim (Option-cases (handlers number)) [
    | inl unset ↦ elim (dec_lt number 32) [
      | yes low ↦
          by_panic (get_or isr_exceptions number "") low unset (exception_name number low)
            (ground arith)
      | no high ↦ by_message (omega arith) (λ _. unset) (ground arith)
    ]
    | inr (h, set_) ↦ elim (dec_lt number 256) [
      | yes low ↦ by_handler h low set_ (ground arith)
      | no high ↦ by_message (omega arith) (λ lt. absurd (omega arith)) (ground arith)
    ]
  ]

  -- Registering a handler changes the dispatch of its own number and of no other; from 256 on it
  -- changes nothing.
  pub isr_handle-isr_register_handler :
      (handlers : Handlers Handler) (n k : ℕ) (h : Handler)
      → (handlers' : Handlers Handler) × (isr_register_handler Handler handlers (pos n) (some h)
          ≡ some handlers')
        × (isr_handle Handler handlers' k
            ≡ (if k == n && ltb n 256 then call h else isr_handle Handler handlers k))
  unfolding isr_handle isr_register_handler
  isr_handle-isr_register_handler handlers n k h = elim (dec_lt n 256) [
    | yes low ↦ (update handlers n (some h), ground arith, ground arith)
    | no high ↦ (handlers, ground arith, ground arith)
  ]
