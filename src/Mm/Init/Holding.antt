-- ===== src/Mm/Init/Holding.antt =====
-- Which pages are taken after the loop of `mm_init` of Kernel/src/mm/init.c: those of the used entries.
use wheatley.Common.{
  ℕ, ◌+◌, ◌*◌, ◌<◌, ◌≡◌, refl, ap, ap₂, ◌∙◌, inl, inr, Bool, true, false, ◌||◌, List, [], ◌∷◌,
  arith,
}
use wheatley.Mm.Init.{Entry, used}
use wheatley.Mm.Init.FreePages.{EntryType-cases, frees, in_free, in_free-frees}
use wheatley.Mm.Init.Blocks.{first_page, Apart, AllApart, IsValid}

-- The pages of the used entries are taken.
abbrev pub Holds : (taken : ℕ → Bool) → List Entry → Type 0
Holds taken [] = Unit
Holds taken (e ∷ es) =
    (e.type ≡ used → (k : ℕ) → k < e.pages → taken (first_page e + k) ≡ true) × Holds taken es

frees-Apart : (e f : Entry) (k : ℕ) → Apart e f → k < e.pages → frees f (first_page e + k) ≡ false
frees-Apart e f k apart lt = elim (EntryType-cases f.type) [
  | inl q ↦ rw q (elim apart [ inl l ↦ ground arith | inr l ↦ ground arith ])
  | inr (inl q) ↦ rw q refl
  | inr (inr q) ↦ rw q refl
]

frees-used : (e : Entry) (p : ℕ) → e.type ≡ used → frees e p ≡ false
frees-used e p q = rw q refl

in_free-AllApart :
    (e : Entry) (es : List Entry) (k : ℕ)
    → AllApart e es
    → k < e.pages
    → in_free es (first_page e + k) ≡ false
in_free-AllApart e [] k apart lt = refl
in_free-AllApart e (f ∷ fs) k (apart, aparts) lt =
    let here = frees-Apart e f k apart lt in
    let there = in_free-AllApart e fs k aparts lt in in_free-frees f fs (first_page e + k) ∙ cc

-- No used entry has one of the pages.
abbrev Clear : (bad : ℕ → Bool) → List Entry → Type 0
Clear bad [] = Unit
Clear bad (e ∷ es) =
    (e.type ≡ used → (k : ℕ) → k < e.pages → bad (first_page e + k) ≡ false) × Clear bad es

Clear-more :
    (bad : ℕ → Bool) (e : Entry) (es : List Entry)
    → AllApart e es
    → Clear bad es
    → Clear (λ p. bad p || frees e p) es
Clear-more bad e [] apart clear = tt
Clear-more bad e (f ∷ fs) (apart, aparts) (clear, clears) = (
  λ q k lt.
      let swapped : Apart f e = elim apart [ inl l ↦ inr l | inr l ↦ inl l ] in
      let here = clear q k lt in let there = frees-Apart f e k swapped lt in cc,
  Clear-more bad e fs aparts clears,
)

pub none_yet : (entries : List Entry) → Clear (λ p. false) entries
none_yet [] = tt
none_yet (e ∷ es) = (λ q k lt. refl, none_yet es)

-- Where a bitmap has all pages but those of the free entries, it has those of the used ones.
pub in_free-Holds :
    (size : ℕ) (taken : ℕ → Bool) (entries : List Entry) (bad : ℕ → Bool)
    → ((p : ℕ) → p < size * 8 → (bad p || in_free entries p) ≡ false → taken p ≡ true)
    → IsValid size entries
    → Clear bad entries
    → Holds taken entries
in_free-Holds size taken [] bad gives valid clear = tt
in_free-Holds size taken (e ∷ es) bad gives (block, apart, valid) (clear, clears) = (
  λ q k lt.
      let (pos, short, low, inside) = block.0 q in
      let p = first_page e + k in
      let outside : (bad p || in_free (e ∷ es) p) ≡ false =
        ap₂ (λ x y. x || y) (clear q k lt)
          (in_free-frees e es p
            ∙ ap₂ (λ x y. x || y) (frees-used e p q) (in_free-AllApart e es k apart lt)) in
      gives p (omega (arith, inside)) outside,
  in_free-Holds size taken es (λ p. bad p || frees e p)
      (λ p lt out. gives p lt (ap (λ x. bad p || x) (in_free-frees e es p) ∙ ground arith)) valid
      (Clear-more bad e es apart clears),
)
