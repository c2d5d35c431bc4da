-- ===== src/Paging/Tree.antt =====
-- What the tables of Kernel/src/mm/vmm.c say: the walk that the processor makes, and the shape in
-- which every table has one place.
use wheatley.Common.{
  ℕ, ◌/◌, ◌%◌, ◌^◌, ◌<◌, ◌≡◌, true, false, Option, some, List, [], ◌∷◌, if◌then◌else◌, length,
}
use wheatley.Paging.{PageSource, State, Memory, slot}
use wheatley.Paging.Masks.{is_present, table_of}

-- The indices of a virtual address, top level first.
abbrev pub indices : ℕ → List ℕ
indices v = (v / 2 ^ 39 % 512) ∷ (v / 2 ^ 30 % 512) ∷ (v / 2 ^ 21 % 512) ∷ (v / 2 ^ 12 % 512) ∷ []

-- The entry at the end of a walk; 0, not present, where a table is missing.
unfoldable pub walk : Memory → (table : ℕ) → List ℕ → ℕ
walk mem t [] = 0
walk mem t (i ∷ []) = mem (slot t i)
walk mem t (i ∷ j ∷ is) =
    let e = mem (slot t i) in
    let rest = walk mem (table_of e) (j ∷ is) in if is_present e then rest else 0

module _ (mem : Memory) (t i j : ℕ) (is : List ℕ) where
  pub walk_absent : is_present (mem (slot t i)) ≡ false → walk mem t (i ∷ j ∷ is) ≡ 0
  unfolding walk
  walk_absent off = rw off

  pub walk_present :
      is_present (mem (slot t i)) ≡ true
      → walk mem t (i ∷ j ∷ is) ≡ walk mem (table_of (mem (slot t i))) (j ∷ is)
  unfolding walk
  walk_present on = rw on

-- The entry that the processor finds for the page of `virt`.
abbrev pub page_entry : Memory → (top virt : ℕ) → ℕ
page_entry mem top virt = walk mem top (indices virt)

abbrev pub AllSmall : List ℕ → Type 0
AllSmall [] = Unit
AllSmall (i ∷ is) = (i < 512) × AllSmall is

module _ (P : PageSource) where
  open P use {Owned}

  -- `role` gives each table its path from the top, last index first. A table's entry at an upper
  -- level is absent or names the table one index further.
  pub record IsTree (st : State P) (top : ℕ) (role : ℕ → Option (List ℕ)) : Type 0 where
    pub root : role top ≡ some []
    pub owned : (t : ℕ) (p : List ℕ) → role t ≡ some p → Owned st.source t
    pub down :
        (t i : ℕ) (p : List ℕ)
        → role t ≡ some p
        → length p < 3
        → i < 512
        → is_present (st.mem (slot t i)) ≡ true
        → role (table_of (st.mem (slot t i))) ≡ some (i ∷ p)
