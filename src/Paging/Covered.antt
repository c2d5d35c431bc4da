-- ===== src/Paging/Covered.antt =====
-- When the walk of Kernel/src/mm/vmm.c needs no new table: the three upper entries are present. Adding
-- tables and writing entries of the last level keeps them.
use wheatley.Common.{
  ℕ, ◌/◌, ◌%◌, ◌^◌, ◌<◌, ◌≡◌, sym, ap, ◌∙◌, true, Option, some, List, [], ◌∷◌, arith, length,
}
use wheatley.Paging.{PageSource, State, slot}
use wheatley.Paging.Masks.{is_present, table_of}
use wheatley.Paging.Tree.{IsTree}

-- The entries on the way to the table of the last level for `v`.
abbrev pub entry4 : (mem : ℕ → ℕ) → (top v : ℕ) → ℕ
entry4 mem top v = mem (slot top (v / 2 ^ 39 % 512))

abbrev pub entry3 : (mem : ℕ → ℕ) → (top v : ℕ) → ℕ
entry3 mem top v = mem (slot (table_of (entry4 mem top v)) (v / 2 ^ 30 % 512))

abbrev pub entry2 : (mem : ℕ → ℕ) → (top v : ℕ) → ℕ
entry2 mem top v = mem (slot (table_of (entry3 mem top v)) (v / 2 ^ 21 % 512))

pub record HasTables (mem : ℕ → ℕ) (top v : ℕ) : Type 0 where
  pub on4 : is_present (entry4 mem top v) ≡ true
  pub on3 : is_present (entry3 mem top v) ≡ true
  pub on2 : is_present (entry2 mem top v) ≡ true

-- One table of the last level serves 2 MB.
pub HasTables-region :
    (mem : ℕ → ℕ) (top v w : ℕ)
    → v / 2 ^ 21 % 2 ^ 27 ≡ w / 2 ^ 21 % 2 ^ 27
    → HasTables mem top v
    → HasTables mem top w
HasTables-region mem top v w same t =
    let e4 : v / 2 ^ 39 % 512 ≡ w / 2 ^ 39 % 512 = omega (arith, same) in
    let e3 : v / 2 ^ 30 % 512 ≡ w / 2 ^ 30 % 512 = omega (arith, same) in
    let e2 : v / 2 ^ 21 % 512 ≡ w / 2 ^ 21 % 512 = omega (arith, same) in
    record {
      on4 = ap (λ i. is_present (mem (slot top i))) (sym e4) ∙ t.on4;
      on3 = rw (sym e4, sym e3) t.on3;
      on2 = rw (sym e4, sym e3, sym e2) t.on2;
    }

module _ (P : PageSource) {st : State P} {top : ℕ} {role : ℕ → Option (List ℕ)}
    (tree : IsTree P st top role) (mem' : ℕ → ℕ)
    (keeps : (u j : ℕ) (q : List ℕ)
      → role u ≡ some q
      → length q < 3
      → j < 512
      → is_present (st.mem (slot u j)) ≡ true
      → mem' (slot u j) ≡ st.mem (slot u j)) where
  -- Present entries of the upper levels that stay keep the way.
  pub HasTables-kept : (v : ℕ) → HasTables st.mem top v → HasTables mem' top v
  HasTables-kept v t =
      let i4 = v / 2 ^ 39 % 512 in
      let i3 = v / 2 ^ 30 % 512 in
      let i2 = v / 2 ^ 21 % 512 in
      let s4 = keeps top i4 [] tree.root (omega arith) (omega arith) t.on4 in
      let r3 = tree.down top i4 [] tree.root (omega arith) (omega arith) t.on4 in
      let s3 =
        keeps (table_of (entry4 st.mem top v)) i3 (i4 ∷ []) r3 (omega arith) (omega arith) t.on3 in
      let r2 =
        tree.down (table_of (entry4 st.mem top v)) i3 (i4 ∷ []) r3 (omega arith) (omega arith)
          t.on3 in
      let s2 =
        keeps (table_of (entry3 st.mem top v)) i2 (i3 ∷ i4 ∷ []) r2 (omega arith) (omega arith)
          t.on2 in
      let at3 : entry3 mem' top v ≡ entry3 st.mem top v =
        ap (λ e. mem' (slot (table_of e) i3)) s4 ∙ s3 in
      let at2 : entry2 mem' top v ≡ entry2 st.mem top v =
        ap (λ e. mem' (slot (table_of e) i2)) at3 ∙ s2 in
      record {
        on4 = ap is_present s4 ∙ t.on4;
        on3 = ap is_present at3 ∙ t.on3;
        on2 = ap is_present at2 ∙ t.on2;
      }
