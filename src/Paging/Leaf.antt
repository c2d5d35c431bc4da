-- ===== src/Paging/Leaf.antt =====
-- The write of a leaf entry: one walk ends there, and no other sees it.
use wheatley.Common.{
  ℕ, ◌+◌, ◌%◌, ◌<◌, ◌≡◌, refl, sym, ap, ap₂, ◌∙◌, ◌≢◌, inl, inr, true, Option, some, List, [], ◌∷◌,
  arith, Bool-cases, length, update,
}
use native.Mathlib.Decide.{ℕ_discrete}
use wheatley.Paging.{PageSource, State, slot}
use wheatley.Paging.Masks.{is_present, table_of}
use wheatley.Paging.Tree.{walk, AllSmall, IsTree, walk_absent, walk_present}

-- The path of a walk's last entry, last index first, from a table with path `p`.
abbrev pub path_from : List ℕ → List ℕ → List ℕ
path_from [] p = p
path_from (i ∷ is) p = path_from is (i ∷ p)

module _ (P : PageSource) {st : State P} {top : ℕ} {role : ℕ → Option (List ℕ)}
    (tree : IsTree P st top role) (t i : ℕ) (p : List ℕ) (at : role t ≡ some p)
    (leaf : length p ≡ 3) (small : i < 512) (value : ℕ) where
  open P use {owned_page}

  abbrev pub written : State P
  written = record st { mem = update st.mem (slot t i) value }

  aligned : (u : ℕ) (q : List ℕ) → role u ≡ some q → u % 4096 ≡ 0
  aligned u q r = (owned_page st.source u (tree.owned u q r)).0

  same_place :
      (u j : ℕ) (q : List ℕ) → role u ≡ some q → j < 512 → slot t i ≡ slot u j → (p ≡ q) × (i ≡ j)
  same_place u j q r lt e =
      let same : t ≡ u = omega (arith, aligned t p at, aligned u q r) in
      let index : i ≡ j = omega arith in
      let e' : some p ≡ some q = sym at ∙ ap role same ∙ r in (cc, index)

  -- Entries of the upper levels are not touched.
  pub same_upper :
      (u j : ℕ) (q : List ℕ)
      → role u ≡ some q
      → length q < 3
      → j < 512
      → written.mem (slot u j) ≡ st.mem (slot u j)
  same_upper u j q r len lt = elim (ℕ_discrete (slot t i) (slot u j)) [
    | yes here ↦ let same = same_place u j q r lt here in absurd (omega (arith, ap length same.0))
    | no elsewhere ↦ ground arith
  ]

  pub written-IsTree : IsTree P written top role
  written-IsTree = record {
    root = tree.root;
    owned = tree.owned;
    down = λ u j q r len lt on.
        let same = same_upper u j q r len lt in
        ap (λ e. role (table_of e)) same ∙ tree.down u j q r len lt (ap is_present (sym same) ∙ on);
  }

  -- A walk with another path ends as before.
  pub walk-written :
      (is : List ℕ) (u : ℕ) (q : List ℕ)
      → role u ≡ some q
      → length q + length is ≡ 4
      → AllSmall is
      → path_from is q ≢ i ∷ p
      → walk written.mem u is ≡ walk st.mem u is
  unfolding walk
  walk-written [] u q r len all ne = refl
  walk-written (j ∷ []) u q r len all ne = elim (ℕ_discrete (slot t i) (slot u j)) [
    | yes here ↦
        let same = same_place u j q r all.0 here in
        absurd (ne (ap₂ (λ x xs. x ∷ xs) (sym same.1) (sym same.0)))
    | no elsewhere ↦ ground arith
  ]
  walk-written (j ∷ k ∷ is) u q r len all ne =
      let same = same_upper u j q r (omega arith) all.0 in
      elim (Bool-cases (is_present (st.mem (slot u j)))) [
        | inl on ↦
            walk_present written.mem u j k is (ap is_present same ∙ on)
            ∙ ap (λ (e : ℕ). walk written.mem (table_of e) (k ∷ is)) same
            ∙ walk-written (k ∷ is) (table_of (st.mem (slot u j))) (j ∷ q)
                (tree.down u j q r (omega arith) all.0 on) (omega arith) all.1 ne
            ∙ sym (walk_present st.mem u j k is on)
        | inr off ↦
            walk_absent written.mem u j k is (ap is_present same ∙ off)
            ∙ sym (walk_absent st.mem u j k is off)
      ]

  -- Through three present entries a walk comes to the value.
  pub walk_to :
      (top' t3 t2 i4 i3 i2 : ℕ)
      → role top' ≡ some []
      → role t3 ≡ some (i4 ∷ [])
      → role t2 ≡ some (i3 ∷ i4 ∷ [])
      → AllSmall (i4 ∷ i3 ∷ i2 ∷ [])
      → is_present (st.mem (slot top' i4)) ≡ true
      → table_of (st.mem (slot top' i4)) ≡ t3
      → is_present (st.mem (slot t3 i3)) ≡ true
      → table_of (st.mem (slot t3 i3)) ≡ t2
      → is_present (st.mem (slot t2 i2)) ≡ true
      → table_of (st.mem (slot t2 i2)) ≡ t
      → walk written.mem top' (i4 ∷ i3 ∷ i2 ∷ i ∷ []) ≡ value
  unfolding walk
  walk_to top' t3 t2 i4 i3 i2 r4 r3 r2 all on4 at4 on3 at3 on2 at2 =
      let same4 = same_upper top' i4 [] r4 (omega arith) all.0 in
      let same3 = same_upper t3 i3 (i4 ∷ []) r3 (omega arith) all.1.0 in
      let same2 = same_upper t2 i2 (i3 ∷ i4 ∷ []) r2 (omega arith) all.1.1.0 in
      walk_present written.mem top' i4 i3 (i2 ∷ i ∷ []) (ap is_present same4 ∙ on4)
      ∙ ap (λ (x : ℕ). walk written.mem x (i3 ∷ i2 ∷ i ∷ [])) (ap table_of same4 ∙ at4)
      ∙ walk_present written.mem t3 i3 i2 (i ∷ []) (ap is_present same3 ∙ on3)
      ∙ ap (λ (x : ℕ). walk written.mem x (i2 ∷ i ∷ [])) (ap table_of same3 ∙ at3)
      ∙ walk_present written.mem t2 i2 i [] (ap is_present same2 ∙ on2)
      ∙ ap (λ (x : ℕ). walk written.mem x (i ∷ [])) (ap table_of same2 ∙ at2)
      ∙ ground arith
