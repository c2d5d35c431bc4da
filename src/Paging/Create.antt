-- ===== src/Paging/Create.antt =====
-- A new table under an absent entry: no walk sees a difference, and every table keeps its place.
use wheatley.Common.{
  ℕ, suc, ◌+◌, ◌%◌, ◌^◌, ◌<◌, bit_or, ◌≡◌, refl, sym, ap, ap₂, ◌∙◌, ◌≢◌, ◌⊎◌, inl, inr, true, false,
  Option, some, List, [], ◌∷◌, arith, Bool-cases, length, update, fill,
}
use mathlib.Core.Path.{subst}
use native.Mathlib.Decide.{ℕ_discrete}
use wheatley.Paging.{PageSource, State, slot}
use wheatley.Paging.Masks.{is_present, is_present_iff, table_of, new_entry-table, new_entry-present}
use wheatley.Paging.Tree.{walk, AllSmall, IsTree, walk_absent, walk_present}

pub slot_ne :
    (t u i j : ℕ) → t % 4096 ≡ 0 → u % 4096 ≡ 0 → i < 512 → j < 512 → t ≢ u → slot t i ≢ slot u j
slot_ne t u i j ht hu hi hj ne e = ne (omega arith)

module _ (P : PageSource) {st : State P} {top : ℕ} {role : ℕ → Option (List ℕ)}
    (tree : IsTree P st top role) (t i : ℕ) (p : List ℕ) (at : role t ≡ some p)
    (upper : length p < 3) (small : i < 512) (absent : is_present (st.mem (slot t i)) ≡ false)
    (n a : ℕ) {source : P.Source} (ready : P.IsReady (suc n) st.source)
    (got : P.alloc st.source ≡ some (a, source)) (page : a ≢ 0) where
  open P use {Source, alloc, Owned, alloc_fresh, alloc_keeps, owned_page}

  abbrev pub created : State P
  created = record {
    mem = update (fill st.mem a 4096 0) (slot t i) (bit_or a 0b111);
    source = source;
  }

  abbrev pub role' : ℕ → Option (List ℕ)
  role' = update role a (some (i ∷ p))

  aligned : a % 4096 ≡ 0
  aligned = (owned_page source a (alloc_fresh n a st.source source ready got page).0).0

  word : a < 2 ^ 64
  word = (owned_page source a (alloc_fresh n a st.source source ready got page).0).2

  -- The new page is none of the tables.
  new : (u : ℕ) (q : List ℕ) → role u ≡ some q → a ≢ u
  new u q r e =
      (alloc_fresh n a st.source source ready got page).1
        (subst (Owned st.source) (sym e) (tree.owned u q r))

  table_aligned : (u : ℕ) (q : List ℕ) → role u ≡ some q → u % 4096 ≡ 0
  table_aligned u q r = (owned_page st.source u (tree.owned u q r)).0

  pub same_slot :
      (u j : ℕ) (q : List ℕ)
      → role u ≡ some q
      → j < 512
      → slot t i ≢ slot u j
      → created.mem (slot u j) ≡ st.mem (slot u j)
  same_slot u j q r lt ne = ground (arith, new u q r, table_aligned u q r, aligned)

  zero_slot : (j : ℕ) → j < 512 → created.mem (slot a j) ≡ 0
  zero_slot j lt = ground (arith, new t p at, table_aligned t p at, aligned, slot_ne t a i j)

  pub link : created.mem (slot t i) ≡ bit_or a 0b111
  link = ground arith

  pub link-table : table_of (created.mem (slot t i)) ≡ a
  link-table = ap table_of link ∙ new_entry-table a aligned word

  pub link-present : is_present (created.mem (slot t i)) ≡ true
  link-present = ap is_present link ∙ new_entry-present a aligned

  pub role'-old : (u : ℕ) (q : List ℕ) → role u ≡ some q → role' u ≡ some q
  role'-old u q r = ground (arith, new u q r)

  pub role'-new : role' a ≡ some (i ∷ p)
  role'-new = ground arith

  -- Through the new table a walk finds nothing.
  walk-new : (is : List ℕ) → AllSmall is → walk created.mem a is ≡ 0
  unfolding walk
  walk-new [] all = refl
  walk-new (j ∷ []) all = zero_slot j all.0
  walk-new (j ∷ k ∷ is) all =
      let z = zero_slot j all.0 in
      let off : is_present (created.mem (slot a j)) ≡ false =
        ap is_present z ∙ ground (arith, is_present_iff 0) in
      rw off

  same_path : (u j : ℕ) (q : List ℕ) → role u ≡ some q → j < 512 → slot t i ≡ slot u j → p ≡ q
  same_path u j q r lt e =
      let same : t ≡ u = omega (arith, table_aligned t p at, table_aligned u q r) in
      let e' : some p ≡ some q = sym at ∙ ap role same ∙ r in cc

  walk-here :
      (j k : ℕ) (is : List ℕ) (u : ℕ)
      → slot t i ≡ slot u j
      → AllSmall (j ∷ k ∷ is)
      → walk created.mem u (j ∷ k ∷ is) ≡ walk st.mem u (j ∷ k ∷ is)
  walk-here j k is u here all =
      let linked : created.mem (slot u j) ≡ created.mem (slot t i) = ap created.mem (sym here) in
      walk_present created.mem u j k is (ap is_present linked ∙ link-present)
      ∙ ap (λ (x : ℕ). walk created.mem x (k ∷ is)) (ap table_of linked ∙ link-table)
      ∙ walk-new (k ∷ is) all.1
      ∙ sym (walk_absent st.mem u j k is (ap (λ x. is_present (st.mem x)) (sym here) ∙ absent))

  -- A walk from a table, before and after.
  pub walk-created :
      (is : List ℕ) (u : ℕ) (q : List ℕ)
      → role u ≡ some q
      → length q + length is ≡ 4
      → AllSmall is
      → walk created.mem u is ≡ walk st.mem u is
  unfolding walk
  walk-created [] u q r len all = refl
  walk-created (j ∷ []) u q r len all =
      same_slot u j q r all.0
        (λ e. let same = same_path u j q r all.0 e in omega (arith, ap length same))
  walk-created (j ∷ k ∷ is) u q r len all = elim (ℕ_discrete (slot t i) (slot u j)) [
    | yes here ↦ walk-here j k is u here all
    | no elsewhere ↦
        let same = same_slot u j q r all.0 elsewhere in
        elim (Bool-cases (is_present (st.mem (slot u j)))) [
          | inl on ↦
              walk_present created.mem u j k is (ap is_present same ∙ on)
              ∙ ap (λ (e : ℕ). walk created.mem (table_of e) (k ∷ is)) same
              ∙ walk-created (k ∷ is) (table_of (st.mem (slot u j))) (j ∷ q)
                  (tree.down u j q r (omega arith) all.0 on) (omega arith) all.1
              ∙ sym (walk_present st.mem u j k is on)
          | inr off ↦
              walk_absent created.mem u j k is (ap is_present same ∙ off)
              ∙ sym (walk_absent st.mem u j k is off)
        ]
  ]

  role'-cases :
      (u : ℕ) (q : List ℕ) → role' u ≡ some q → ((a ≡ u) × (q ≡ i ∷ p)) ⊎ (role u ≡ some q)
  role'-cases u q r = ground arith

  created_owned : (u : ℕ) (q : List ℕ) → role' u ≡ some q → Owned source u
  created_owned u q r = elim (role'-cases u q r) [
    | inl (e, path) ↦ subst (Owned source) e (alloc_fresh n a st.source source ready got page).0
    | inr old ↦ alloc_keeps n a u st.source source ready got (tree.owned u q old)
  ]

  created_down_old :
      (u j : ℕ) (q : List ℕ)
      → role u ≡ some q
      → length q < 3
      → j < 512
      → is_present (created.mem (slot u j)) ≡ true
      → role' (table_of (created.mem (slot u j))) ≡ some (j ∷ q)
  created_down_old u j q r len lt on = elim (ℕ_discrete (slot t i) (slot u j)) [
    | yes here ↦
        let index : i ≡ j = omega (arith, table_aligned t p at, table_aligned u q r) in
        ap (λ (x : ℕ). role' (table_of (created.mem x))) (sym here)
        ∙ ap role' link-table
        ∙ role'-new
        ∙ ap₂ (λ x xs. some (x ∷ xs)) index (same_path u j q r lt here)
    | no elsewhere ↦
        let same = same_slot u j q r lt elsewhere in
        ap (λ e. role' (table_of e)) same
        ∙ role'-old (table_of (st.mem (slot u j))) (j ∷ q)
            (tree.down u j q r len lt (ap is_present (sym same) ∙ on))
  ]

  created_down :
      (u j : ℕ) (q : List ℕ)
      → role' u ≡ some q
      → length q < 3
      → j < 512
      → is_present (created.mem (slot u j)) ≡ true
      → role' (table_of (created.mem (slot u j))) ≡ some (j ∷ q)
  created_down u j q r len lt on = elim (role'-cases u q r) [
    | inl (e, path) ↦
        let z : created.mem (slot u j) ≡ 0 =
          ap (λ (x : ℕ). created.mem (slot x j)) (sym e) ∙ zero_slot j lt in
        absurd (ground (arith, ap is_present z, is_present_iff 0))
    | inr old ↦ created_down_old u j q old len lt on
  ]

  pub created-IsTree : IsTree P created top role'
  created-IsTree = record {
    root = role'-old top [] tree.root;
    owned = created_owned;
    down = created_down;
  }
