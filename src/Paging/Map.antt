-- ===== src/Paging/Map.antt =====
-- `vmm_map_page` and `vmm_unmap_page` of Kernel/src/mm/vmm.c against the walk of the processor.
use wheatley.Common.{
  ℕ, suc, ◌/◌, ◌%◌, ◌^◌, bit_or, ◌≡◌, sym, ap, ◌∙◌, Bool, true, false, Option, some, List, [], ◌∷◌,
  arith, ◌==◌, get_or, update,
}
use mathlib.Core.Path.{subst}
use wheatley.Paging.{
  PageSource, State, PageMap, slot, get_next_level, descend, write_at, write_entry, vmm_map_page,
}
use wheatley.Paging.Masks.{
  is_present, table_of, level4_of_lem, level3_of_lem, level2_of_lem, level1_of_lem,
}
use wheatley.Paging.Tree.{page_entry, indices, AllSmall, IsTree}
use wheatley.Paging.Covered.{HasTables, HasTables-kept}
use wheatley.Paging.Next.{Next, NextLevel, there, exhausted as no_page, get_next_level-NextLevel}
use wheatley.Paging.Leaf.{written-IsTree, walk-written, walk_to, path_from, same_upper}

-- Two addresses lie in one page, as far as 48 bits of address go.
abbrev pub SamePage : ℕ → ℕ → Type 0
SamePage v w = v / 4096 % 2 ^ 36 ≡ w / 4096 % 2 ^ 36

indices-SamePage :
    (v w : ℕ)
    → path_from (indices v) []
      ≡ (w / 2 ^ 12 % 512) ∷ (w / 2 ^ 21 % 512) ∷ (w / 2 ^ 30 % 512) ∷ (w / 2 ^ 39 % 512) ∷ []
    → SamePage v w
indices-SamePage v w e = omega (
  arith,
  ap (λ xs. get_or xs 0 0) e,
  ap (λ xs. get_or xs 1 0) e,
  ap (λ xs. get_or xs 2 0) e,
  ap (λ xs. get_or xs 3 0) e,
)

indices-AllSmall : (v : ℕ) → AllSmall (indices v)
indices-AllSmall v = omega arith

module _ (P : PageSource) where
  -- The entry for the page of `virt` is `value`; every other page has the entry that it had.
  pub record Mapped (st st' : State P) (top virt value : ℕ) : Type 0 where
    pub role : ℕ → Option (List ℕ)
    pub tree : IsTree P st' top role
    pub here : page_entry st'.mem top virt ≡ value
    pub elsewhere : (v : ℕ) → ¬ SamePage v virt → page_entry st'.mem top v ≡ page_entry st.mem top v
    -- The tables on the way to it are there, and those to other pages stay.
    pub covered : HasTables st'.mem top virt
    pub covers : (v : ℕ) → HasTables st.mem top v → HasTables st'.mem top v

  pub data Map (st : State P) (top virt value n : ℕ) (r : Option (Bool × State P)) : Type 0 where
    mapped :
        (st' : State P)
        → r ≡ some (true, st')
        → Mapped st st' top virt value
        → P.IsReady n st'.source
        → Map st top virt value n r
    -- The source of pages, which was ready, had none for a table that was missing.
    exhausted :
        (st' : State P) (before : P.Source) (k : ℕ)
        → r ≡ some (false, st')
        → P.IsReady (suc k) before
        → P.alloc before ≡ some (0, st'.source)
        → Map st top virt value n r

  pub descend-some :
      (st st' : State P) (t i c : ℕ) (b : Bool) (k : ℕ → State P → Option (Bool × State P))
      → get_next_level P st t i b ≡ some (c, st')
      → (c == 0) ≡ false
      → descend P st t i b k ≡ k c st'
  unfolding descend
  descend-some st st' t i c b k e ne = rw (e, descend) (rw ne)

  pub descend-null :
      (st st' : State P) (t i : ℕ) (b : Bool) (k : ℕ → State P → Option (Bool × State P))
      → get_next_level P st t i b ≡ some (0, st')
      → descend P st t i b k ≡ some (false, st')
  unfolding descend
  descend-null st st' t i b k e = rw (e, descend)

  module _ (st : State P) (top : ℕ) (role : ℕ → Option (List ℕ)) (tree : IsTree P st top role)
      (virt value n : ℕ) where
    abbrev pub i4 : ℕ
    i4 = virt / 2 ^ 39 % 512

    abbrev pub i3 : ℕ
    i3 = virt / 2 ^ 30 % 512

    abbrev pub i2 : ℕ
    i2 = virt / 2 ^ 21 % 512

    abbrev pub i1 : ℕ
    i1 = virt / 2 ^ 12 % 512

    -- The end of the walk: three tables are there, and the entry is written.
    pub leaf_Mapped :
        {st3 st2 st1 : State P} {role3 role2 role1 : ℕ → Option (List ℕ)} (t3 t2 t1 : ℕ)
        → Next P st st3 top role role3 top i4 t3 []
        → Next P st3 st2 top role3 role2 t3 i3 t2 (i4 ∷ [])
        → Next P st2 st1 top role2 role1 t2 i2 t1 (i3 ∷ i4 ∷ [])
        → Mapped st (record st1 { mem = update st1.mem (slot t1 i1) value }) top virt value
    leaf_Mapped {st3} {st2} {st1} {role1} t3 t2 t1 a b c =
        let r4 = c.extends top [] (b.extends top [] (a.extends top [] tree.root)) in
        let r3 = c.extends t3 (i4 ∷ []) (b.extends t3 (i4 ∷ []) a.child) in
        let r2 = c.extends t2 (i3 ∷ i4 ∷ []) b.child in
        let keep4b = b.keeps top i4 [] (a.extends top [] tree.root) (omega arith) a.present in
        let on4b = ap is_present keep4b ∙ a.present in
        let keep4c =
          c.keeps top i4 [] (b.extends top [] (a.extends top [] tree.root)) (omega arith) on4b in
        let keep3 =
          c.keeps t3 i3 (i4 ∷ []) (b.extends t3 (i4 ∷ []) a.child) (omega arith) b.present in
        let mem' = update st1.mem (slot t1 i1) value in
        let written : (v : ℕ) → HasTables st1.mem top v → HasTables mem' top v = λ v.
          HasTables-kept P c.tree mem'
            (λ u j q r len lt on.
              same_upper P c.tree t1 i1 (i2 ∷ i3 ∷ i4 ∷ []) c.child (omega arith) (omega arith)
                value u j q r len lt)
            v in
        let at3 = ap table_of (keep4c ∙ keep4b) ∙ a.linked in
        let at2 = ap table_of keep3 ∙ b.linked in
        record {
          role = role1;
          tree =
              written-IsTree P c.tree t1 i1 (i2 ∷ i3 ∷ i4 ∷ []) c.child (omega arith) (omega arith)
                value;
          here =
              walk_to P c.tree t1 i1 (i2 ∷ i3 ∷ i4 ∷ []) c.child (omega arith) (omega arith) value
                top t3 t2 i4 i3 i2 r4 r3 r2 (omega arith) (ap is_present keep4c ∙ on4b)
                (ap table_of (keep4c ∙ keep4b) ∙ a.linked) (ap is_present keep3 ∙ b.present)
                (ap table_of keep3 ∙ b.linked) c.present c.linked;
          elsewhere = λ v other.
              walk-written P c.tree t1 i1 (i2 ∷ i3 ∷ i4 ∷ []) c.child (omega arith) (omega arith)
                value (indices v) top [] r4 (omega arith) (indices-AllSmall v)
                (λ e. other (indices-SamePage v virt e))
              ∙ c.walks (indices v) (omega arith) (indices-AllSmall v)
              ∙ b.walks (indices v) (omega arith) (indices-AllSmall v)
              ∙ a.walks (indices v) (omega arith) (indices-AllSmall v);
          covered = written virt (record {
            on4 = ap is_present keep4c ∙ on4b;
            on3 = ap (λ t. is_present (st1.mem (slot t i3))) at3 ∙ ap is_present keep3 ∙ b.present;
            on2 =
                ap (λ t. is_present (st1.mem (slot (table_of (st1.mem (slot t i3))) i2))) at3
                ∙ ap (λ t. is_present (st1.mem (slot t i2))) at2
                ∙ c.present;
          });
          covers = λ v t. written v (
              HasTables-kept P b.tree st1.mem (λ u j q r len lt on. c.keeps u j q r lt on) v
                (HasTables-kept P a.tree st2.mem (λ u j q r len lt on. b.keeps u j q r lt on) v
                  (HasTables-kept P tree st3.mem (λ u j q r len lt on. a.keeps u j q r lt on) v
                    t)));
        }

    pub write_entry_lem :
        (b : Bool) → write_entry P st top virt b value ≡ write_at P st top i4 i3 i2 i1 b value
    unfolding write_entry
    write_entry_lem b = λ i.
        write_at P st top (level4_of_lem virt i) (level3_of_lem virt i) (level2_of_lem virt i)
          (level1_of_lem virt i) b value

    abbrev Result : ℕ → Option (Bool × State P) → Type 0
    Result n r = Map st top virt value n r

    from_level2 :
        {st3 st2 : State P} {role3 role2 : ℕ → Option (List ℕ)} (t3 t2 : ℕ)
        → Next P st st3 top role role3 top i4 t3 []
        → Next P st3 st2 top role3 role2 t3 i3 t2 (i4 ∷ [])
        → P.IsReady (suc n) st2.source
        → Result n (
            descend P st2 t2 i2 true
              λ t1 st1. some (true, record st1 { mem = update st1.mem (slot t1 i1) value }))
    from_level2 {st2} {role2} t3 t2 a b ready = finish (
        get_next_level-NextLevel P st2 top role2 b.tree t2 i2 (i3 ∷ i4 ∷ []) b.child (omega arith)
          (omega arith) n ready)
      where
        finish :
            NextLevel P st2 top role2 t2 i2 (i3 ∷ i4 ∷ []) n (get_next_level P st2 t2 i2 true)
            → Result n (
                descend P st2 t2 i2 true
                  λ t1 st1. some (true, record st1 { mem = update st1.mem (slot t1 i1) value }))
        finish (there t1 st1 role1 e ne c ready') =
            mapped (record st1 { mem = update st1.mem (slot t1 i1) value })
              (descend-some st2 st1 t2 i2 t1 true _ e ne) (leaf_Mapped t3 t2 t1 a b c) ready'
        finish (no_page st' e out) =
            exhausted st' st2.source n (descend-null st2 st' t2 i2 true _ e) ready out

    abbrev tail2 : ℕ → State P → Option (Bool × State P)
    tail2 t2 st2 =
        descend P st2 t2 i2 true
          λ t1 st1. some (true, record st1 { mem = update st1.mem (slot t1 i1) value })

    abbrev tail3 : ℕ → State P → Option (Bool × State P)
    tail3 t3 st3 = descend P st3 t3 i3 true tail2

    from_level3 :
        {st3 : State P} {role3 : ℕ → Option (List ℕ)} (t3 : ℕ)
        → Next P st st3 top role role3 top i4 t3 []
        → P.IsReady (suc (suc n)) st3.source
        → Result n (tail3 t3 st3)
    from_level3 {st3} {role3} t3 a ready = finish (
        get_next_level-NextLevel P st3 top role3 a.tree t3 i3 (i4 ∷ []) a.child (omega arith)
          (omega arith) (suc n) ready)
      where
        finish :
            NextLevel P st3 top role3 t3 i3 (i4 ∷ []) (suc n) (get_next_level P st3 t3 i3 true)
            → Result n (tail3 t3 st3)
        finish (there t2 st2 role2 e ne b ready') =
            subst (Result n) (sym (descend-some st3 st2 t3 i3 t2 true tail2 e ne))
              (from_level2 t3 t2 a b ready')
        finish (no_page st' e out) =
            exhausted st' st3.source (suc n) (descend-null st3 st' t3 i3 true tail2 e) ready out

    pub write_entry-Map :
        P.IsReady (suc (suc (suc n))) st.source → Result n (write_entry P st top virt true value)
    unfolding write_at
    write_entry-Map ready = subst (Result n) (sym (write_entry_lem true)) (
        finish (
          get_next_level-NextLevel P st top role tree top i4 [] tree.root (omega arith)
            (omega arith) (suc (suc n)) ready))
      where
        finish :
            NextLevel P st top role top i4 [] (suc (suc n)) (get_next_level P st top i4 true)
            → Result n (descend P st top i4 true tail3)
        finish (there t3 st3 role3 e ne a ready') =
            subst (Result n) (sym (descend-some st st3 top i4 t3 true tail3 e ne))
              (from_level3 t3 a ready')
        finish (no_page st' e out) =
            exhausted st' st.source (suc (suc n)) (descend-null st st' top i4 true tail3 e) ready
              out

  -- `vmm_map_page` on an unlocked page map whose tables form a tree, with a source of pages that
  -- may be asked for three: it returns true, the processor finds `phys | flags` for the page, every
  -- other page has the entry that it had, and the tables still form a tree; or it returns false,
  -- and the source had no page to give for a table.
  pub vmm_map_page-Map :
      (st : State P) (pagemap : PageMap) (role : ℕ → Option (List ℕ)) (phys virt flags n : ℕ)
      → IsTree P st pagemap.top_level role
      → pagemap.locked ≡ false
      → P.IsReady (suc (suc (suc n))) st.source
      → Map st pagemap.top_level virt
          (bit_or phys flags)
          n
          (vmm_map_page P st (some pagemap) phys virt flags)
  unfolding vmm_map_page
  vmm_map_page-Map st pagemap role phys virt flags n tree idle ready =
      rw idle (write_entry-Map st pagemap.top_level role tree virt (bit_or phys flags) n ready)
