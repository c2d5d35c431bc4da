-- ===== src/Paging/Again.antt =====
-- `vmm_map_page` of Kernel/src/mm/vmm.c where every table is there already: it takes no page.
use wheatley.Common.{
  ℕ, ◌/◌, ◌%◌, ◌^◌, ◌<◌, ◌≡◌, ◌∙◌, Bool, true, Option, some, List, [], ◌∷◌, arith, length, update,
}
use wheatley.Paging.{PageSource, State, slot, descend, write_at}
use wheatley.Paging.Masks.{is_present, table_of}
use wheatley.Paging.Tree.{IsTree}
use wheatley.Paging.Next.{here_Next, not_null, get_next_level_present}
use wheatley.Paging.Covered.{HasTables}
use wheatley.Paging.Map.{Mapped, descend-some, leaf_Mapped}

module _ (P : PageSource) (st : State P) (top : ℕ) (role : ℕ → Option (List ℕ))
    (tree : IsTree P st top role) (virt value : ℕ) (t : HasTables st.mem top virt) where
  abbrev j4 : ℕ
  j4 = virt / 2 ^ 39 % 512

  abbrev j3 : ℕ
  j3 = virt / 2 ^ 30 % 512

  abbrev j2 : ℕ
  j2 = virt / 2 ^ 21 % 512

  abbrev j1 : ℕ
  j1 = virt / 2 ^ 12 % 512

  abbrev t3 : ℕ
  t3 = table_of (st.mem (slot top j4))

  abbrev t2 : ℕ
  t2 = table_of (st.mem (slot t3 j3))

  abbrev t1 : ℕ
  t1 = table_of (st.mem (slot t2 j2))

  abbrev pub after : State P
  after = record st { mem = update st.mem (slot t1 j1) value }

  on_down :
      (u i : ℕ) (p : List ℕ)
      → role u ≡ some p
      → length p < 3
      → i < 512
      → is_present (st.mem (slot u i)) ≡ true
      → (k : ℕ → State P → Option (Bool × State P))
      → descend P st u i true k ≡ k (table_of (st.mem (slot u i))) st
  on_down u i p r len lt on k =
      descend-some P st st u i (table_of (st.mem (slot u i))) true k
        (get_next_level_present P st top role tree u i p r len lt true on)
        (not_null P st top role tree u i p r len lt (table_of (st.mem (slot u i))) (i ∷ p)
          (tree.down u i p r len lt on))

  -- On an unlocked page map whose tables form a tree, a page whose tables are all there is mapped
  -- without a new page, and as `vmm_map_page` maps any.
  pub vmm_map_page-again :
      (write_at P st top j4 j3 j2 j1 true value ≡ some (true, after))
      × Mapped P st after top virt value
  unfolding write_at
  vmm_map_page-again =
      let r3 = tree.down top j4 [] tree.root (omega arith) (omega arith) t.on4 in
      let r2 = tree.down t3 j3 (j4 ∷ []) r3 (omega arith) (omega arith) t.on3 in
      (
        on_down top j4 [] tree.root (omega arith) (omega arith) t.on4 _
            ∙ on_down t3 j3 (j4 ∷ []) r3 (omega arith) (omega arith) t.on3 _
            ∙ on_down t2 j2 (j3 ∷ j4 ∷ []) r2 (omega arith) (omega arith) t.on2 _,
        leaf_Mapped P st top role tree virt value 0 t3 t2 t1
            (here_Next P st top role tree top j4 [] tree.root (omega arith) (omega arith) t.on4)
            (here_Next P st top role tree t3 j3 (j4 ∷ []) r3 (omega arith) (omega arith) t.on3)
            (here_Next P st top role tree t2 j2 (j3 ∷ j4 ∷ []) r2 (omega arith) (omega arith)
              t.on2),
      )
