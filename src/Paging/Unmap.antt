-- ===== src/Paging/Unmap.antt =====
-- `vmm_unmap_page` of Kernel/src/mm/vmm.c on every branch.
use wheatley.Common.{
  ℕ, ◌/◌, ◌%◌, ◌^◌, ◌<◌, ◌≡◌, sym, ◌∙◌, inl, inr, Bool, true, false, Option, some, List, [], ◌∷◌,
  arith, Bool-cases, length, update,
}
use mathlib.Core.Path.{subst}
use wheatley.Paging.{PageSource, State, PageMap, slot, descend, write_at, vmm_unmap_page}
use wheatley.Paging.Masks.{is_present, table_of}
use wheatley.Paging.Tree.{page_entry, IsTree, walk_absent, walk_present}
use wheatley.Paging.Next.{here_Next, not_null, get_next_level_present, get_next_level_absent}
use wheatley.Paging.Map.{Mapped, descend-some, descend-null, leaf_Mapped, write_entry_lem}

module _ (P : PageSource) where
  pub data Unmap (st : State P) (top virt : ℕ) (r : Option (Bool × State P)) : Type 0 where
    unmapped :
        (st' : State P) → r ≡ some (true, st') → Mapped P st st' top virt 0 → Unmap st top virt r
    missing : r ≡ some (false, st) → page_entry st.mem top virt ≡ 0 → Unmap st top virt r

  module _ (st : State P) (top : ℕ) (role : ℕ → Option (List ℕ)) (tree : IsTree P st top role)
      (virt : ℕ) where
    abbrev j4 : ℕ
    j4 = virt / 2 ^ 39 % 512

    abbrev j3 : ℕ
    j3 = virt / 2 ^ 30 % 512

    abbrev j2 : ℕ
    j2 = virt / 2 ^ 21 % 512

    abbrev j1 : ℕ
    j1 = virt / 2 ^ 12 % 512

    abbrev t3 : ℕ
    t3 = table_of (st.mem (slot top j4))

    abbrev t2 : ℕ
    t2 = table_of (st.mem (slot t3 j3))

    abbrev t1 : ℕ
    t1 = table_of (st.mem (slot t2 j2))

    abbrev end : ℕ → State P → Option (Bool × State P)
    end t st' = some (true, record st' { mem = update st'.mem (slot t j1) 0 })

    abbrev tail2 : ℕ → State P → Option (Bool × State P)
    tail2 t st' = descend P st' t j2 false end

    abbrev tail3 : ℕ → State P → Option (Bool × State P)
    tail3 t st' = descend P st' t j3 false tail2

    -- One level down: on, or stop with `false`.
    descend_here :
        (t i : ℕ) (p : List ℕ)
        → role t ≡ some p
        → length p < 3
        → i < 512
        → is_present (st.mem (slot t i)) ≡ true
        → (k : ℕ → State P → Option (Bool × State P))
        → descend P st t i false k ≡ k (table_of (st.mem (slot t i))) st
    descend_here t i p r len lt on k =
        descend-some P st st t i (table_of (st.mem (slot t i))) false k
          (get_next_level_present P st top role tree t i p r len lt false on)
          (not_null P st top role tree t i p r len lt (table_of (st.mem (slot t i))) (i ∷ p)
            (tree.down t i p r len lt on))

    descend_absent :
        (t i : ℕ) (p : List ℕ)
        → role t ≡ some p
        → length p < 3
        → i < 512
        → is_present (st.mem (slot t i)) ≡ false
        → (k : ℕ → State P → Option (Bool × State P)) → descend P st t i false k ≡ some (false, st)
    descend_absent t i p r len lt off k =
        descend-null P st st t i false k
          (get_next_level_absent P st top role tree t i p r len lt off)

    Unmap-at : Unmap st top virt (write_at P st top j4 j3 j2 j1 false 0)
    unfolding write_at
    Unmap-at = elim (Bool-cases (is_present (st.mem (slot top j4)))) [
      | inr off4 ↦
          missing (descend_absent top j4 [] tree.root (omega arith) (omega arith) off4 tail3)
            (walk_absent st.mem top j4 j3 (j2 ∷ j1 ∷ []) off4)
      | inl on4 ↦
          let r3 = tree.down top j4 [] tree.root (omega arith) (omega arith) on4 in
          let go4 = descend_here top j4 [] tree.root (omega arith) (omega arith) on4 tail3 in
          let see4 = walk_present st.mem top j4 j3 (j2 ∷ j1 ∷ []) on4 in
          elim (Bool-cases (is_present (st.mem (slot t3 j3)))) [
            | inr off3 ↦
                missing
                  (go4 ∙ descend_absent t3 j3 (j4 ∷ []) r3 (omega arith) (omega arith) off3 tail2)
                  (see4 ∙ walk_absent st.mem t3 j3 j2 (j1 ∷ []) off3)
            | inl on3 ↦
                let r2 = tree.down t3 j3 (j4 ∷ []) r3 (omega arith) (omega arith) on3 in
                let go3 = descend_here t3 j3 (j4 ∷ []) r3 (omega arith) (omega arith) on3 tail2 in
                let see3 = walk_present st.mem t3 j3 j2 (j1 ∷ []) on3 in
                elim (Bool-cases (is_present (st.mem (slot t2 j2)))) [
                  | inr off2 ↦
                      missing
                        (go4
                          ∙ go3
                          ∙ descend_absent t2 j2 (j3 ∷ j4 ∷ []) r2 (omega arith) (omega arith) off2
                              end)
                        (see4 ∙ see3 ∙ walk_absent st.mem t2 j2 j1 [] off2)
                  | inl on2 ↦
                      unmapped (record st { mem = update st.mem (slot t1 j1) 0 })
                        (go4
                          ∙ go3
                          ∙ descend_here t2 j2 (j3 ∷ j4 ∷ []) r2 (omega arith) (omega arith) on2
                              end)
                        (leaf_Mapped P st top role tree virt 0 0 t3 t2 t1
                          (here_Next P st top role tree top j4 [] tree.root (omega arith)
                            (omega arith) on4)
                          (here_Next P st top role tree t3 j3 (j4 ∷ []) r3 (omega arith)
                            (omega arith) on3)
                          (here_Next P st top role tree t2 j2 (j3 ∷ j4 ∷ []) r2 (omega arith)
                            (omega arith) on2))
                ]
          ]
    ]

  -- `vmm_unmap_page` on an unlocked page map whose tables form a tree: it returns true, the page's
  -- entry is 0, every other page has the entry that it had, and the tables still form a tree; or it
  -- returns false, nothing has changed, and the processor finds no entry for the page.
  pub vmm_unmap_page-Unmap :
      (st : State P) (pagemap : PageMap) (role : ℕ → Option (List ℕ)) (virt : ℕ)
      → IsTree P st pagemap.top_level role
      → pagemap.locked ≡ false
      → Unmap st pagemap.top_level virt (vmm_unmap_page P st (some pagemap) virt)
  unfolding vmm_unmap_page
  vmm_unmap_page-Unmap st pagemap role virt tree idle = rw idle (
      subst (Unmap st pagemap.top_level virt)
        (sym (write_entry_lem P st pagemap.top_level role tree virt 0 0 false))
        (Unmap-at st pagemap.top_level role tree virt))
