-- ===== src/Paging/Next.antt =====
-- One call of `get_next_level` of Kernel/src/mm/vmm.c, on every branch.
use wheatley.Common.{
  ℕ, suc, ◌<◌, bit_or, ◌≡◌, refl, ap, ◌∙◌, ◌≢◌, inl, inr, Bool, true, false, Option, some, List, [],
  ◌∷◌, arith, ◌==◌, Bool-cases, length, update, fill,
}
use wheatley.Paging.{PageSource, State, slot, get_next_level}
use wheatley.Paging.Masks.{is_present, table_of}
use wheatley.Paging.Tree.{walk, AllSmall, IsTree}
use wheatley.Paging.Create.{
  created, role', same_slot, link-table, link-present, role'-old, role'-new, walk-created,
  created-IsTree,
}

module _ (P : PageSource) where
  -- The entry `i` of table `t` now names the table `c`; nothing that was there has changed.
  pub record Next (st st' : State P) (top : ℕ) (role role' : ℕ → Option (List ℕ)) (t i c : ℕ)
      (p : List ℕ) : Type 0 where
    pub tree : IsTree P st' top role'
    pub present : is_present (st'.mem (slot t i)) ≡ true
    pub linked : table_of (st'.mem (slot t i)) ≡ c
    pub child : role' c ≡ some (i ∷ p)
    pub extends : (u : ℕ) (q : List ℕ) → role u ≡ some q → role' u ≡ some q
    pub keeps :
        (u j : ℕ) (q : List ℕ)
        → role u ≡ some q
        → j < 512
        → is_present (st.mem (slot u j)) ≡ true
        → st'.mem (slot u j) ≡ st.mem (slot u j)
    pub walks :
        (is : List ℕ) → length is ≡ 4 → AllSmall is → walk st'.mem top is ≡ walk st.mem top is

  pub data NextLevel (st : State P) (top : ℕ) (role : ℕ → Option (List ℕ)) (t i : ℕ) (p : List ℕ)
      (n : ℕ) (r : Option (ℕ × State P)) : Type 0 where
    there :
        (c : ℕ) (st' : State P) (role' : ℕ → Option (List ℕ))
        → r ≡ some (c, st')
        → (c == 0) ≡ false
        → Next st st' top role role' t i c p
        → P.IsReady n st'.source
        → NextLevel st top role t i p n r
    -- The source of pages had none to give.
    exhausted :
        (st' : State P)
        → r ≡ some (0, st')
        → P.alloc st.source ≡ some (0, st'.source)
        → NextLevel st top role t i p n r

  module _ (st : State P) (top : ℕ) (role : ℕ → Option (List ℕ)) (tree : IsTree P st top role)
      (t i : ℕ) (p : List ℕ) (at : role t ≡ some p) (upper : length p < 3) (small : i < 512) where
    open P use {owned_page}

    pub here_Next :
        is_present (st.mem (slot t i)) ≡ true
        → Next st st top role role t i (table_of (st.mem (slot t i))) p
    here_Next on = record {
      tree = tree;
      present = on;
      linked = refl;
      child = tree.down t i p at upper small on;
      extends = λ u q r. r;
      keeps = λ u j q r lt is_on. refl;
      walks = λ is len all. refl;
    }

    pub not_null : (a : ℕ) (q : List ℕ) → role a ≡ some q → (a == 0) ≡ false
    not_null a q r = let pos = (owned_page st.source a (tree.owned a q r)).1 in ground arith

    pub get_next_level_present :
        (do_alloc : Bool)
        → is_present (st.mem (slot t i)) ≡ true
        → get_next_level P st t i do_alloc ≡ some (table_of (st.mem (slot t i)), st)
    unfolding get_next_level
    get_next_level_present do_alloc on = rw on

    pub get_next_level_here :
        (n : ℕ) (do_alloc : Bool)
        → P.IsReady n st.source
        → is_present (st.mem (slot t i)) ≡ true
        → NextLevel st top role t i p n (get_next_level P st t i do_alloc)
    unfolding get_next_level
    get_next_level_here n do_alloc ready on = rw on (
        there (table_of (st.mem (slot t i))) st role refl
          (not_null (table_of (st.mem (slot t i))) (i ∷ p) (tree.down t i p at upper small on))
          (here_Next on) ready)

    pub get_next_level_alloc :
        (n : ℕ)
        → P.IsReady (suc n) st.source
        → is_present (st.mem (slot t i)) ≡ false
        → NextLevel st top role t i p n (get_next_level P st t i true)
    unfolding get_next_level
    get_next_level_alloc n ready off =
        let (a, source, got, ready') = P.alloc_returns n st.source ready in
        rw (off, got)
          (elim (Bool-cases (a == 0)) [
            | inl null ↦
                let z : a ≡ 0 = ground arith in
                let st' : State P = record {
                  mem = update (fill st.mem a 4096 0) (slot t i) (bit_or a 7);
                  source = source;
                } in
                exhausted st' (ap (λ (x : ℕ). some (x, st')) z)
                  (got ∙ ap (λ (x : ℕ). some (x, source)) z)
            | inr page ↦
                let ne : a ≢ 0 = ground arith in
                there a (created P tree t i p at upper small off n a ready got ne)
                  (role' P tree t i p at upper small off n a ready got ne) refl page
                  (record {
                    tree = created-IsTree P tree t i p at upper small off n a ready got ne;
                    present = link-present P tree t i p at upper small off n a ready got ne;
                    linked = link-table P tree t i p at upper small off n a ready got ne;
                    child = role'-new P tree t i p at upper small off n a ready got ne;
                    extends = role'-old P tree t i p at upper small off n a ready got ne;
                    keeps = λ u j q r lt on.
                        same_slot P tree t i p at upper small off n a ready got ne u j q r lt
                          (λ e. cc (ap (λ x. is_present (st.mem x)) e, on, off));
                    walks = λ is len all.
                        walk-created P tree t i p at upper small off n a ready got ne is top []
                          tree.root (omega arith) all;
                  })
                  ready'
          ])

    pub get_next_level-NextLevel :
        (n : ℕ)
        → P.IsReady (suc n) st.source
        → NextLevel st top role t i p n (get_next_level P st t i true)
    get_next_level-NextLevel n ready = elim (Bool-cases (is_present (st.mem (slot t i)))) [
      | inl on ↦ get_next_level_here n true (P.ready_fewer n st.source ready) on
      | inr off ↦ get_next_level_alloc n ready off
    ]

    -- Without `doAlloc` an absent entry is reported, and nothing is written.
    pub get_next_level_absent :
        is_present (st.mem (slot t i)) ≡ false → get_next_level P st t i false ≡ some (0, st)
    unfolding get_next_level
    get_next_level_absent off = rw off
