-- ===== src/Paging/Identity.antt =====
-- The calls `vmm_map_page(vmm_get_kernel_pagemap(), addr, addr, 0b11)` of the kernel's drivers, for the
-- page of a device, on Paging's `vmm_map_page`.
use wheatley.Common.{
  ℕ, zero, suc, ◌+◌, ◌*◌, ◌/◌, ◌%◌, ◌^◌, ◌≤◌, bit_or, ◌≡◌, refl, false, ap, ◌∙◌, Option, some, List,
  [], ◌∷◌, arith, bit_or_digit, ◌⊎◌, inl, inr, sym,
}
use wheatley.Common.{◌>>=◌}
use native.Mathlib.Decide.{ℕ_discrete}
use mathlib.Core.Path.{subst}
use wheatley.Paging.{Gives, Memory, PageSource, State}
use wheatley.Paging.Tree.{walk, page_entry, IsTree}
use wheatley.Paging.Map.{SamePage, mapped, exhausted, vmm_map_page-Map}
use wheatley.Paging.Startup.{map_one}
use wheatley.Paging.Startup.Entries.{indices-same}

bit_or-zero : (n a : ℕ) → a ≤ n → bit_or a 0 ≡ a
bit_or-zero n zero h = refl
bit_or-zero zero (suc a) h = absurd (omega arith)
bit_or-zero (suc n) (suc a) h =
    omega (arith, bit_or_digit (suc a) 0, bit_or-zero n (suc a / 2) (omega arith))

bit_or-three : (a : ℕ) → bit_or a 0b11 ≡ a / 4 * 4 + 3
bit_or-three a = omega (
  arith,
  bit_or_digit a 3,
  bit_or_digit (a / 2) 1,
  bit_or-zero (a / 2 / 2) (a / 2 / 2) (omega arith),
)

module _ (P : PageSource) (top : ℕ) where
  -- The page of `addr` leads to itself; what `addr` has behind its page's address is among the flags.
  pub record Itself (st st' : State P) (addr : ℕ) : Type 0 where
    pub role : ℕ → Option (List ℕ)
    pub tree : IsTree P st' top role
    pub to : page_entry st'.mem top addr / 4096 ≡ addr / 4096
    pub flags : page_entry st'.mem top addr % 4096 ≡ addr % 4096 / 4 * 4 + 3
    pub others : (v : ℕ) → ¬ SamePage v addr → page_entry st'.mem top v ≡ page_entry st.mem top v

  -- The pages that were asked for were given, or at one call a source that was ready gave none.
  pub data MapsItself (st : State P) (addr n : ℕ) (r : Option (State P)) : Type 0 where
    itself :
        (st' : State P)
        → r ≡ some st'
        → Itself st st' addr
        → P.IsReady n st'.source
        → MapsItself st addr n r
    out_of_pages :
        (st' : State P) (before : P.Source) (k : ℕ)
        → r ≡ some st'
        → P.IsReady (suc k) before
        → P.alloc before ≡ some (0, st'.source)
        → MapsItself st addr n r

  pub map_one-MapsItself :
      (n : ℕ) (st : State P) (role : ℕ → Option (List ℕ)) (addr : ℕ)
      → IsTree P st top role
      → P.IsReady (suc (suc (suc n))) st.source
      → MapsItself st addr n (map_one P st top addr addr)
  unfolding map_one
  map_one-MapsItself n st role addr tree ready =
      elim (vmm_map_page-Map P st (record { top_level = top; locked = false }) role addr addr 0b11 n
        tree refl ready) [
          | mapped st' e h ready' ↦
              itself st' (rw e refl)
                (record {
                  role = h.role;
                  tree = h.tree;
                  to = ap (λ x. x / 4096) h.here ∙ omega (arith, bit_or-three addr);
                  flags = ap (λ x. x % 4096) h.here ∙ omega (arith, bit_or-three addr);
                  others = h.elsewhere;
                })
                ready'
          | exhausted st' before k e was_ready none_left ↦
              out_of_pages st' before k (rw e refl) was_ready none_left
        ]

  -- `vmm_map_page` of each address with itself, in order.
  unfoldable pub map_each : State P → List ℕ → Option (State P)
  map_each st [] = some st
  map_each st (addr ∷ addrs) = map_one P st top addr addr >>= λ st'. map_each st' addrs

-- Three pages for each address, and `n`.
abbrev pub three_each : List ℕ → ℕ → ℕ
three_each [] n = n
three_each (addr ∷ addrs) n = suc (suc (suc (three_each addrs n)))

-- On a page of one of the addresses.
pub data On (v : ℕ) : List ℕ → Type 0 where
  here : {addr : ℕ} {addrs : List ℕ} → SamePage v addr → On v (addr ∷ addrs)
  there : {addr : ℕ} {addrs : List ℕ} → On v addrs → On v (addr ∷ addrs)

-- The page of `v` is there, may be written, and leads to itself, as far as 48 bits of address go.
abbrev pub LeadsToSelf : Memory → (top v : ℕ) → Type 0
LeadsToSelf mem top v =
    (page_entry mem top v / 4096 % 2 ^ 36 ≡ v / 4096 % 2 ^ 36) × (page_entry mem top v % 4 ≡ 3)

nowhere : (v : ℕ) → ¬ On v []
nowhere v on = elim on [ ]

On-cases : (v a : ℕ) (addrs : List ℕ) → On v (a ∷ addrs) → (SamePage v a) ⊎ On v addrs
On-cases v a addrs (here same) = inl same
On-cases v a addrs (there on) = inr on

module _ (P : PageSource) (top : ℕ) where
  Itself-leads :
      (st st' : State P) (addr v : ℕ)
      → Itself P top st st' addr
      → SamePage v addr
      → LeadsToSelf st'.mem top v
  Itself-leads st st' addr v h same =
      let e : page_entry st'.mem top v ≡ page_entry st'.mem top addr =
        ap (walk st'.mem top) (indices-same v addr same) in
      let to = h.to in let flags = h.flags in (omega (arith, e, to, same), omega (arith, e, flags))

  -- The pages of the addresses lead to themselves, and other pages have the entries that they had.
  pub record Selves (st st' : State P) (addrs : List ℕ) : Type 0 where
    pub role : ℕ → Option (List ℕ)
    pub tree : IsTree P st' top role
    pub leads : (v : ℕ) → On v addrs → LeadsToSelf st'.mem top v
    pub others : (v : ℕ) → ¬ On v addrs → page_entry st'.mem top v ≡ page_entry st.mem top v

  pub no_pages-Selves :
      (st : State P) (role : ℕ → Option (List ℕ)) → IsTree P st top role → Selves st st []
  no_pages-Selves st role tree = record {
    role = role;
    tree = tree;
    leads = λ v on. absurd (nowhere v on);
    others = λ v off. refl;
  }

  pub data MapsSelves (st : State P) (addrs : List ℕ) (n : ℕ) (r : Option (State P)) : Type 0 where
    selves :
        (st' : State P)
        → r ≡ some st'
        → Selves st st' addrs
        → P.IsReady n st'.source
        → MapsSelves st addrs n r

  On-dec : (v : ℕ) (addrs : List ℕ) → (On v addrs) ⊎ (¬ On v addrs)
  On-dec v [] = inr (nowhere v)
  On-dec v (a ∷ addrs) = elim (ℕ_discrete (v / 4096 % 2 ^ 36) (a / 4096 % 2 ^ 36)) [
    | yes same ↦ inl (here same)
    | no other ↦ elim (On-dec v addrs) [
      | inl on ↦ inl (there on)
      | inr off ↦
          inr (λ on. elim (On-cases v a addrs on) [ inl same ↦ other same | inr on ↦ off on ])
    ]
  ]

  pub Selves-next :
      (st st1 st2 : State P) (a : ℕ) (addrs : List ℕ)
      → Itself P top st st1 a
      → Selves st1 st2 addrs
      → Selves st st2 (a ∷ addrs)
  Selves-next st st1 st2 a addrs first more = record {
    role = more.role;
    tree = more.tree;
    leads = λ v on. elim (On-dec v addrs) [
      | inl later ↦ more.leads v later
      | inr off ↦ elim (On-cases v a addrs on) [
        | inl same ↦
            subst (λ e. (e / 4096 % 2 ^ 36 ≡ v / 4096 % 2 ^ 36) × (e % 4 ≡ 3))
              (sym (more.others v off)) (Itself-leads st st1 a v first same)
        | inr later ↦ absurd (off later)
      ]
    ];
    others = λ v off.
        more.others v (λ later. off (there later)) ∙ first.others v (λ same. off (here same));
  }

  -- In a tree, with a source of pages that may be asked for three for each address.
  pub map_each-MapsSelves :
      Gives P
      → (n : ℕ) (st : State P) (role : ℕ → Option (List ℕ)) (addrs : List ℕ) → IsTree P st top role
      → P.IsReady (three_each addrs n) st.source
      → MapsSelves st addrs n (map_each P top st addrs)
  unfolding map_each
  map_each-MapsSelves gives n st role [] tree ready =
      selves st refl (no_pages-Selves st role tree) ready
  map_each-MapsSelves gives n st role (a ∷ addrs) tree ready =
      elim (map_one-MapsItself P top (three_each addrs n) st role a tree ready) [
        | itself st1 e first ready1 ↦
            elim (map_each-MapsSelves gives n st1 first.role addrs first.tree ready1) [
              | selves st2 e2 more ready2 ↦
                  selves st2 (rw (e, map_each) e2) (Selves-next st st1 st2 a addrs first more)
                    ready2
            ]
        | out_of_pages st1 before k e was_ready none_left ↦
            absurd (gives k 0 before st1.source was_ready none_left refl)
      ]
