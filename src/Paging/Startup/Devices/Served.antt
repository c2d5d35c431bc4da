-- ===== src/Paging/Startup/Devices/Served.antt =====
-- The requests of the drivers of Kernel/src are served: the page tables and the allocator stay sound.
use wheatley.Common.{
  ◌+◌, ◌-◌, refl, ℕ, suc, ◌*◌, ◌/◌, ◌^◌, ◌<◌, ◌≡◌, refl, Option, some, List, [], ◌∷◌, arith,
}
use wheatley.Mm.{Mm, kmalloc, pages_for, ok}
use wheatley.Mm.Kmalloc.{Kmalloc, allocated, out_of_memory, kmalloc-Kmalloc}
use wheatley.Paging.{State}
use wheatley.Paging.Kernel.{
  kernel_pages, IsReady, OwnsPage, Allocated-IsReady, never_out, kernel_pages-Gives,
}
use mathlib.Core.Path.{subst}
use wheatley.Paging.Tree.{IsTree}
use wheatley.Paging.Identity.{
  itself, out_of_pages, map_one-MapsItself, Selves, Selves-next, no_pages-Selves,
}
use wheatley.Paging.Startup.Devices.{
  Request, page, memory, serve, table_entries, addresses, AllShort,
}

-- What a call of `kmalloc` leaves to the page tables.
record Kept (n : ℕ) (m m' : Mm) : Type 0 where
  pub ready : IsReady n m'
  pub owned : (b : ℕ) → OwnsPage m b → OwnsPage m' b

kmalloc-Kept :
    (t n size len : ℕ) (m : Mm)
    → t ≡ suc (size + n)
    → pages_for len ≡ suc size
    → suc size < 2 ^ 16
    → IsReady t m
    → (ret : ℕ) × (m' : Mm) × (kmalloc m len ≡ ok ret m') × Kept n m m'
kmalloc-Kept t n size len m total pages short r =
    elim (subst (λ p. Kmalloc m p (kmalloc m len)) pages
      (kmalloc-Kmalloc m len r.sound r.idle (omega (arith, r.room)) r.few (omega (arith, pages)))) [
        | allocated first m' e a ↦ (
          first * 4096,
          m',
          e,
          record {
            ready = (Allocated-IsReady t n size m m' first total r a).1;
            owned = λ b o. record {
              holder = let (i, h) = o.holder in (i, a.others (b / 4096) 1 i h (omega arith));
              aligned = o.aligned;
              pos = o.pos;
              word = o.word;
            };
          },
        )
        | out_of_memory e none_fits ↦ absurd (never_out t n size m total r none_fits)
      ]

module _ (top : ℕ) where
  pub data Served (st : State kernel_pages) (rs : List Request) (n : ℕ)
      (r : Option (State kernel_pages)) : Type 0 where
    served :
        (st' : State kernel_pages)
        → r ≡ some st'
        → Selves kernel_pages top st st' (addresses rs)
        → IsReady n st'.source
        → Served st rs n r

  pub serve-Served :
      (n : ℕ) (st : State kernel_pages) (role : ℕ → Option (List ℕ)) (rs : List Request)
      → IsTree kernel_pages st top role
      → IsReady (table_entries rs n) st.source
      → AllShort rs
      → Served st rs n (serve st top rs)
  unfolding serve
  serve-Served n st role [] tree ready short =
      served st refl (no_pages-Selves kernel_pages top st role tree) ready
  serve-Served n st role (page addr ∷ rs) tree ready short =
      elim (map_one-MapsItself kernel_pages top (table_entries rs n) st role addr tree ready) [
        | itself st1 e first ready1 ↦
            elim (serve-Served n st1 first.role rs first.tree ready1 short) [
              | served st2 e2 more ready2 ↦
                  served st2 (rw (e, serve) e2)
                    (Selves-next kernel_pages top st st1 st2 addr (addresses rs) first more) ready2
            ]
        | out_of_pages st1 before k e was_ready none_left ↦
            absurd (kernel_pages-Gives k 0 before st1.source was_ready none_left refl)
      ]
  serve-Served n st role (memory len ∷ rs) tree ready ((some_page, short), all_short) =
      let (ret, m', e, kept) =
        kmalloc-Kept (pages_for len + table_entries rs n) (table_entries rs n) (pages_for len - 1)
          len st.source (omega arith) (omega arith) (omega arith) ready in
      let st1 : State kernel_pages = record { mem = st.mem; source = m' } in
      elim (serve-Served n st1 role rs
        (record {
          root = tree.root;
          owned = λ t p at. kept.owned t (tree.owned t p at);
          down = tree.down;
        })
        kept.ready all_short) [
          | served st2 e2 more ready2 ↦
              served st2 (rw (e, serve) e2)
                (record {
                  role = more.role;
                  tree = more.tree;
                  leads = more.leads;
                  others = more.others;
                })
                ready2
        ]
