-- ===== src/Acpi/Startup/Mapping.antt =====
-- The page map of the kernel after `acpi_init` of Kernel/src/fw/acpi.c, which maps pages of the firmware's
-- tables and of the HPET to themselves.
use wheatley.Common.{ℕ, ◌≡◌, ◌≢◌, ◌/◌, ◌%◌, ◌^◌, refl, sym, ap, Option, some, List, [], ◌∷◌, ◌++◌}
use mathlib.Core.Path.{subst}
use wheatley.Common.{ok}
use wheatley.Acpi.{Tables, xsdt_entries}
use wheatley.Acpi.Search.{Search, found, missing, acpi_find_table-Search, first_tables}
use wheatley.Acpi.Startup.{Firmware, Started, acpi_init}
use wheatley.Acpi.Startup.Ready.{Ready, Has, acpi_init-Ready}
use wheatley.Paging.{Gives, PageSource, State}
use wheatley.Paging.Tree.{IsTree, page_entry}
use wheatley.Paging.Identity.{
  map_each, three_each, On, here, there, LeadsToSelf, selves, map_each-MapsSelves,
}

On-left : (v : ℕ) (xs ys : List ℕ) → On v xs → On v (xs ++ ys)
On-left v [] ys on = elim on [ ]
On-left v (x ∷ xs) ys (here same) = here same
On-left v (x ∷ xs) ys (there on) = there (On-left v xs ys on)

On-right : (v : ℕ) (xs ys : List ℕ) → On v ys → On v (xs ++ ys)
On-right v [] ys on = on
On-right v (x ∷ xs) ys on = there (On-right v xs ys on)

module _ (T : Tables) where
  Search-On :
      (sig index n ptr : ℕ) (pages : List ℕ)
      → ptr ≢ 0
      → Search T sig index n (ptr, pages)
      → On ptr pages
  Search-On sig index n ptr pages some_table (found k lt match before e) =
      let at : ptr ≡ T.entry k = ap (λ r. r.0) e in
      subst (On ptr) (sym (ap (λ r. r.1) e)) (
        On-right ptr (first_tables T sig k) (T.entry k ∷ [])
          (here (ap (λ a. a / 4096 % 2 ^ 36) at)))
  Search-On sig index n ptr pages some_table (missing few e) = absurd (some_table (ap (λ r. r.0) e))

  module _ (F : Firmware) where
    -- The table is on a page that its search maps.
    Has-On : (sig ptr : ℕ) (pages : List ℕ) → sig ≢ T.dsdt → Has T F sig ptr pages → On ptr pages
    Has-On sig ptr pages other (some_table, e) =
        let (r, e', search) = acpi_find_table-Search T sig 0 other in
        let same : r ≡ (ptr, pages) = cc (e, e') in
        Search-On sig 0 (xsdt_entries T) ptr pages some_table
          (subst (Search T sig 0 (xsdt_entries T)) same search)

    module _ (P : PageSource) (top : ℕ) where
      -- The pages that the kernel is to look at from here on; `table` is the table of the HPET.
      pub record TablesMapped (s : Started) (table : ℕ) (st st' : State P) : Type 0 where
        pub role : ℕ → Option (List ℕ)
        pub tree : IsTree P st' top role
        pub xsdt : LeadsToSelf st'.mem top T.xsdt
        pub mcfg : LeadsToSelf st'.mem top s.g_mcfg
        pub hpet : LeadsToSelf st'.mem top table
        pub registers : LeadsToSelf st'.mem top s.hpet_data
        pub others : (v : ℕ) → ¬ On v s.mapped → page_entry st'.mem top v ≡ page_entry st.mem top v

      -- The calls of `vmm_map_page`, in order.
      pub data Maps (s : Started) (hpet : ℕ) (st : State P) (r : Option (State P)) : Type 0 where
        maps : (st' : State P) → r ≡ some st' → TablesMapped s hpet st st' → Maps s hpet st r

      -- When `acpi_init`, with signatures of the MCFG and the HPET that are not the DSDT's, comes to the
      -- call of the interpreter, the firmware is of revision 1 or later, the XSDT's checksum is right, the
      -- first MCFG is not of length zero and the first HPET has a counter whose revision and tick are not
      -- zero. The multiplier is taken from that tick, the counter is switched on with the other bits of
      -- its configuration kept but for the routing of the old timers' interrupts, which is off, and the
      -- interpreter is told the revision. In a page map that is a tree, with a source that gives three
      -- pages for each call of vmm_map_page: those calls, in their order, leave the pages
      -- at which the XSDT, the MCFG, the HPET's table and its registers begin present, writable and
      -- leading to themselves, and a page with none of the addresses that were given with the entry that
      -- it had.
      pub acpi_init-Maps :
          (s : Started)
          → acpi_init T F ≡ ok s
          → F.mcfg ≢ T.dsdt
          → F.hpet ≢ T.dsdt
          → Gives P
          → (n : ℕ) (st : State P) (role : ℕ → Option (List ℕ)) → IsTree P st top role
          → P.IsReady (three_each s.mapped n) st.source
          → (ready : Ready T F s) × Maps s ready.hpet.table st (map_each P top st s.mapped)
      acpi_init-Maps s e no_mcfg no_hpet gives n st role tree some_pages =
          let ready = acpi_init-Ready T F s e in
          let h = ready.hpet in
          let on_mcfg =
            On-left s.g_mcfg ready.mcfg_pages ready.hpet_pages
              (Has-On F.mcfg s.g_mcfg ready.mcfg_pages no_mcfg ready.mcfg) in
          let on_hpet =
            On-left h.table h.pages (s.hpet_data ∷ [])
              (Has-On F.hpet h.table h.pages no_hpet h.there) in
          let on_registers = On-right s.hpet_data h.pages (s.hpet_data ∷ []) (here refl) in
          let listed : (v : ℕ)
              → On v (T.xsdt ∷ (ready.mcfg_pages ++ ready.hpet_pages))
              → On v s.mapped =
            λ v. subst (On v) (sym ready.mapped) in
          let behind : (v : ℕ) → On v (h.pages ++ (s.hpet_data ∷ [])) → On v s.mapped = λ v on.
            listed v (
              there
                (On-right v ready.mcfg_pages ready.hpet_pages (subst (On v) (sym h.mapped) on))) in
          (
            ready,
            elim (map_each-MapsSelves P top gives n st role s.mapped tree some_pages) [
              | selves st' returns all later ↦ maps st' returns (record {
                role = all.role;
                tree = all.tree;
                xsdt = all.leads T.xsdt (listed T.xsdt (here refl));
                mcfg = all.leads s.g_mcfg (listed s.g_mcfg (there on_mcfg));
                hpet = all.leads h.table (behind h.table on_hpet);
                registers = all.leads s.hpet_data (behind s.hpet_data on_registers);
                others = all.others;
              })
            ],
          )
