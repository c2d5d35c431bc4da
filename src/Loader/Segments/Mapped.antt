-- ===== src/Loader/Segments/Mapped.antt =====
-- What `Paging_MapPage` of Bootloader/src/paging.c is asked to do for a segment, against the walk of the
-- processor.
use wheatley.Common.{
  ℕ, zero, suc, ◌+◌, ◌*◌, ◌%◌, ◌^◌, ◌≤◌, bit_or, ◌≡◌, refl, sym, ap, ◌≢◌, false, some, arith,
}
use mathlib.Core.Path.{subst}
use Prim.Native.String.{String}
use wheatley.Paging.{PageSource, State, vmm_map_page}
use wheatley.Paging.Map.{Map, mapped, exhausted, vmm_map_page-Map}
use wheatley.Paging.Boot.{paging_map_page-vmm_map_page}
use wheatley.Paging.Startup.Entries.{
  Entries, page_of, install, range, tables, range_start, range_next, offset_of_lem,
}
use wheatley.Paging.Startup.Loops.{Stands, Mapped-Stands}
use wheatley.Common.{Result, ok, panic, and_then}
use wheatley.Loader.Segments.{map_or_panic, map_pages}

module _ (P : PageSource) (top : ℕ) (msg : String) where
  -- How the mapping of pages ends: they are mapped, or a table's page was not to be had.
  pub data Placed (m : Entries) (n : ℕ) (r : Result (State P)) : Type 0 where
    placed : (st : State P) → r ≡ ok st → Stands P top m n st → Placed m n r
    out :
        (before after : P.Source) → r ≡ panic msg → P.alloc before ≡ some (0, after) → Placed m n r

  then-Placed :
      (m m' : Entries) (n n' : ℕ) (r : Result (State P)) (k : State P → Result (State P))
      → Placed m n r
      → ((st : State P) → Stands P top m n st → Placed m' n' (k st))
      → Placed m' n' (and_then r k)
  then-Placed m m' n n' r k (placed st e s) next =
      subst (Placed m' n') (sym (ap (λ x. and_then x k) e)) (next st s)
  then-Placed m m' n n' r k (out before after e q) next =
      out before after (ap (λ x. and_then x k) e) q

module _ (P : PageSource) (top : ℕ) (msg : String) (there : top ≢ 0) where
  map_or_panic-Placed :
      (m : Entries) (n : ℕ) (st : State P) (phys virt : ℕ)
      → Stands P top m (suc (suc (suc n))) st
      → Placed P top msg (install m virt (bit_or phys 0b11)) n (map_or_panic P st top phys virt msg)
  unfolding map_or_panic
  map_or_panic-Placed m n st phys virt s = finish (
      vmm_map_page-Map P st (record { top_level = top; locked = false }) s.role phys virt 0b11 n
        s.tree refl s.ready)
    where
      finish :
          Map P st top virt
            (bit_or phys 0b11)
            n
            (vmm_map_page P st (some (record { top_level = top; locked = false })) phys virt 0b11)
          → Placed P top msg
              (install m virt (bit_or phys 0b11))
              n
              (map_or_panic P st top phys virt msg)
      finish (mapped st' e h ready) =
          placed st'
            (rw (paging_map_page-vmm_map_page P st top phys virt 0b11 there, e, map_or_panic))
            (Mapped-Stands P top m (suc (suc (suc n))) n st st' virt (bit_or phys 0b11) s h ready)
      finish (exhausted st' before k e was_ready q) =
          out before st'.source
            (rw (paging_map_page-vmm_map_page P st top phys virt 0b11 there, e, map_or_panic)) q

  -- Pages of 4096 bytes, at most 2 GB of them, mapped one after the other into a tree of page tables
  -- that has three pages left for each: every page of the segment leads to its page of memory and all
  -- other entries are kept; or the boot loader panics, and a table's page was not to be had.
  pub map_pages-Placed :
      (m : Entries) (n : ℕ) (st : State P) (phys virt z rounds : ℕ)
      → z + rounds ≤ 2 ^ 19
      → page_of virt + z + rounds ≤ 2 ^ 36
      → Stands P top m (tables rounds n) st
      → Placed P top msg
          (range m phys virt z rounds)
          n
          (map_pages P st top phys virt 4096 z rounds msg)
  unfolding map_pages tables
  map_pages-Placed m n st phys virt z zero few low s =
      subst (λ x. Placed P top msg x n (ok st)) (sym (range_start m phys virt z)) (placed st refl s)
  map_pages-Placed m n st phys virt z (suc rounds) few low s =
      let first = (virt + z * 4096) % 2 ^ 64 in
      let value = bit_or ((phys + z * 4096) % 2 ^ 64) 0b11 in
      let next : range (install m first value) phys virt (z + 1) rounds
          ≡ range m phys virt z (suc rounds) =
        rw (sym (offset_of_lem z (omega arith)))
          (range_next m phys virt z rounds (omega arith) (omega arith)) in
      subst (λ x. Placed P top msg x n (map_pages P st top phys virt 4096 z (suc rounds) msg)) next
        (then-Placed P top msg (install m first value) _ (tables rounds n) n _ _
          (map_or_panic-Placed m (tables rounds n) st _ first s)
          (λ st' s'.
            map_pages-Placed (install m first value) n st' phys virt (z + 1) rounds (omega arith)
              (omega arith) s'))
