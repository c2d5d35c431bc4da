-- ===== src/Pci/Mapping.antt =====
-- `pci_get_mcfg_addr` of Kernel/src/sys/pci.c with its call of `vmm_map_page`: the page that it maps for
-- a register.
use wheatley.Common.{ℕ, suc, ◌%◌, ◌≡◌, refl, Option, none, some, List, arith}
use wheatley.Common.{◌>>=◌}
use wheatley.Paging.{PageSource, State}
use wheatley.Paging.Tree.{IsTree}
use wheatley.Paging.Identity.{Itself, itself, out_of_pages, map_one-MapsItself}
use wheatley.Paging.Startup.{map_one}
use wheatley.Pci.{McfgAddr, PciDevicePath, find_segment, pci_get_mcfg_addr}
use wheatley.Pci.Address.{IsRegister, ecam_address, pci_get_mcfg_addr-ecam_address}

module _ (P : PageSource) (top : ℕ) (mcfg : List McfgAddr) where
  -- The pointer, and the kernel's page map afterwards; `top` is its top table.
  pub get_and_map : State P → PciDevicePath → (offset : ℕ) → Option (Option ℕ × State P)
  get_and_map st device offset = elim (pci_get_mcfg_addr mcfg device offset) [
    | none ↦ some (none, st)
    | some addr ↦ map_one P st top addr addr >>= λ st'. some (some addr, st')
  ]

  -- The register's address is given, and its page is mapped to itself, or the source has run out.
  pub data Reach (st : State P) (addr : ℕ) (r : Option (Option ℕ × State P)) : Type 0 where
    reached :
        (st' : State P) → r ≡ some (some addr, st') → Itself P top st st' addr → Reach st addr r
    unmapped :
        (st' : State P) (before : P.Source) (k : ℕ)
        → r ≡ some (some addr, st')
        → P.IsReady (suc k) before
        → P.alloc before ≡ some (0, st'.source)
        → Reach st addr r

  module _ (entry : McfgAddr) (device : PciDevicePath) (offset : ℕ)
      (search : find_segment mcfg device.seg ≡ some entry) (r : IsRegister entry device offset)
      (whole : entry.base_addr % 4096 ≡ 0) where
    -- A register of a function, on a bus from the first of its segment's entry on and with that entry at
    -- a page's address, in a page map that is a tree and with a source of pages that may be asked for
    -- three: it returns the address of the specification, with the register's offset behind the address
    -- of its page. That page is mapped to itself, with the offset, but for its last two bits, among the
    -- flags of the entry, and every other page has the entry that it had; or the source has run out of
    -- pages.
    pub get_and_map-Reach :
        (n : ℕ) (st : State P) (role : ℕ → Option (List ℕ))
        → IsTree P st top role
        → P.IsReady (suc (suc (suc n))) st.source
        → (ecam_address entry device offset % 4096 ≡ offset)
          × Reach st (ecam_address entry device offset) (get_and_map st device offset)
    unfolding get_and_map
    get_and_map-Reach n st role tree ready =
        let addr = ecam_address entry device offset in
        let at = pci_get_mcfg_addr-ecam_address mcfg entry device offset search r in
        (
          (let small = r.offset_small in omega (arith, whole)),
          elim (map_one-MapsItself P top n st role addr tree ready) [
            | itself st' e h ready' ↦ reached st' (rw (at, get_and_map) (rw e refl)) h
            | out_of_pages st' before k e was_ready none_left ↦
                unmapped st' before k (rw (at, get_and_map) (rw e refl)) was_ready none_left
          ],
        )
