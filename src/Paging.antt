-- ===== src/Paging.antt =====
-- Kernel/src/mm/vmm.c and Bootloader/src/paging.c: four levels of page tables in memory.
--
-- Memory is read and written by the 64-bit word, at its byte address. The pages for new tables come
-- from a `PageSource`: `kmalloc(4096)` in the kernel, `AllocatePages` of the firmware in the boot
-- loader. A call's result is `none` where it does not return: the lock is held, or the source of
-- pages does not return.
mod Masks
pub mod Tree
mod Create
mod Leaf
mod Next
pub mod Covered
pub mod Map
pub mod Again
mod Unmap
pub mod Boot
pub mod Kernel
pub mod Startup
pub mod Identity
pub mod Bump
pub mod Empty
mod Tests
use wheatley.Common.{
  ℕ, zero, suc, ◌+◌, ◌-◌, ◌*◌, ◌/◌, ◌%◌, ◌^◌, ◌≤◌, ◌<◌, min, max, bit_and, bit_or, bit_xor, ◌≡◌,
  refl, sym, ap, ap₂, ◌∙◌, fun_ext, ◌≢◌, ◌↔◌, ◌⊎◌, inl, inr, Bool, true, false, not, ◌&&◌, ◌||◌,
  Option, none, some, List, [], ◌∷◌, ◌++◌, map, arith, ltb, leb, ◌==◌, if◌then◌else◌, ltb→lt,
  lt→ltb, ==_iff, ==_refl, Bool-cases, Option-cases, length, get_elem?, get_or, length-append,
  update, fill, shr, bit, complement, bit-or, bit-and, bit-lt, bit-two-pow, bit-complement,
  bit_or-lt, bit_and-le, bit_and-low, bit_and-up, bit_and-one, two-pow-lt, bit_and_digit,
  bit_or_digit, bit-zero, bit-suc,
}

-- Where the pages come from. `IsReady n s` says that `n` more pages may be asked for.
pub record PageSource : Type 1 where
  pub Source : Type 0
  pub alloc : Source → Option (ℕ × Source)
  pub Owned : Source → ℕ → Type 0
  pub IsReady : ℕ → Source → Type 0
  pub alloc_returns :
      (n : ℕ) (s : Source)
      → IsReady (suc n) s
      → (a : ℕ) × (s' : Source) × (alloc s ≡ some (a, s')) × IsReady n s'
  pub ready_fewer : (n : ℕ) (s : Source) → IsReady (suc n) s → IsReady n s
  pub alloc_fresh :
      (n a : ℕ) (s s' : Source)
      → IsReady (suc n) s
      → alloc s ≡ some (a, s')
      → a ≢ 0
      → Owned s' a × (¬ Owned s a)
  pub alloc_keeps :
      (n a b : ℕ) (s s' : Source)
      → IsReady (suc n) s
      → alloc s ≡ some (a, s')
      → Owned s b
      → Owned s' b
  pub owned_page : (s : Source) (a : ℕ) → Owned s a → (a % 4096 ≡ 0) × (0 < a) × (a < 2 ^ 64)

-- A source that is ready gives pages, and not NULL.
abbrev pub Gives : PageSource → Type 0
Gives P = (n a : ℕ) (s s' : P.Source) → P.IsReady (suc n) s → P.alloc s ≡ some (a, s') → a ≢ 0

abbrev pub Memory : Type 0
Memory = ℕ → ℕ

-- `level[entry]`, a 64-bit word.
abbrev pub slot : (table entry : ℕ) → ℕ
slot table entry = table + 8 * entry

abbrev pub level4_of : ℕ → ℕ
level4_of v = bit_and v (0x1ff * 2 ^ 39) / 2 ^ 39

abbrev pub level3_of : ℕ → ℕ
level3_of v = bit_and v (0x1ff * 2 ^ 30) / 2 ^ 30

abbrev pub level2_of : ℕ → ℕ
level2_of v = bit_and v (0x1ff * 2 ^ 21) / 2 ^ 21

abbrev pub level1_of : ℕ → ℕ
level1_of v = bit_and v (0x1ff * 2 ^ 12) / 2 ^ 12

-- `pagemap_t`
pub record PageMap : Type 0 where
  pub top_level : ℕ
  pub locked : Bool

abbrev pub is_null : ℕ → Bool
is_null p = p == 0

module _ (P : PageSource) where
  open P use {Source, alloc}

  pub record State : Type 0 where
    pub mem : Memory
    pub source : Source

  -- `get_next_level`: the table behind an entry, made anew if that is asked for; 0 is NULL.
  pub get_next_level : State → (level entry : ℕ) → Bool → Option (ℕ × State)
  get_next_level st level entry do_alloc =
      let e = st.mem (slot level entry) in
      if not (bit_and e 1 == 0)
      then some (bit_and e (complement 64 0xfff), st)
      else if do_alloc
      then elim (alloc st.source) [
        | none ↦ none
        | some (ret, source) ↦ some (
          ret,
          record {
            mem = update (fill st.mem ret 4096 0) (slot level entry) (bit_or ret 0b111);
            source = source;
          },
        )
      ]
      else some (0, st)

  -- From one level to the next, or `goto end` with `false`.
  pub descend :
      State → (level entry : ℕ) → Bool → (ℕ → State → Option (Bool × State)) → Option (Bool × State)
  descend st level entry do_alloc k = elim (get_next_level st level entry do_alloc) [
    | none ↦ none
    | some (next, st') ↦ if is_null next then some (false, st') else k next st'
  ]

  -- The walk of `vmm_map_page` and `vmm_unmap_page`, and the write at its end.
  pub write_at : State → (level4 entry4 entry3 entry2 entry1 : ℕ) → Bool → ℕ → Option (Bool × State)
  write_at st level4 entry4 entry3 entry2 entry1 do_alloc value =
      descend st level4 entry4 do_alloc λ level3 st3.
        descend st3 level3 entry3 do_alloc λ level2 st2.
          descend st2 level2 entry2 do_alloc λ level1 st1.
            some (true, record st1 { mem = update st1.mem (slot level1 entry1) value })

  pub write_entry : State → (top virt : ℕ) → Bool → ℕ → Option (Bool × State)
  write_entry st top virt do_alloc value =
      write_at st top (level4_of virt) (level3_of virt) (level2_of virt) (level1_of virt) do_alloc
        value

  -- The lock is taken and released around the walk; `none` of the page map is its NULL pointer.
  pub vmm_map_page : State → Option PageMap → (phys virt flags : ℕ) → Option (Bool × State)
  vmm_map_page st none phys virt flags = some (false, st)
  vmm_map_page st (some pagemap) phys virt flags =
      if pagemap.locked
      then none
      else write_entry st pagemap.top_level virt true (bit_or phys flags)

  pub vmm_unmap_page : State → Option PageMap → (virt : ℕ) → Option (Bool × State)
  vmm_unmap_page st none virt = some (false, st)
  vmm_unmap_page st (some pagemap) virt =
      if pagemap.locked then none else write_entry st pagemap.top_level virt false 0

  -- `Paging_GetNextLevel` of the boot loader.
  unfoldable pub paging_get_next_level : State → (level entry : ℕ) → Option (ℕ × State)
  paging_get_next_level st level entry =
      let e = st.mem (slot level entry) in
      if not (bit_and e 1 == 0)
      then some (bit_and e (complement 64 0xfff), st)
      else elim (alloc st.source) [
        | none ↦ none
        | some (ret, source) ↦ some (
          ret,
          record {
            mem = update (fill st.mem ret 4096 0) (slot level entry) (bit_or ret 0b111);
            source = source;
          },
        )
      ]

  unfoldable pub paging_descend :
      State → (level entry : ℕ) → (ℕ → State → Option (Bool × State)) → Option (Bool × State)
  paging_descend st level entry k = elim (paging_get_next_level st level entry) [
    | none ↦ none
    | some (next, st') ↦ if is_null next then some (false, st') else k next st'
  ]

  -- `Paging_MapPage`; `pagemap` is the top table itself, and 0 its NULL pointer.
  unfoldable pub paging_map_page : State → (pagemap phys virt flags : ℕ) → Option (Bool × State)
  paging_map_page st pagemap phys virt flags =
      if is_null pagemap
      then some (false, st)
      else paging_descend st pagemap (level4_of virt) λ level3 st3.
        paging_descend st3 level3 (level3_of virt) λ level2 st2.
          paging_descend st2 level2 (level2_of virt) λ level1 st1. some (
            true,
            record st1 { mem = update st1.mem (slot level1 (level1_of virt)) (bit_or phys flags) },
          )
