-- ===== src/Loader/Main/HandedOver.antt =====
-- What the kernel is handed by `efi_main` of Bootloader/src/main.c.
use wheatley.Common.{ℕ, ◌≡◌, ap, false, some, List, [], ◌∷◌, ◌==◌}
use wheatley.Common.{ok, and_then-ok, passed_not, ok_inj, needed}
use wheatley.Mm.Init.{Entry}
use wheatley.Paging.{PageSource, State}
use wheatley.Paging.Startup.{VmmEntry}
use wheatley.Loader.{hand_over_memory_map, HandoffSymbol}
use wheatley.Loader.Segments.{Progress, load_segments, define_stack}
use wheatley.Loader.Segments.Entries.{push_entry-ok}
use wheatley.Loader.Main.{
  Machine, Handoff, open_kernel, handoff_entry, prepare_handoff, load_symbols, rsdp_of, handoff_of,
  hand_over, efi_main,
}

abbrev pub stack_entry : (stack : ℕ) → VmmEntry
stack_entry stack = record { phys_addr = stack; virt_addr = stack; pages = 8 }

pub prepare_handoff-ok :
    (m : Machine) (entries : List VmmEntry)
    → prepare_handoff m ≡ ok entries
    → (handoff : ℕ) × (m.handoff_page ≡ some handoff) × ((handoff_entry m handoff ∷ []) ≡ entries)
unfolding prepare_handoff
prepare_handoff-ok m entries e =
    let (handoff, at, e1) = needed m.handoff_page _ _ entries e (λ q. cc q) in
    let (few, same) = push_entry-ok [] entries (handoff_entry m handoff) e1 in (handoff, at, same)

module _ (P : PageSource) (m : Machine) where
  -- The parts of a run that comes to the jump.
  pub record Stages (st st' : State P) (h : Handoff) : Type 0 where
    pub opened : open_kernel m ≡ ok tt
    pub first : List VmmEntry
    pub prepared : prepare_handoff m ≡ ok first
    pub loaded : Progress P
    pub loads :
        load_segments P m.efi m.cur_page
          (record { tables = st; entries = first; actions = [] })
          m.phdr_table
          m.phdr_entry_size
          0
          m.phdr_entries_num
        ≡ ok loaded
    pub found : (rsdp_of m == 0) ≡ false
    pub stack : ℕ
    pub last : Progress P
    pub defined : define_stack P m.efi m.cur_page loaded m.phdr_entries_num ≡ ok (stack, last)
    pub symbols : List HandoffSymbol
    pub symbols_loaded : load_symbols m ≡ ok symbols
    pub memory : List Entry
    pub memory_handed :
        hand_over_memory_map m.memory_map m.memory_map_size m.descriptor_size ≡ some memory
    pub handed : handoff_of m last.entries symbols (rsdp_of m) stack memory ≡ h
    pub tables : last.tables ≡ st'

  pub efi_main-Stages :
      (st st' : State P) (h : Handoff) → efi_main P m st ≡ ok (h, st') → Stages st st' h
  unfolding efi_main hand_over
  efi_main-Stages st st' h e =
      let r : Handoff × State P = (h, st') in
      let (u, e1, r1) = and_then-ok (open_kernel m) _ r e in
      let (first, e2, r2) = and_then-ok (prepare_handoff m) _ r r1 in
      let (p, e3, r3) = and_then-ok (load_segments P m.efi m.cur_page _ _ _ _ _) _ r r2 in
      let (there, r4) = passed_not (rsdp_of m == 0) _ _ r r3 (λ q. cc q) in
      let ((stack, p'), e5, r5) = and_then-ok (define_stack P m.efi m.cur_page p _) _ r r4 in
      let (symbols, e6, r6) = and_then-ok (load_symbols m) _ r r5 in
      let (memory, e7, r7) =
        needed (hand_over_memory_map m.memory_map m.memory_map_size m.descriptor_size) _ _ r r6
          (λ q. cc q) in
      let same = ok_inj _ r r7 in
      record {
        opened = e1;
        first = first;
        prepared = e2;
        loaded = p;
        loads = e3;
        found = there;
        stack = stack;
        last = p';
        defined = e5;
        symbols = symbols;
        symbols_loaded = e6;
        memory = memory;
        memory_handed = e7;
        handed = ap (λ x. x.0) same;
        tables = ap (λ x. x.1) same;
      }
