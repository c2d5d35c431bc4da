-- ===== src/Mm/Init/Sound.antt =====
-- The allocator that `mm_init` of Kernel/src/mm/init.c leaves, where the entries of the memory map do
-- not overlap: its table agrees with its bitmap.
use wheatley.Common.{
  ℕ, suc, ◌+◌, ◌/◌, ◌%◌, ◌^◌, ◌≤◌, ◌≡◌, refl, sym, ap, ◌∙◌, inl, inr, Bool, true, false, not, ◌*◌,
  ◌-◌, ◌<◌, ◌||◌, List, [], ◌∷◌, arith, ◌==◌, Bool-cases, update,
}
use mathlib.Core.Path.{subst, subst₂}
use wheatley.Mm.{Mm, Alloc, ok, alloc_max_size, get_page_bit, set_pages, lock}
use wheatley.Mm.Consistent.{IsConsistent}
use wheatley.Mm.Calls.{IsSound, set_pages-rest, clear_pages-rest}
use wheatley.Mm.Init.{
  Entry, free, used, reserved, is_free, add_entry, add_entries, _mm_add_alloc, set_all, mm_init,
  alloc_pages, find_space,
}
use wheatley.Mm.Init.FreePages.{
  EntryType-cases, bitmap_size, filled, mm_init-filled, mm_init_full, filled-page_count, get-filled,
  set_aside, covers, in_free,
}
use wheatley.Mm.Init.Blocks.{
  first_page, IsValid, AllAway, block_of, AllAway-more, block-IsConsistent,
}
use wheatley.Mm.Init.Holding.{Holds, none_yet, in_free-Holds}

unfoldable pub used_count : List Entry → ℕ
used_count [] = 0
used_count (e ∷ es) =
    let rest = used_count es in elim e.type [ free ↦ rest | used ↦ suc rest | reserved ↦ rest ]

empty-IsConsistent :
    (taken : ℕ → Bool) (allocs : ℕ → Alloc) (count : ℕ)
    → count ≡ 0
    → IsConsistent taken allocs count
empty-IsConsistent taken allocs count none_yet = record {
  room = omega arith;
  small = λ i lt. omega arith;
  unique = λ i j lt lt' same. omega arith;
  held = λ i k lt live in_range. absurd (omega arith);
  apart = λ i j k l lt lt' live live' k_lt l_lt same. omega arith;
}

empty-AllAway :
    (allocs : ℕ → Alloc) (count : ℕ) (entries : List Entry)
    → count ≡ 0
    → AllAway allocs count entries
empty-AllAway allocs count [] none_yet = tt
empty-AllAway allocs count (e ∷ es) none_yet =
    (λ i lt. absurd (omega arith), empty-AllAway allocs count es none_yet)

-- What a round of the loop does to the table: nothing, unless the entry is used.
data Round (m : Mm) (e : Entry) : Type 0 where
  passed :
      (add_entry m e).allocs ≡ m.allocs
      → (add_entry m e).alloc_count ≡ m.alloc_count
      → ((es : List Entry) → used_count (e ∷ es) ≡ used_count es)
      → Round m e
  added :
      e.type ≡ used
      → (add_entry m e).allocs ≡ update m.allocs m.alloc_count (block_of e)
      → (add_entry m e).alloc_count ≡ (m.alloc_count + 1) % 2 ^ 16
      → ((es : List Entry) → used_count (e ∷ es) ≡ suc (used_count es))
      → Round m e

add_entry-Round : (m : Mm) (e : Entry) → Round m e
unfolding add_entry _mm_add_alloc used_count
add_entry-Round m e = elim (EntryType-cases e.type) [
  | inl q ↦
      passed (rw q (ap (λ s. s.allocs) (clear_pages-rest e.pages m (first_page e) 0)))
        (rw q (ap (λ s. s.alloc_count) (clear_pages-rest e.pages m (first_page e) 0)))
        (λ es. rw q refl)
  | inr (inl q) ↦ added q (rw q refl) (rw q refl) (λ es. rw q refl)
  | inr (inr q) ↦ passed (rw q refl) (rw q refl) (λ es. rw q refl)
]

-- The loop over the memory map, for a bitmap in which the used entries' pages are taken.
add_entries-IsConsistent :
    (size : ℕ) (taken : ℕ → Bool) (entries : List Entry) (m : Mm)
    → IsConsistent taken m.allocs m.alloc_count
    → IsValid size entries
    → AllAway m.allocs m.alloc_count entries
    → Holds taken entries
    → m.alloc_count + used_count entries ≤ alloc_max_size
    → IsConsistent taken (add_entries m entries).allocs (add_entries m entries).alloc_count
      × ((add_entries m entries).alloc_count ≡ m.alloc_count + used_count entries)
unfolding add_entries used_count is_free
add_entries-IsConsistent size taken [] m c valid aways holds few = (c, omega arith)
add_entries-IsConsistent size taken (e ∷ es) m c ((block, under), apart, valid) (away, aways)
      (hold, holds) few =
    let next = add_entries-IsConsistent size taken es (add_entry m e) in
    finish next (add_entry-Round m e)
  where
    finish :
        (IsConsistent taken (add_entry m e).allocs (add_entry m e).alloc_count
          → IsValid size es
          → AllAway (add_entry m e).allocs (add_entry m e).alloc_count es
          → Holds taken es
          → (add_entry m e).alloc_count + used_count es ≤ alloc_max_size
          → IsConsistent taken
              (add_entries (add_entry m e) es).allocs
              (add_entries (add_entry m e) es).alloc_count
            × ((add_entries (add_entry m e) es).alloc_count
                ≡ (add_entry m e).alloc_count + used_count es))
        → Round m e
        → IsConsistent taken
            (add_entries (add_entry m e) es).allocs
            (add_entries (add_entry m e) es).alloc_count
          × ((add_entries (add_entry m e) es).alloc_count ≡ m.alloc_count + used_count (e ∷ es))
    finish next (passed same same_count counted) =
        let (c', total) =
          next (subst₂ (IsConsistent taken) (sym same) (sym same_count) c) valid
            (subst₂ (λ a n. AllAway a n es) (sym same) (sym same_count) aways) holds
            (omega (arith, same_count, counted es, few)) in
        (c', omega (arith, total, same_count, counted es))
    finish next (added q more more_count counted) =
        let (pos, short, low, inside) = block q in
        let grown : (add_entry m e).alloc_count ≡ m.alloc_count + 1 =
          omega (arith, more_count, counted es, few) in
        let (c', total) =
          next
            (subst₂ (IsConsistent taken) (sym more) (sym grown) (
              block-IsConsistent c e (ap is_free q) pos short low (omega (arith, counted es, few))
                away (hold q)))
            valid
            (subst₂ (λ a n. AllAway a n es) (sym more) (sym grown)
              (AllAway-more m.allocs m.alloc_count e es pos short apart aways))
            holds (omega (arith, grown, counted es, few)) in
        (c', omega (arith, total, grown, counted es))

abbrev AllInside : (size : ℕ) → (allocs : ℕ → Alloc) → (count : ℕ) → Type 0
AllInside size allocs count =
    (i : ℕ)
    → i < count
    → (allocs i).used ≡ true
    → (allocs i).page_start + (allocs i).page_count < size * 8

AllInside-more :
    (size : ℕ) (allocs : ℕ → Alloc) (count : ℕ) (e : Entry)
    → first_page e + e.pages < size * 8
    → AllInside size allocs count
    → AllInside size (update allocs count (block_of e)) (count + 1)
AllInside-more size allocs count e fits inside i lt live = elim (Bool-cases (count == i)) [
  | inl new ↦
      let at : update allocs count (block_of e) i ≡ block_of e = rw new refl in
      omega (arith, ap (λ a. a.page_start) at, ap (λ a. a.page_count) at, fits)
  | inr old ↦
      let at : update allocs count (block_of e) i ≡ allocs i = rw old refl in
      let h = inside i (ground arith) (sym (ap (λ a. a.used) at) ∙ live) in
      omega (arith, ap (λ a. a.page_start) at, ap (λ a. a.page_count) at, h)
]

-- The table's blocks end before the last page.
add_entries-AllInside :
    (size : ℕ) (entries : List Entry) (m : Mm)
    → IsValid size entries
    → m.alloc_count + used_count entries ≤ alloc_max_size
    → AllInside size m.allocs m.alloc_count
    → AllInside size (add_entries m entries).allocs (add_entries m entries).alloc_count
unfolding add_entries
add_entries-AllInside size [] m valid few inside = inside
add_entries-AllInside size (e ∷ es) m ((block, under), apart, valid) few inside =
    elim (add_entry-Round m e) [
      | passed same same_count counted ↦
          add_entries-AllInside size es (add_entry m e) valid
            (omega (arith, same_count, counted es, few))
            (subst₂ (AllInside size) (sym same) (sym same_count) inside)
      | added q more more_count counted ↦
          let (pos, short, low, fits) = block q in
          let grown : (add_entry m e).alloc_count ≡ m.alloc_count + 1 =
            omega (arith, more_count, counted es, few) in
          add_entries-AllInside size es (add_entry m e) valid
            (omega (arith, grown, counted es, few))
            (subst₂ (AllInside size) (sym more) (sym grown)
              (AllInside-more size m.allocs m.alloc_count e fits inside))
    ]

-- No free entry has the last page, which the bitmap has.
pub last-free :
    (size : ℕ) (entries : List Entry)
    → IsValid size entries
    → (in_free entries (size * 8 - 1) ≡ false) × (4096 ≤ size * 8)
last-free size [] valid = (refl, valid)
last-free size (e ∷ es) ((block, under), apart, valid) =
    let (rest, long) = last-free size es valid in
    elim (EntryType-cases e.type) [
      | inl q ↦
          let fits = under q in
          let out : covers e (size * 8 - 1) ≡ false = ground arith in
          (rw q (rw (out, rest) refl), long)
      | inr (inl q) ↦ (rw q rest, long)
      | inr (inr q) ↦ (rw q rest, long)
    ]

module _ (m : Mm) (entries : List Entry) (idle : m.locked ≡ false) (blank : m.alloc_count ≡ 0)
    (valid : IsValid (bitmap_size m entries) entries)
    (few : used_count entries ≤ alloc_max_size) where
  -- The allocator after `mm_init`.
  pub record Sound (m' : Mm) : Type 0 where
    pub sound : IsSound m'
    pub unlocked : m'.locked ≡ false
    pub size : m'.page_count ≡ bitmap_size m entries
    pub count : m'.alloc_count ≡ used_count entries

  filled-Sound : (space : ℕ) → Sound (filled m entries idle space)
  unfolding set_all
  filled-Sound space =
      let m' = filled m entries idle space in
      let m1 = set_all (lock (record m { page_count = bitmap_size m entries })) in
      let m2 = add_entries m1 entries in
      let table : m'.allocs ≡ m2.allocs =
        ap (λ s. s.allocs)
          (set_pages-rest (alloc_pages + bitmap_size m entries) (set_pages m2 0 0 4096)
            (space / 4096) 0)
        ∙ ap (λ s. s.allocs) (set_pages-rest 4096 m2 0 0) in
      let counted : m'.alloc_count ≡ m2.alloc_count =
        ap (λ s. s.alloc_count)
          (set_pages-rest (alloc_pages + bitmap_size m entries) (set_pages m2 0 0 4096)
            (space / 4096) 0)
        ∙ ap (λ s. s.alloc_count) (set_pages-rest 4096 m2 0 0) in
      let taken = get_page_bit m' in
      let holds =
        in_free-Holds (bitmap_size m entries) taken entries (λ p. false)
          (λ p lt out.
            get-filled m entries idle space p lt
            ∙ ap (λ x. not x || set_aside space (bitmap_size m entries) p) out)
          valid (none_yet entries) in
      let (c, total) =
        add_entries-IsConsistent (bitmap_size m entries) taken entries m1
          (empty-IsConsistent taken m1.allocs m1.alloc_count blank) valid
          (empty-AllAway m1.allocs m1.alloc_count entries blank) holds
          (omega (arith, blank, few)) in
      record {
        sound = record {
          agrees = subst₂ (IsConsistent taken) (sym table) (sym counted) c;
          last =
              let (out, long) = last-free (bitmap_size m entries) entries valid in
              ap (λ s. get_page_bit m' (s * 8 - 1)) (filled-page_count m entries idle space)
              ∙ get-filled m entries idle space (bitmap_size m entries * 8 - 1) (omega arith)
              ∙ ap
                  (λ x.
                    not x
                    || set_aside space (bitmap_size m entries) (bitmap_size m entries * 8 - 1))
                  out;
          inside =
              subst (λ s. AllInside s m'.allocs m'.alloc_count)
                (sym (filled-page_count m entries idle space))
                (subst₂ (AllInside (bitmap_size m entries)) (sym table) (sym counted) (
                  add_entries-AllInside (bitmap_size m entries) entries m1 valid
                    (omega (arith, blank, few)) (λ i lt live. omega arith)));
        };
        unlocked = refl;
        size = filled-page_count m entries idle space;
        count = omega (arith, counted, total, blank);
      }

  pub mm_init-Sound : (m' : Mm) → mm_init m entries ≡ ok tt m' → Sound m'
  mm_init-Sound m' e =
      let space = find_space entries (alloc_pages + bitmap_size m entries) in
      elim (Bool-cases (space == 0)) [
        | inl null ↦
            let lost = sym e ∙ mm_init_full m entries idle (ground arith) in absurd (cc lost)
        | inr found ↦
            let there = sym (mm_init-filled m entries idle space refl (ground arith)) ∙ e in
            let same : filled m entries idle space ≡ m' = cc there in
            subst Sound same (filled-Sound space)
      ]
