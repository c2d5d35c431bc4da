-- ===== src/Mm/Init/Blocks.antt =====
-- Entries of the memory map as blocks of the table of Kernel/src/mm/init.c: one more block, which has no
-- page in common with the others, keeps the table consistent.
use wheatley.Common.{
  ℕ, ◌+◌, ◌*◌, ◌/◌, ◌%◌, ◌^◌, ◌≤◌, ◌<◌, ◌≡◌, refl, sym, ap, ◌∙◌, ◌≢◌, ◌⊎◌, inl, inr, Bool, true,
  false, List, [], ◌∷◌, arith, ◌==◌, if◌then◌else◌, Bool-cases, update,
}
use wheatley.Mm.{Alloc, alloc_max_size}
use wheatley.Mm.Consistent.{IsConsistent}
use wheatley.Mm.Init.{Entry, used, free, is_free}

abbrev pub first_page : Entry → ℕ
first_page e = e.start / 4096

-- No page in common.
abbrev pub Apart : Entry → Entry → Type 0
Apart e f = (first_page e + e.pages ≤ first_page f) ⊎ (first_page f + f.pages ≤ first_page e)

abbrev pub AllApart : Entry → List Entry → Type 0
AllApart e [] = Unit
AllApart e (f ∷ fs) = Apart e f × AllApart e fs

-- A used entry that the table can hold and whose pages have bits in a bitmap of `size` bytes.
abbrev pub IsBlock : (size : ℕ) → Entry → Type 0
IsBlock size e =
    (0 < e.pages)
    × (e.pages < 2 ^ 16)
    × (first_page e < 2 ^ 32)
    × (first_page e + e.pages < size * 8)

-- The bitmap has bits for the first 16 MB; entries have no page in common, and the used and the free ones end
-- before the bitmap's last page.
abbrev pub IsValid : (size : ℕ) → List Entry → Type 0
IsValid size [] = 4096 ≤ size * 8
IsValid size (e ∷ es) =
    ((e.type ≡ used → IsBlock size e) × (e.type ≡ free → first_page e + e.pages < size * 8))
    × AllApart e es
    × IsValid size es

-- A block of the table and an entry have no page in common.
abbrev pub Away : Alloc → Entry → Type 0
Away a e =
    (0 < a.page_count)
    × ((a.page_start + a.page_count ≤ first_page e) ⊎ (first_page e + e.pages ≤ a.page_start))

abbrev pub AllAway : (allocs : ℕ → Alloc) → (count : ℕ) → List Entry → Type 0
AllAway allocs count [] = Unit
AllAway allocs count (e ∷ es) = ((i : ℕ) → i < count → Away (allocs i) e) × AllAway allocs count es

abbrev pub block_of : Entry → Alloc
block_of e = record {
  page_start = first_page e;
  page_count = e.pages % 2 ^ 16;
  used = if is_free e.type then false else true;
}

pub AllAway-more :
    (allocs : ℕ → Alloc) (count : ℕ) (e : Entry) (es : List Entry)
    → 0 < e.pages
    → e.pages < 2 ^ 16
    → AllApart e es
    → AllAway allocs count es
    → AllAway (update allocs count (block_of e)) (count + 1) es
AllAway-more allocs count e [] pos short apart away = tt
AllAway-more allocs count e (f ∷ fs) pos short (apart, aparts) (away, aways) = (
  λ i lt. elim (Bool-cases (count == i)) [
    | inl new ↦
        rw new (omega arith, elim apart [ inl l ↦ inl (omega arith) | inr l ↦ inr (omega arith) ])
    | inr old ↦ rw old (away i (ground arith))
  ],
  AllAway-more allocs count e fs pos short aparts aways,
)

-- One more block in the table.
module _ {taken : ℕ → Bool} {allocs : ℕ → Alloc} {count : ℕ} (c : IsConsistent taken allocs count)
    (e : Entry) (is_used : is_free e.type ≡ false) (pos : 0 < e.pages) (short : e.pages < 2 ^ 16)
    (low : first_page e < 2 ^ 32) (room : count < alloc_max_size)
    (away : (i : ℕ) → i < count → Away (allocs i) e)
    (holds : (k : ℕ) → k < e.pages → taken (first_page e + k) ≡ true) where
  abbrev allocs' : ℕ → Alloc
  allocs' = update allocs count (block_of e)

  -- Where an entry of the larger table comes from.
  slot :
      (i : ℕ)
      → i < count + 1
      → ((i < count) × (allocs' i ≡ allocs i)) ⊎ ((i ≡ count) × (allocs' i ≡ block_of e))
  slot i lt = elim (Bool-cases (count == i)) [
    | inl new ↦ rw new (inr (ground arith, refl))
    | inr old ↦ rw old (inl (ground arith, refl))
  ]

  in_block : (a : Alloc) → a ≡ block_of e → (a.page_start ≡ first_page e) × (a.page_count ≡ e.pages)
  in_block a q = (ap (λ x. x.page_start) q, ap (λ x. x.page_count) q ∙ omega arith)

  old_old : (a b : Alloc) → a ≡ b → (a.page_start ≡ b.page_start) × (a.page_count ≡ b.page_count)
  old_old a b q = (ap (λ x. x.page_start) q, ap (λ x. x.page_count) q)

  -- An old block does not start in the new one, nor has it a page of it.
  new_apart :
      (i k l : ℕ)
      → i < count
      → k < (allocs i).page_count
      → l < e.pages
      → (allocs i).page_start + k ≢ first_page e + l
  new_apart i k l lt k_lt l_lt same =
      let (some_page, sides) = away i lt in
      elim sides [ inl under ↦ omega arith | inr over ↦ omega arith ]

  new_start : (i : ℕ) → i < count → (allocs i).page_start ≢ first_page e
  new_start i lt same =
      let (some_page, sides) = away i lt in new_apart i 0 0 lt some_page pos (omega (arith, same))

  pub block-IsConsistent : IsConsistent taken allocs' (count + 1)
  block-IsConsistent = record {
    room = omega arith;
    small = λ i lt. elim (slot i lt) [
      | inl (below, q) ↦ rw q (c.small i below)
      | inr (here, q) ↦ rw q low
    ];
    unique = λ i j lt lt' same. elim (slot i lt) [
      | inl (below, q) ↦ elim (slot j lt') [
        | inl (below', q') ↦
            c.unique i j below below' (omega (arith, old_old _ _ q, old_old _ _ q', same))
        | inr (here', q') ↦
            absurd (new_start i below (omega (arith, old_old _ _ q, in_block _ q', same)))
      ]
      | inr (here, q) ↦ elim (slot j lt') [
        | inl (below', q') ↦
            absurd (new_start j below' (omega (arith, in_block _ q, old_old _ _ q', same)))
        | inr (here', q') ↦ omega (arith, here, here')
      ]
    ];
    held = λ i k lt live in_range. elim (slot i lt) [
      | inl (below, q) ↦
          let (start, pages) = old_old _ _ q in
          rw start
            (c.held i k below (sym (ap (λ x. x.used) q) ∙ live) (omega (arith, pages, in_range)))
      | inr (here, q) ↦
          let (start, pages) = in_block _ q in rw start (holds k (omega (arith, pages, in_range)))
    ];
    apart = λ i j k l lt lt' live live' k_lt l_lt same. elim (slot i lt) [
      | inl (below, q) ↦
          let (start, pages) = old_old _ _ q in
          elim (slot j lt') [
            | inl (below', q') ↦
                let (start', pages') = old_old _ _ q' in
                c.apart i j k l below below' (sym (ap (λ x. x.used) q) ∙ live)
                  (sym (ap (λ x. x.used) q') ∙ live') (omega (arith, pages, k_lt))
                  (omega (arith, pages', l_lt)) (omega (arith, start, start', same))
            | inr (here', q') ↦
                let (start', pages') = in_block _ q' in
                absurd (
                  new_apart i k l below (omega (arith, pages, k_lt)) (omega (arith, pages', l_lt))
                    (omega (arith, start, start', same)))
          ]
      | inr (here, q) ↦
          let (start, pages) = in_block _ q in
          elim (slot j lt') [
            | inl (below', q') ↦
                let (start', pages') = old_old _ _ q' in
                absurd (
                  new_apart j l k below' (omega (arith, pages', l_lt)) (omega (arith, pages, k_lt))
                    (omega (arith, start, start', same)))
            | inr (here', q') ↦ omega (arith, here, here')
          ]
    ];
  }
