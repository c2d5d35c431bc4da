-- ===== src/Mm/Init/FreePages.antt =====
-- Which pages `mm_init` of Kernel/src/mm/init.c leaves free.
use wheatley.Common.{
  ℕ, ◌+◌, ◌-◌, ◌*◌, ◌/◌, ◌%◌, ◌^◌, ◌<◌, ◌≡◌, ◌≢◌, refl, ap, ◌∙◌, min, Bool, true, false, not, ◌&&◌,
  ◌||◌, List, [], ◌∷◌, complement, leb, ltb, ◌==◌, if◌then◌else◌, arith, bit, bit-or,
  bit-complement, bit-lt, bit-none, ◌⊎◌, inl, inr,
}
use native.Mathlib.Nat.{one-le-pow}
use wheatley.Mm.{Mm, Outcome, ok, panic, lock, unlock, get_page_bit, set_pages}
use wheatley.Mm.PageBits.{get-set_pages, get-clear_pages}
use wheatley.Mm.Calls.{set_pages-rest, clear_pages-rest}
use wheatley.Mm.Init.{
  Entry, EntryType, free, used, reserved, total_pages, alloc_pages, find_space, set_all, add_entry,
  add_entries, _mm_add_alloc, mm_init,
}

-- The page lies in a free entry of the memory map.
abbrev pub covers : Entry → ℕ → Bool
covers entry p = leb (entry.start / 4096) p && ltb p (entry.start / 4096 + entry.pages)

abbrev pub in_free : List Entry → ℕ → Bool
in_free [] p = false
in_free (entry ∷ entries) p =
    let rest = in_free entries p in
    elim entry.type [ free ↦ covers entry p || rest | used ↦ rest | reserved ↦ rest ]

-- The bytes of the page's word that lie in the bitmap hold the page's bit.
in_word : (count p : ℕ) → p < count * 8 → p % 32 < 8 * min (count - 4 * (p / 32)) 4
in_word count p lt = ground arith

get-set_all : (m : Mm) (p : ℕ) → p < m.page_count * 8 → get_page_bit (set_all m) p ≡ true
unfolding get_page_bit set_all
get-set_all m p lt =
    let width = 8 * min (m.page_count - 4 * (p / 32)) 4 in
    let one : bit (complement width 0) (p % 32) ≡ 1 =
      bit-complement width (p % 32) 0 (in_word m.page_count p lt) (one-le-pow width 2 (omega arith))
      ∙ ap (λ b. 1 - b) (bit-none (p % 32)) in
    ground (
      arith,
      bit-or (p % 32) (m.pages (p / 32)) (complement width 0),
      one,
      bit-lt (m.pages (p / 32)) (p % 32),
    )

pub EntryType-cases : (t : EntryType) → (t ≡ free) ⊎ ((t ≡ used) ⊎ (t ≡ reserved))
EntryType-cases free = inl refl
EntryType-cases used = inr (inl refl)
EntryType-cases reserved = inr (inr refl)

get-_mm_add_alloc :
    (m : Mm) (entry : Entry) (p : ℕ) → get_page_bit (_mm_add_alloc m entry) p ≡ get_page_bit m p
unfolding _mm_add_alloc get_page_bit
get-_mm_add_alloc m entry p = refl

abbrev pub frees : Entry → ℕ → Bool
frees entry p = elim entry.type [ free ↦ covers entry p | used ↦ false | reserved ↦ false ]

get-add_entry :
    (m : Mm) (entry : Entry) (p : ℕ)
    → get_page_bit (add_entry m entry) p ≡ (if frees entry p then false else get_page_bit m p)
unfolding add_entry
get-add_entry m entry p = elim (EntryType-cases entry.type) [
  | inl e ↦ rw e (get-clear_pages entry.pages m (entry.start / 4096) 0 p ∙ ground arith)
  | inr (inl e) ↦ rw e (get-_mm_add_alloc m _ p)
  | inr (inr e) ↦ rw e refl
]

pub in_free-frees :
    (entry : Entry) (entries : List Entry) (p : ℕ)
    → in_free (entry ∷ entries) p ≡ (frees entry p || in_free entries p)
in_free-frees entry entries p = elim (EntryType-cases entry.type) [
  | inl e ↦ rw e refl
  | inr (inl e) ↦ rw e refl
  | inr (inr e) ↦ rw e refl
]

get-add_entries :
    (entries : List Entry) (m : Mm) (p : ℕ)
    → get_page_bit (add_entries m entries) p
      ≡ (if in_free entries p then false else get_page_bit m p)
unfolding add_entries
get-add_entries [] m p = refl
get-add_entries (entry ∷ entries) m p =
    get-add_entries entries (add_entry m entry) p
    ∙ ground (arith, get-add_entry m entry p, in_free-frees entry entries p)

add_entry-page_count : (m : Mm) (entry : Entry) → (add_entry m entry).page_count ≡ m.page_count
unfolding add_entry _mm_add_alloc
add_entry-page_count m entry = elim (EntryType-cases entry.type) [
  | inl e ↦ rw e (ap (λ s. s.page_count) (clear_pages-rest entry.pages m (entry.start / 4096) 0))
  | inr (inl e) ↦ rw e refl
  | inr (inr e) ↦ rw e refl
]

add_entries-page_count :
    (entries : List Entry) (m : Mm) → (add_entries m entries).page_count ≡ m.page_count
unfolding add_entries
add_entries-page_count [] m = refl
add_entries-page_count (entry ∷ entries) m =
    add_entries-page_count entries (add_entry m entry) ∙ add_entry-page_count m entry

-- The size of the bitmap in bytes, for a memory map.
abbrev pub bitmap_size : Mm → List Entry → ℕ
bitmap_size m entries = (total_pages entries m.page_count + 7) % 2 ^ 64 / 8

-- A page below 16 MB, or one of those set aside for the tables at `space`.
abbrev pub set_aside : (space count p : ℕ) → Bool
set_aside space count p =
    ltb p 4096 || (leb (space / 4096) p && ltb p (space / 4096 + (alloc_pages + count)))

-- How `mm_init` ends.
pub data Started (m : Mm) (entries : List Entry) (r : Outcome (Unit {0})) : Type 0 where
  no_space :
      (m' : Mm)
      → find_space entries (alloc_pages + bitmap_size m entries) ≡ 0
      → r ≡ panic "Assertion failed: _mm_pages != NULL" m'
      → Started m entries r
  started :
      (space : ℕ) (m' : Mm)
      → find_space entries (alloc_pages + bitmap_size m entries) ≡ space
      → space ≢ 0
      → r ≡ ok tt m'
      → m'.locked ≡ false
      → m'.page_count ≡ bitmap_size m entries
      → ((p : ℕ)
          → p < m'.page_count * 8
          → get_page_bit m' p
            ≡ not (in_free entries p) || set_aside space (bitmap_size m entries) p)
      → Started m entries r

get-unlock : (m : Mm) (p : ℕ) → get_page_bit (unlock m) p ≡ get_page_bit m p
unfolding get_page_bit
get-unlock m p = refl

module _ (m : Mm) (entries : List Entry) (idle : m.locked ≡ false) where
  abbrev pub count : ℕ
  count = bitmap_size m entries

  abbrev pub filled : ℕ → Mm
  filled space =
      let m1 = set_all (lock (record m { page_count = count })) in
      let m3 = set_pages (add_entries m1 entries) 0 0 4096 in
      unlock (set_pages m3 (space / 4096) 0 (alloc_pages + count))

  pub mm_init-filled :
      (space : ℕ)
      → find_space entries (alloc_pages + count) ≡ space
      → space ≢ 0
      → mm_init m entries ≡ ok tt (filled space)
  unfolding mm_init
  mm_init-filled space e ne =
      let given : (space == 0) ≡ false = ground arith in rw (idle, e, given) refl

  pub mm_init_full :
      find_space entries (alloc_pages + count) ≡ 0
      → mm_init m entries
        ≡ panic "Assertion failed: _mm_pages != NULL" (lock (record m { page_count = count }))
  unfolding mm_init
  mm_init_full e = rw (idle, e) refl

  pub filled-page_count : (space : ℕ) → (filled space).page_count ≡ count
  unfolding set_all
  filled-page_count space =
      ap (λ s. s.page_count) (set_pages-rest (alloc_pages + count) _ (space / 4096) 0)
      ∙ ap (λ s. s.page_count) (set_pages-rest 4096 _ 0 0)
      ∙ add_entries-page_count entries _

  pub get-filled :
      (space p : ℕ)
      → p < count * 8
      → get_page_bit (filled space) p ≡ not (in_free entries p) || set_aside space count p
  get-filled space p lt =
      let m1 = set_all (lock (record m { page_count = count })) in
      let m2 = add_entries m1 entries in
      let tables = get-set_pages (alloc_pages + count) (set_pages m2 0 0 4096) (space / 4096) 0 p in
      let low = get-set_pages 4096 m2 0 0 p in
      let all = get-set_all (lock (record m { page_count = count })) p lt in
      let added = get-add_entries entries m1 p in
      get-unlock _ p ∙ tables ∙ ground (arith, low, all, added)
