-- ===== src/Loader/MemoryMap.antt =====
-- The memory map that Bootloader/src/main.c hands over.
use wheatley.Common.{
  ℕ, zero, suc, ◌+◌, ◌/◌, ◌≤◌, ◌<◌, ◌≡◌, refl, sym, ap, ◌∙◌, arith, some, List, [], ◌∷◌, ◌++◌, ltb,
  length, length-append, get_elem?, get_or, true,
}
use mathlib.Core.Path.{subst}
use native.Mathlib.Decide.{dec_lt}
use wheatley.Mm.Init.{reserved, Entry}
use wheatley.Loader.{
  MemoryDescriptor, efi_type_to_bootproto_type, memory_map_loop, hand_over_memory_map,
}

-- A descriptor in the kernel's terms.
abbrev pub translated : MemoryDescriptor → Entry
translated d = record {
  type = get_or efi_type_to_bootproto_type d.type reserved;
  start = d.physical_start;
  pages = d.number_of_pages;
}

-- The entries are the first `n` descriptors, in order.
pub record HandedOver (memory_map : ℕ → MemoryDescriptor) (n : ℕ) (entries : List Entry)
    : Type 0 where
  pub size : length entries ≡ n
  pub entry : (i : ℕ) → i < n → get_elem? entries i ≡ some (translated (memory_map i))

get_elem?-get_or :
    {A : Type 0}
    → (xs : List A) (i : ℕ) (d : A) → i < length xs
    → get_elem? xs i ≡ some (get_or xs i d)
get_elem?-get_or [] i d lt = absurd (omega arith)
get_elem?-get_or (x ∷ xs) zero d lt = refl
get_elem?-get_or (x ∷ xs) (suc i) d lt = get_elem?-get_or xs i d (omega arith)

get_elem?-before :
    (xs : List Entry) (x : Entry) (i : ℕ)
    → i < length xs
    → get_elem? (xs ++ (x ∷ [])) i ≡ get_elem? xs i
get_elem?-before [] x i lt = absurd (omega arith)
get_elem?-before (y ∷ xs) x zero lt = refl
get_elem?-before (y ∷ xs) x (suc i) lt = get_elem?-before xs x i (omega arith)

get_elem?-last : (xs : List Entry) (x : Entry) → get_elem? (xs ++ (x ∷ [])) (length xs) ≡ some x
get_elem?-last [] x = refl
get_elem?-last (y ∷ xs) x = get_elem?-last xs x

module _ (memory_map : ℕ → MemoryDescriptor) where
  snoc-HandedOver :
      (i : ℕ) (entries : List Entry)
      → HandedOver memory_map i entries
      → HandedOver memory_map (i + 1) (entries ++ (translated (memory_map i) ∷ []))
  snoc-HandedOver i entries h =
      let new = translated (memory_map i) in
      record {
        size = omega (arith, h.size, length-append entries (new ∷ []));
        entry = λ j lt. elim (dec_lt j i) [
          | yes before ↦ get_elem?-before entries new j (omega (arith, h.size)) ∙ h.entry j before
          | no ge ↦
              let here : j ≡ length entries = omega (arith, h.size) in
              let same : j ≡ i = omega arith in
              ap (get_elem? (entries ++ (new ∷ []))) here
              ∙ get_elem?-last entries new
              ∙ ap (λ k. some (translated (memory_map k))) (sym same)
        ];
      }

  memory_map_loop-HandedOver :
      (rounds i : ℕ) (entries : List Entry)
      → HandedOver memory_map i entries
      → ((j : ℕ) → j < i + rounds → (memory_map j).type < 14)
      → i + rounds ≤ 128
      → (result : List Entry) × (memory_map_loop memory_map i rounds entries ≡ some result)
        × HandedOver memory_map (i + rounds) result
  unfolding memory_map_loop
  memory_map_loop-HandedOver zero i entries h types room =
      let e : i ≡ i + 0 = omega arith in
      (entries, refl, subst (λ n. HandedOver memory_map n entries) e h)
  memory_map_loop-HandedOver (suc rounds) i entries h types room =
      let known =
        get_elem?-get_or efi_type_to_bootproto_type (memory_map i).type reserved
          (types i (omega arith)) in
      let free_place : ltb (length entries) 128 ≡ true = ground (arith, h.size) in
      let (result, e, done) =
        memory_map_loop-HandedOver rounds (i + 1) (entries ++ (translated (memory_map i) ∷ []))
          (snoc-HandedOver i entries h) (λ j lt. types j (omega arith)) (omega arith) in
      let count : i + 1 + rounds ≡ i + suc rounds = omega arith in
      (
        result,
        rw (known, free_place, memory_map_loop) e,
        subst (λ n. HandedOver memory_map n result) count done,
      )

  -- Of the firmware's memory map, where the types are known and the entries fit into the hand-over,
  -- exactly the first half of the descriptors, rounded down, and one more are handed over, each in
  -- the kernel's terms and in order.
  pub hand_over_memory_map-HandedOver :
      (memory_map_size descriptor_size n : ℕ)
      → memory_map_size / descriptor_size ≡ n
      → ((j : ℕ) → j < n / 2 + 1 → (memory_map j).type < 14)
      → n / 2 + 1 ≤ 128
      → (entries : List Entry) × (hand_over_memory_map memory_map memory_map_size descriptor_size
          ≡ some entries)
        × HandedOver memory_map (n / 2 + 1) entries
  unfolding hand_over_memory_map
  hand_over_memory_map-HandedOver memory_map_size descriptor_size n e types room =
      let nothing : HandedOver memory_map 0 [] = record {
        size = refl;
        entry = λ i lt. absurd (omega arith);
      } in
      let (entries, run, done) =
        memory_map_loop-HandedOver (n / 2 + 1) 0 [] nothing (λ j lt. types j (omega arith))
          (omega arith) in
      let count : 0 + (n / 2 + 1) ≡ n / 2 + 1 = omega arith in
      (
        entries,
        ap (λ k. memory_map_loop memory_map 0 (k / 2 + 1) []) e ∙ run,
        subst (λ k. HandedOver memory_map k entries) count done,
      )
