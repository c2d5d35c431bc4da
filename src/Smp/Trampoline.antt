-- ===== src/Smp/Trampoline.antt =====
-- What `smp_init` of Kernel/src/sys/smp.c puts into low memory for the processors that it starts: the
-- trampoline, the pointer to the segment table, and the root of the page tables.
mod Tests
use wheatley.Common.{
  ℕ, zero, suc, ◌+◌, ◌-◌, ◌*◌, ◌/◌, ◌%◌, ◌^◌, ◌≤◌, ◌<◌, min, max, bit_and, bit_or, bit_xor, ◌≡◌,
  refl, sym, ap, ap₂, ◌∙◌, fun_ext, ◌≢◌, ◌↔◌, ◌⊎◌, inl, inr, Bool, true, false, not, ◌&&◌, ◌||◌,
  Option, none, some, List, [], ◌∷◌, ◌++◌, map, arith, ltb, leb, ◌==◌, if◌then◌else◌, ltb→lt,
  lt→ltb, ==_iff, ==_refl, Bool-cases, Option-cases, length, get_elem?, get_or, length-append,
  update, fill, shr, bit, complement, bit-or, bit-and, bit-lt, bit-two-pow, bit-complement,
  bit_or-lt, bit_and-le, bit_and-low, bit_and-up, bit_and-one, two-pow-lt, bit_and_digit, ℤ, pos,
  negsuc, bit_or_digit, bit-zero, bit-suc,
}
use wheatley.Text.{memcpy}
use wheatley.Text.Copy.{memcpy-inside, memcpy-outside}
use wheatley.Pci.Access.{Bytes, mmout, mmin}
use wheatley.Pci.Access.Bytes.{mmout-outside, mmin-mmout, low_bytes-dword}

-- `sizeof(gdt_ptr_t)`
abbrev pub gdt_ptr_size : ℕ
gdt_ptr_size = 10

-- The three writes; `ap_trampoline` and `gdt_ptr` are addresses.
unfoldable pub copy_trampoline : Bytes → (ap_trampoline gdt_ptr cr3 : ℕ) → Bytes
copy_trampoline mem ap_trampoline gdt_ptr cr3 =
    let m1 = memcpy mem 0x8000 ap_trampoline 4096 in
    let m2 = memcpy m1 0x9000 gdt_ptr gdt_ptr_size in mmout m2 0x9010 4 (cr3 % 2 ^ 32)

-- What a started processor finds.
pub record Copied (mem mem' : Bytes) (ap_trampoline gdt_ptr cr3 : ℕ) : Type 0 where
  pub trampoline : (i : ℕ) → i < 4096 → mem' (0x8000 + i) ≡ mem (ap_trampoline + i)
  pub segments : (i : ℕ) → i < gdt_ptr_size → mem' (0x9000 + i) ≡ mem (gdt_ptr + i)
  pub page_map : (mmin mem' 0x9010 4 ≡ cr3) ↔ (cr3 < 2 ^ 32)
  pub elsewhere : (x : ℕ) → (x < 0x8000) ⊎ (0x9014 ≤ x) → mem' x ≡ mem x

-- The trampoline and the segment table's pointer are copied whole, where their own bytes lie above
-- the copies; the root of the page tables is the one in CR3 exactly when that is below 4 GB; and of
-- the other memory nothing is written from 0x9014 on or below 0x8000.
pub copy_trampoline-Copied :
    (mem : Bytes) (ap_trampoline gdt_ptr cr3 : ℕ)
    → 0x9014 ≤ ap_trampoline
    → 0x9014 ≤ gdt_ptr
    → Copied mem (copy_trampoline mem ap_trampoline gdt_ptr cr3) ap_trampoline gdt_ptr cr3
unfolding copy_trampoline
copy_trampoline-Copied mem ap_trampoline gdt_ptr cr3 far far' =
    let m1 = memcpy mem 0x8000 ap_trampoline 4096 in
    let m2 = memcpy m1 0x9000 gdt_ptr gdt_ptr_size in
    let last = mmout-outside m2 0x9010 4 (cr3 % 2 ^ 32) in
    let root : mmin (mmout m2 0x9010 4 (cr3 % 2 ^ 32)) 0x9010 4 ≡ cr3 % 2 ^ 32 =
      mmin-mmout m2 0x9010 4 (cr3 % 2 ^ 32) ∙ low_bytes-dword (cr3 % 2 ^ 32) ∙ omega arith in
    record {
      trampoline = λ i lt.
          last (0x8000 + i) (inl (omega arith))
          ∙ memcpy-outside m1 0x9000 gdt_ptr gdt_ptr_size (0x8000 + i) (inl (omega arith))
          ∙ memcpy-inside mem 0x8000 ap_trampoline 4096 i (inl (omega arith)) lt;
      segments = λ i lt.
          last (0x9000 + i) (inl (omega arith))
          ∙ memcpy-inside m1 0x9000 gdt_ptr gdt_ptr_size i (inl (omega arith)) lt
          ∙ memcpy-outside mem 0x8000 ap_trampoline 4096 (gdt_ptr + i) (inr (omega arith));
      page_map = (λ e. omega (arith, e, root), λ lt. omega (arith, lt, root));
      elsewhere = λ x out.
          last x (elim out [ inl l ↦ inl (omega arith) | inr l ↦ inr (omega arith) ])
          ∙ memcpy-outside m1 0x9000 gdt_ptr gdt_ptr_size x
              (elim out [ inl l ↦ inl (omega arith) | inr l ↦ inr (omega arith) ])
          ∙ memcpy-outside mem 0x8000 ap_trampoline 4096 x
              (elim out [ inl l ↦ inl (omega arith) | inr l ↦ inr (omega arith) ]);
    }
