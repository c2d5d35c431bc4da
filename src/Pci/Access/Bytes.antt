-- ===== src/Pci/Access/Bytes.antt =====
-- Stores and loads of memory as Kernel/inc/sys/mmio.h does them: what a load finds after a store.
use wheatley.Common.{
  ℕ, zero, suc, ◌+◌, ◌*◌, ◌/◌, ◌%◌, ◌^◌, ◌≤◌, ◌<◌, ◌≡◌, refl, ◌∙◌, ◌≢◌, ◌⊎◌, inl, inr, arith,
  update, ap₂,
}
use wheatley.Pci.Access.{Bytes, mmout, mmin}

-- Bytes in front of the store and behind it stay.
pub mmout-outside :
    (mem : Bytes) (addr width val a : ℕ)
    → (a < addr) ⊎ (addr + width ≤ a)
    → mmout mem addr width val a ≡ mem a
unfolding mmout
mmout-outside mem addr zero val a out = refl
mmout-outside mem addr (suc width) val a out =
    let apart : a ≢ addr = λ e. elim out [ inl l ↦ omega arith | inr l ↦ omega arith ] in
    let out' : (a < addr + 1) ⊎ (addr + 1 + width ≤ a) = elim out [
      | inl l ↦ inl (omega arith)
      | inr l ↦ inr (omega arith)
    ] in
    mmout-outside (update mem addr (val % 256)) (addr + 1) width (val / 256) a out' ∙ ground arith

-- A load sees nothing of a store beside it.
pub mmin-mmout-apart :
    (mem : Bytes) (addr width val a w : ℕ)
    → (a + w ≤ addr) ⊎ (addr + width ≤ a)
    → mmin (mmout mem addr width val) a w ≡ mmin mem a w
unfolding mmin
mmin-mmout-apart mem addr width val a zero out = refl
mmin-mmout-apart mem addr width val a (suc w) out =
    let here : (a < addr) ⊎ (addr + width ≤ a) = elim out [
      | inl l ↦ inl (omega arith)
      | inr l ↦ inr (omega arith)
    ] in
    let later : (a + 1 + w ≤ addr) ⊎ (addr + width ≤ a + 1) = elim out [
      | inl l ↦ inl (omega arith)
      | inr l ↦ inr (omega arith)
    ] in
    ap₂ (λ x y. x + 256 * y) (mmout-outside mem addr width val a here)
      (mmin-mmout-apart mem addr width val (a + 1) w later)

-- The lowest bytes of a value.
unfoldable pub low_bytes : (width val : ℕ) → ℕ
low_bytes zero val = 0
low_bytes (suc width) val = val % 256 + 256 * low_bytes width (val / 256)

-- A load of as many bytes at the same place finds the low bytes of the value.
pub mmin-mmout :
    (mem : Bytes) (addr width val : ℕ)
    → mmin (mmout mem addr width val) addr width ≡ low_bytes width val
unfolding mmin mmout low_bytes
mmin-mmout mem addr zero val = refl
mmin-mmout mem addr (suc width) val =
    ap₂ (λ x y. x + 256 * y)
      (mmout-outside (update mem addr (val % 256)) (addr + 1) width (val / 256) addr
          (inl (omega arith))
        ∙ ground arith)
      (mmin-mmout (update mem addr (val % 256)) (addr + 1) width (val / 256))

pub low_bytes-byte : (val : ℕ) → low_bytes 1 val ≡ val % 2 ^ 8
unfolding low_bytes
low_bytes-byte val = omega arith

pub low_bytes-word : (val : ℕ) → low_bytes 2 val ≡ val % 2 ^ 16
unfolding low_bytes
low_bytes-word val = omega arith

pub low_bytes-dword : (val : ℕ) → low_bytes 4 val ≡ val % 2 ^ 32
unfolding low_bytes
low_bytes-dword val = omega arith
