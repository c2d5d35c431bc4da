-- ===== src/Screen/Efi.antt =====
-- Kernel/src/drivers/fb/efifb.c is a frame buffer driver: the copy that is read back never differs
-- from what is shown.
use wheatley.Common.{ℕ, zero, suc, ◌+◌, ◌*◌, ◌%◌, ◌^◌, ◌≡◌, refl, ap, ◌∙◌, sym, arith, update, fill}
use wheatley.Screen.{
  Buffer, FbDriver, EfiFb, copy_pixels, efifb_setpixel, efifb_readpixels, efifb_memcpy,
  efifb_pixset,
}

abbrev pub InStep : EfiFb → Type 0
InStep s = s.fb_buffer ≡ s.double_buf

pub efifb_pixset-fill :
    (count : ℕ) (s : EfiFb) (color offset i : ℕ)
    → (efifb_pixset s color offset count).fb_buffer i ≡ fill s.fb_buffer offset count color i
unfolding efifb_pixset
efifb_pixset-fill zero s color offset i = ground arith
efifb_pixset-fill (suc count) s color offset i =
    efifb_pixset-fill count _ color (offset + 1) i ∙ ground arith

pub efifb_pixset-InStep :
    (count : ℕ) (s : EfiFb) (color offset : ℕ)
    → InStep s
    → InStep (efifb_pixset s color offset count)
unfolding efifb_pixset
efifb_pixset-InStep zero s color offset e = e
efifb_pixset-InStep (suc count) s color offset e =
    efifb_pixset-InStep count _ color (offset + 1) (ap (λ b. update b offset color) e)

pub efifb_setpixel-InStep :
    (s : EfiFb) (x y pixel : ℕ) → InStep s → InStep (efifb_setpixel s x y pixel)
unfolding efifb_setpixel
efifb_setpixel-InStep s x y pixel e =
    ap (λ b. update b ((y * s.pixels_per_scan_line + x) % 2 ^ 32) pixel) e

pub efifb_readpixels-shown :
    (s : EfiFb) (buf : Buffer) (offset count i : ℕ)
    → InStep s
    → efifb_readpixels s buf offset count i
      ≡ copy_pixels buf 0 (λ k. s.fb_buffer (offset + k)) count i
unfolding efifb_readpixels
efifb_readpixels-shown s buf offset count i e =
    ap (λ b. copy_pixels buf 0 (λ k. b (offset + k)) count i) (sym e)

pub efifb_memcpy-shown :
    (s : EfiFb) (buf : Buffer) (offset count i : ℕ)
    → (efifb_memcpy s buf offset count).fb_buffer i ≡ copy_pixels s.fb_buffer offset buf count i
unfolding efifb_memcpy
efifb_memcpy-shown s buf offset count i = refl

pub efifb_memcpy-InStep :
    (s : EfiFb) (buf : Buffer) (offset count : ℕ)
    → InStep s
    → InStep (efifb_memcpy s buf offset count)
unfolding efifb_memcpy
efifb_memcpy-InStep s buf offset count e = ap (λ b. copy_pixels b offset buf count) e

abbrev pub efifb : FbDriver
efifb = record {
  Screen = EfiFb;
  setpixel = efifb_setpixel;
  readpixels = efifb_readpixels;
  memcpy = efifb_memcpy;
  pixset = efifb_pixset;
  shown = λ s. s.fb_buffer;
  InStep = InStep;
  setpixel-InStep = efifb_setpixel-InStep;
  readpixels_lem = efifb_readpixels-shown;
  memcpy_lem = efifb_memcpy-shown;
  memcpy-InStep = efifb_memcpy-InStep;
  pixset_lem = λ s color offset count. efifb_pixset-fill count s color offset;
  pixset-InStep = λ s color offset count. efifb_pixset-InStep count s color offset;
}
