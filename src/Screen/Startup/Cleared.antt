-- ===== src/Screen/Startup/Cleared.antt =====
-- What `efifb_module_init` of Kernel/src/drivers/fb/efifb.c leaves on the screen.
use wheatley.Common.{
  ℕ, zero, suc, ◌+◌, ◌*◌, ◌^◌, ◌≤◌, ◌<◌, ◌≡◌, sym, ap, ◌∙◌, not, arith, ◌==◌, update, fill,
}
use wheatley.Common.{Result, ok, and_then-ok, passed_not, ok_inj, needed}
use wheatley.Registry.{Drivers, register_driver}
use wheatley.Screen.{Buffer, EfiFb}
use wheatley.Screen.Startup.{FbInfo, Handoff, clear_pixels, efifb_module_init}

clear_pixels-fill :
    (rounds : ℕ) (buffer : Buffer) (idx i : ℕ)
    → clear_pixels buffer idx rounds i ≡ fill buffer idx rounds 0 i
unfolding clear_pixels
clear_pixels-fill zero buffer idx i = ground arith
clear_pixels-fill (suc rounds) buffer idx i =
    clear_pixels-fill rounds (update buffer idx 0) (idx + 1) i ∙ ground arith

-- The screen and its copy after the call. The pixels cleared are as many as a square of the width has.
pub record Cleared (h : Handoff) (shown : Buffer) (info : FbInfo) (fb : EfiFb) : Type 0 where
  pub lines : h.fb_pixels_per_scan_line ≡ h.fb_width
  pub width : info.width ≡ h.fb_width
  pub height : info.height ≡ h.fb_height
  pub black : (i : ℕ) → i < h.fb_width * h.fb_width → fb.fb_buffer i ≡ 0
  pub rest : (i : ℕ) → h.fb_width * h.fb_width ≤ i → fb.fb_buffer i ≡ shown i
  pub copy : (i : ℕ) → i < h.fb_width * h.fb_height → fb.double_buf i ≡ 0

module _ {World : Type 0} (map_page : ℕ → World → World) (kmalloc : ℕ → World → Result (ℕ × World))
    {Driver : Type 0} (driver : Driver) (h : Handoff) (shown memory : Buffer) where
  -- `efifb_module_init` returns only for lines without padding. Of a screen whose lines by its width, and
  -- whose width by its height, are less than 2 GB of pixels, the width and the height are those of
  -- the hand-over; the copy is black for the whole screen, but of the screen itself as many pixels as a
  -- square of its width has are black, and every pixel behind them is as it was.
  pub efifb_module_init-Cleared :
      (drivers drivers' : Drivers Driver) (w w' : World) (info : FbInfo) (fb : EfiFb)
      → efifb_module_init map_page kmalloc driver h shown memory drivers w
        ≡ ok (info, fb, drivers', w')
      → h.fb_pixels_per_scan_line * h.fb_width * 4 + 4095 < 2 ^ 31
      → h.fb_width * h.fb_height * 4 < 2 ^ 31
      → Cleared h shown info fb
  unfolding efifb_module_init
  efifb_module_init-Cleared drivers drivers' w w' info fb e fits fits' =
      let (plain, e1) =
        passed_not (not (h.fb_pixels_per_scan_line == h.fb_width)) _ _ _ e (λ q. cc q) in
      let ((double_buf, w2), e2, e3) =
        and_then-ok (kmalloc (h.fb_width * h.fb_height * 4) _) _ _ e1 in
      let ((ret, drivers2), there, e4) =
        needed (register_driver drivers driver) _ _ _ e3 (λ q. cc q) in
      let same = ok_inj _ _ e4 in
      let lines : h.fb_pixels_per_scan_line ≡ h.fb_width = ground arith in
      let pixels : h.fb_pixels_per_scan_line * h.fb_width ≡ h.fb_width * h.fb_width =
        ap (λ x. x * h.fb_width) lines in
      let at : (i : ℕ) → fb.fb_buffer i ≡ fill shown 0 (h.fb_width * h.fb_width) 0 i = λ i.
        sym (ap (λ x. x.1.fb_buffer i) same)
        ∙ clear_pixels-fill (h.fb_pixels_per_scan_line * h.fb_width) shown 0 i
        ∙ ap (λ n. fill shown 0 n 0 i) pixels in
      record {
        lines = lines;
        width = sym (ap (λ x. x.0.width) same);
        height = sym (ap (λ x. x.0.height) same);
        black = λ i lt. at i ∙ ground arith;
        rest = λ i le. at i ∙ ground arith;
        copy = λ i lt. sym (ap (λ x. x.1.double_buf i) same) ∙ ground arith;
      }
