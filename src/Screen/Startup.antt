-- ===== src/Screen/Startup.antt =====
-- `efifb_module_init` of Kernel/src/drivers/fb/efifb.c and `fbtty_module_init` of
-- Kernel/src/drivers/tty/fbtty.c: the frame buffer is mapped, cleared and registered, and the terminal
-- is put on it.
--
-- `vmm_map_page`, of an address onto itself, and `kmalloc` are parameters, over a state of the machine
-- of any type. Sizes are of type `int` or `uint32_t` in the source; they are the numbers used here up
-- to 2^31.
pub mod Cleared
use wheatley.Common.{
  ℕ, zero, suc, ◌+◌, ◌-◌, ◌*◌, ◌/◌, ◌%◌, ◌^◌, ◌≤◌, ◌<◌, min, max, bit_and, bit_or, bit_xor, ◌≡◌,
  refl, sym, ap, ap₂, ◌∙◌, fun_ext, ◌≢◌, ◌↔◌, ◌⊎◌, inl, inr, Bool, true, false, not, ◌&&◌, ◌||◌,
  Option, none, some, List, [], ◌∷◌, ◌++◌, map, arith, ltb, leb, ◌==◌, if◌then◌else◌, ltb→lt,
  lt→ltb, ==_iff, ==_refl, Bool-cases, Option-cases, length, get_elem?, get_or, length-append,
  update, fill, shr, bit, complement, bit-or, bit-and, bit-lt, bit-two-pow, bit-complement,
  bit_or-lt, bit_and-le, bit_and-low, bit_and-up, bit_and-one, two-pow-lt, bit_and_digit, ℤ, pos,
  negsuc, bit_or_digit, bit-zero, bit-suc,
}
use wheatley.Common.{Result, ok, failed_assertion, fault, and_then}
use wheatley.Registry.{Drivers, Found, outside, value, register_driver, fb_get_driver}
use wheatley.Screen.{Buffer, EfiFb, Terminal, PsfFont, FbDriver, bg_color}

-- `fb_info_t`
pub record FbInfo : Type 0 where
  pub width : ℕ
  pub height : ℕ

-- The fields of the hand-over.
pub record Handoff : Type 0 where
  pub fb_address : ℕ  -- `fb_buffer`
  pub fb_width : ℕ  -- uint16_t
  pub fb_height : ℕ  -- uint16_t
  pub fb_pixels_per_scan_line : ℕ  -- uint32_t

-- The loop over the pixels, from `idx` on.
unfoldable pub clear_pixels : Buffer → (idx rounds : ℕ) → Buffer
clear_pixels buffer idx zero = buffer
clear_pixels buffer idx (suc rounds) = clear_pixels (update buffer idx 0) (idx + 1) rounds

module _ {World : Type 0} (map_page : ℕ → World → World)
    (kmalloc : ℕ → World → Result (ℕ × World)) where
  -- The loop that maps the buffer, from its page `i` on.
  unfoldable pub map_buffer : (address i rounds : ℕ) → World → World
  map_buffer address i zero w = w
  map_buffer address i (suc rounds) w =
      map_buffer address (i + 1) rounds (map_page (address + i * 4096) w)

  -- The information, the screen, and the registered drivers.
  unfoldable pub efifb_module_init :
      {Driver : Type 0}
      → (efifb_driver : Driver) → Handoff
      → (shown : Buffer) → (memory : Buffer) → Drivers Driver
      → World
      → Result (FbInfo × EfiFb × Drivers Driver × World)
  efifb_module_init efifb_driver h shown memory drivers w =
      if not (h.fb_pixels_per_scan_line == h.fb_width)
      then failed_assertion
      else let pixels = h.fb_pixels_per_scan_line * h.fb_width in
        let w1 = map_buffer h.fb_address 0 ((pixels * 4 + 4095) / 4096) w in
        and_then (kmalloc (h.fb_width * h.fb_height * 4) w1) λ (double_buf, w2).
          elim (register_driver drivers efifb_driver) [
            | none ↦ fault
            | some (ret, drivers') ↦ ok (
              record { width = h.fb_width; height = h.fb_height },
              record {
                fb_buffer = clear_pixels shown 0 pixels;
                double_buf = fill memory 0 (h.fb_width * h.fb_height) 0;
                pixels_per_scan_line = h.fb_pixels_per_scan_line;
              },
              drivers',
              w2,
            )
          ]

  -- `PSF_FONT_MAGIC`
  abbrev pub psf_font_magic : ℕ
  psf_font_magic = 0x864ab572

  -- How `fbtty_module_init` ends: without a terminal, for the font or the frame buffer, or with one.
  pub data Attached (F : FbDriver) (Driver : Type 0) : Type 0 where
    bad_font : Attached F Driver
    no_fb : Attached F Driver
    attached : Terminal F → Drivers Driver → Attached F Driver

  -- The cursor's variables start at 0. The frame buffers are registered with their information.
  unfoldable pub fbtty_module_init :
      (F : FbDriver) {Driver : Type 0}
      → (magic : ℕ) → PsfFont
      → (fb_drivers : Drivers FbInfo) → FbDriver.Screen F
      → (fbtty_driver : Driver) → (tty_drivers : Drivers Driver) → (memory : Buffer) → World
      → Result (Attached F Driver × World)
  fbtty_module_init F magic font fb_drivers screen fbtty_driver tty_drivers memory w =
      if not (magic == psf_font_magic)
      then ok (bad_font, w)
      else elim (fb_get_driver fb_drivers (pos 0)) [
        | outside ↦ fault
        | value none ↦ ok (no_fb, w)
        | value (some info) ↦
            and_then
              (kmalloc (info.width * ((info.height + 2 ^ 32 - font.height) % 2 ^ 32) * 4 % 2 ^ 32)
                w)
              λ (scrollback_buf, w1). elim (register_driver tty_drivers fbtty_driver) [
                | none ↦ fault
                | some (ret, tty_drivers') ↦
                    let t : Terminal F = record {
                      screen = FbDriver.pixset F screen bg_color 0 (info.width * info.height);
                      font = font;
                      cx = 0;
                      cy = 0;
                      fbw = info.width;
                      fbh = info.height;
                      scrollback_buf = memory;
                    } in
                    ok (attached t tty_drivers', w1)
              ]
      ]
