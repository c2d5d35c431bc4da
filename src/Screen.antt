-- ===== src/Screen.antt =====
-- Kernel/src/drivers/fb/efifb.c and Kernel/src/drivers/tty/fbtty.c: the screen, and the terminal on
-- it.
--
-- The terminal draws through an `FbDriver`, the source's `fb_driver_t` with what its functions do to
-- the pixels shown; Screen/Efi fills it. Buffers are read by the pixel, and `count` is in bytes, a
-- multiple of four at every call. Calls run one at a time, as their locks make them.
mod Efi
mod Cursor
mod Scroll
mod Startup
mod Tests
use wheatley.Common.{
  ℕ, zero, suc, ◌+◌, ◌-◌, ◌*◌, ◌/◌, ◌%◌, ◌^◌, ◌≤◌, ◌<◌, ◌≡◌, Bool, true, false, ◌&&◌, bit, leb, ltb,
  ◌==◌, if◌then◌else◌, update, fill,
}

abbrev pub Buffer : Type 0
Buffer = ℕ → ℕ

-- `memcpy(dst, src, count)` of pixels, `src` read from its start on.
abbrev pub copy_pixels : Buffer → (start : ℕ) → Buffer → (count : ℕ) → Buffer
copy_pixels dst start src count i =
    if leb start i && ltb i (start + count / 4) then src (i - start) else dst i

-- `fb_driver_t`, with what is shown on the screen. `InStep` is what the driver keeps true.
pub record FbDriver : Type 1 where
  pub Screen : Type 0
  pub setpixel : Screen → (x y pixel : ℕ) → Screen
  pub readpixels : Screen → Buffer → (offset count : ℕ) → Buffer
  pub memcpy : Screen → Buffer → (offset count : ℕ) → Screen
  pub pixset : Screen → (color offset count : ℕ) → Screen
  pub shown : Screen → Buffer
  pub InStep : Screen → Type 0
  pub setpixel-InStep : (s : Screen) (x y pixel : ℕ) → InStep s → InStep (setpixel s x y pixel)
  pub readpixels_lem :
      (s : Screen) (buf : Buffer) (offset count i : ℕ)
      → InStep s
      → readpixels s buf offset count i ≡ copy_pixels buf 0 (λ k. shown s (offset + k)) count i
  pub memcpy_lem :
      (s : Screen) (buf : Buffer) (offset count i : ℕ)
      → shown (memcpy s buf offset count) i ≡ copy_pixels (shown s) offset buf count i
  pub memcpy-InStep :
      (s : Screen) (buf : Buffer) (offset count : ℕ) → InStep s → InStep (memcpy s buf offset count)
  pub pixset_lem :
      (s : Screen) (color offset count i : ℕ)
      → shown (pixset s color offset count) i ≡ fill (shown s) offset count color i
  pub pixset-InStep :
      (s : Screen) (color offset count : ℕ) → InStep s → InStep (pixset s color offset count)

-- The frame buffer of the hand-over, and the copy that is read back.
pub record EfiFb : Type 0 where
  pub fb_buffer : Buffer
  pub double_buf : Buffer
  pub pixels_per_scan_line : ℕ  -- uint32_t

pub efifb_setpixel : EfiFb → (x y pixel : ℕ) → EfiFb
efifb_setpixel s x y pixel =
    let idx = (y * s.pixels_per_scan_line + x) % 2 ^ 32 in
    record s {
      fb_buffer = update s.fb_buffer idx pixel;
      double_buf = update s.double_buf idx pixel;
    }

pub efifb_readpixels : EfiFb → Buffer → (offset count : ℕ) → Buffer
efifb_readpixels s buf offset count = copy_pixels buf 0 (λ k. s.double_buf (offset + k)) count

pub efifb_memcpy : EfiFb → Buffer → (offset count : ℕ) → EfiFb
efifb_memcpy s buf offset count = record s {
  fb_buffer = copy_pixels s.fb_buffer offset buf count;
  double_buf = copy_pixels s.double_buf offset buf count;
}

-- `while (count--)`
pub efifb_pixset : EfiFb → (color offset count : ℕ) → EfiFb
efifb_pixset s color offset zero = s
efifb_pixset s color offset (suc count) =
    efifb_pixset
      (record s {
        fb_buffer = update s.fb_buffer offset color;
        double_buf = update s.double_buf offset color;
      })
      color (offset + 1) count

abbrev pub bg_color : ℕ
bg_color = 0x180a0a

abbrev pub fg_color : ℕ
fg_color = 0xf49445

-- `psf_font_t`, with the bytes from its start on.
pub record PsfFont : Type 0 where
  pub headersize : ℕ  -- uint32_t
  pub bytesperglyph : ℕ  -- uint32_t
  pub height : ℕ  -- uint32_t
  pub width : ℕ  -- uint32_t
  pub bytes : ℕ → ℕ

module _ (F : FbDriver) where
  open F use {Screen, setpixel, readpixels, memcpy, pixset}

  -- The variables of fbtty.c.
  pub record Terminal : Type 0 where
    pub screen : Screen
    pub font : PsfFont
    pub cx : ℕ
    pub cy : ℕ
    pub fbw : ℕ
    pub fbh : ℕ
    pub scrollback_buf : Buffer

  -- The code at `check_space` under its test. From line 0 the source's `_fbtty_cy--` goes to -1, which
  -- is 0 here.
  pub scroll : Terminal → Terminal
  scroll t =
      let offset = t.fbw * t.font.height % 2 ^ 32 in
      let count = t.fbw * ((t.fbh + 2 ^ 32 - t.font.height) % 2 ^ 32) * 4 % 2 ^ 32 in
      let buf = readpixels t.screen t.scrollback_buf offset count in
      record t {
        screen = pixset (memcpy t.screen buf 0 count) bg_color (count / 4) offset;
        scrollback_buf = buf;
        cy = t.cy - 1;
      }

  pub check_space : Terminal → Terminal
  check_space t = if leb t.fbh ((t.cy + 1) * t.font.height % 2 ^ 32) then scroll t else t

  -- A `char` is signed, and its product with the glyph's size is in 32 bits.
  pub glyph_offset : PsfFont → (c : ℕ) → ℕ
  glyph_offset font c =
      ((if ltb c 128 then c else c + 2 ^ 32 - 256) * font.bytesperglyph + font.headersize) % 2 ^ 32

  -- `shifted`, for `j` up to 7.
  pub shifted : (i j : ℕ) → Bool
  shifted i j = bit i (7 - j) == 1

  pub draw_row : Screen → (glyph real_x y i rounds : ℕ) → Screen
  draw_row s glyph real_x y i zero = s
  draw_row s glyph real_x y i (suc rounds) =
      draw_row (if shifted glyph i then setpixel s (real_x + i) y fg_color else s) glyph real_x y
        (i + 1) rounds

  pub draw_glyph : Screen → PsfFont → (offset real_x real_y j rounds : ℕ) → Screen
  draw_glyph s font offset real_x real_y j zero = s
  draw_glyph s font offset real_x real_y j (suc rounds) =
      draw_glyph (draw_row s (font.bytes (offset + j)) real_x (real_y + j) 0 font.width) font offset
        real_x real_y (j + 1) rounds

  -- The cursor moves on behind a character.
  pub advance : Terminal → Terminal
  advance t =
      if leb t.fbw ((t.cx + 1 + 1) * t.font.width % 2 ^ 32)
      then record t { cy = t.cy + 1; cx = 0 }
      else record t { cx = t.cx + 1 }

  pub fbtty_putchar : Terminal → (c : ℕ) → Terminal
  fbtty_putchar t c =
      let real_x = t.cx * t.font.width % 2 ^ 32 in
      let real_y = t.cy * t.font.height % 2 ^ 32 in
      if c == 10
      then check_space (record t { cy = t.cy + 1; cx = 0 })
      else check_space (
          advance (record t {
            screen =
                draw_glyph t.screen t.font (glyph_offset t.font c) real_x real_y 0 t.font.height;
          }))
