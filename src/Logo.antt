-- ===== src/Logo.antt =====
-- Bootloader/src/bmp3.c: the logo, a bitmap of 24 bits a pixel, as it is put on the screen.
--
-- The file is memory by the byte. Sizes are those of an image whose
-- indices are in 31 bits.
mod Pixels
mod Tests
use wheatley.Common.{Result, ok, failed_assertion}
use wheatley.Pci.Access.{Bytes, mmin}
use wheatley.Common.{◌^◌, not, ℕ, zero, suc, ◌+◌, ◌-◌, ◌*◌, ◌%◌, ◌==◌, if◌then◌else◌, update}

-- `fuckInt`: the length of a row in the file, in bytes.
pub fuck_int : ℕ → ℕ
fuck_int x = if x % 4 == 0 then x else x + (4 - x % 4)

-- `EFI_GRAPHICS_OUTPUT_BLT_PIXEL`
pub record BltPixel : Type 0 where
  pub red : ℕ
  pub green : ℕ
  pub blue : ℕ

-- `rgb_t` at an index: blue, green, red.
pub pixel_at : (pix_data : ℕ → ℕ) → (bmp_idx : ℕ) → BltPixel
pixel_at pix_data bmp_idx = record {
  red = pix_data (bmp_idx + 2);
  green = pix_data (bmp_idx + 1);
  blue = pix_data bmp_idx;
}

pub bmp_idx : (width height i j : ℕ) → ℕ
bmp_idx width height i j = (height - j - 1) * fuck_int (width * 3) + i * 3

-- The inner loop, from column `i` on.
pub copy_row : (pix_data : ℕ → ℕ) → (width height j i rounds : ℕ) → (ℕ → BltPixel) → ℕ → BltPixel
copy_row pix_data width height j i zero blt_buf = blt_buf
copy_row pix_data width height j i (suc rounds) blt_buf =
    copy_row pix_data width height j (i + 1) rounds
      (update blt_buf (j * width + i) (pixel_at pix_data (bmp_idx width height i j)))

pub copy_rows : (pix_data : ℕ → ℕ) → (width height j rounds : ℕ) → (ℕ → BltPixel) → ℕ → BltPixel
copy_rows pix_data width height j zero blt_buf = blt_buf
copy_rows pix_data width height j (suc rounds) blt_buf =
    copy_rows pix_data width height (j + 1) rounds
      (copy_row pix_data width height j 0 width blt_buf)

-- The buffer, filled.
pub blt_pixels : (pix_data : ℕ → ℕ) → (width height : ℕ) → (ℕ → BltPixel) → ℕ → BltPixel
blt_pixels pix_data width height blt_buf = copy_rows pix_data width height 0 height blt_buf

-- `bmp3_fhdr_t` and behind it `bmp3_ihdr_t`: the fields that are read.
pub record Bmp3 : Type 0 where
  pub type : ℕ  -- uint16_t
  pub off_bits : ℕ  -- uint32_t
  pub width : ℕ  -- int32_t
  pub height : ℕ  -- int32_t
  pub bit_count : ℕ  -- uint16_t

unfoldable pub bmp3_of : Bytes → Bmp3
bmp3_of file = record {
  type = mmin file 0 2;
  off_bits = mmin file 10 4;
  width = mmin file 18 4;
  height = mmin file 22 4;
  bit_count = mmin file 28 2;
}

-- What the firmware is asked to draw, and where.
pub record Blt : Type 0 where
  pub pixels : ℕ → BltPixel
  pub x_off : ℕ  -- uint32_t
  pub y_off : ℕ  -- uint32_t
  pub width : ℕ
  pub height : ℕ

-- `file` are the bytes from `_binary_logo_bmp_start` on, `blt_buf` the buffer that is allocated.
unfoldable pub bmp3_display :
    (file : Bytes)
    → (horizontal_resolution vertical_resolution : ℕ) → (blt_buf : ℕ → BltPixel) → Result Blt
bmp3_display file horizontal_resolution vertical_resolution blt_buf =
    let hdr = bmp3_of file in
    if not (hdr.type == 0x4d42)
    then failed_assertion
    else if not (hdr.off_bits == 0x36)
    then failed_assertion
    else if not (hdr.bit_count == 24)
    then failed_assertion
    else ok (record {
      pixels = blt_pixels (λ i. file (hdr.off_bits + i)) hdr.width hdr.height blt_buf;
      x_off = (horizontal_resolution + 2 ^ 32 - hdr.width) % 2 ^ 32;
      y_off = (vertical_resolution + 2 ^ 32 - hdr.height) % 2 ^ 32;
      width = hdr.width;
      height = hdr.height;
    })
