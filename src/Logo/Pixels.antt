-- ===== src/Logo/Pixels.antt =====
-- The picture of Bootloader/src/bmp3.c is the file's, upside down.
use wheatley.Common.{
  ℕ, zero, suc, ◌+◌, ◌-◌, ◌*◌, ◌%◌, ◌^◌, ◌≤◌, ◌<◌, ◌≡◌, refl, ap, ◌∙◌, not, arith, ◌==◌,
}
use native.Mathlib.Decide.{dec_lt}
use mathlib.Core.Path.{subst}
use wheatley.Common.{ok, passed_not, ok_inj}
use wheatley.Pci.Access.{Bytes}
use wheatley.Logo.{
  fuck_int, BltPixel, pixel_at, bmp_idx, copy_row, copy_rows, blt_pixels, bmp3_of, Blt,
  bmp3_display,
}

-- Rows are as long as the pixels need, rounded up to a multiple of 4 bytes.
pub fuck_int-bounds : (x : ℕ) → (fuck_int x % 4 ≡ 0) × (x ≤ fuck_int x) × (fuck_int x < x + 4)
unfolding fuck_int
fuck_int-bounds x = (ground arith, ground arith, ground arith)

module _ (pix_data : ℕ → ℕ) (width height : ℕ) where
  abbrev pixel : (i j : ℕ) → BltPixel
  pixel i j = pixel_at pix_data (bmp_idx width height i j)

  copy_row-other :
      (rounds j i k : ℕ) (buf : ℕ → BltPixel)
      → (k < j * width + i)
      → copy_row pix_data width height j i rounds buf k ≡ buf k
  unfolding copy_row
  copy_row-other zero j i k buf lt = refl
  copy_row-other (suc rounds) j i k buf lt =
      copy_row-other rounds j (i + 1) k _ (omega arith) ∙ ground arith

  copy_row-pixel :
      (rounds j i c : ℕ) (buf : ℕ → BltPixel)
      → i ≤ c
      → c < i + rounds
      → copy_row pix_data width height j i rounds buf (j * width + c) ≡ pixel c j
  unfolding copy_row
  copy_row-pixel zero j i c buf ge lt = absurd (omega arith)
  copy_row-pixel (suc rounds) j i c buf ge lt = elim (dec_lt i c) [
    | yes later ↦ copy_row-pixel rounds j (i + 1) c _ (omega arith) (omega arith)
    | no here ↦
        let e : c ≡ i = omega arith in
        copy_row-other rounds j (i + 1) (j * width + c) _ (omega arith) ∙ rw e (ground arith)
  ]

  copy_rows-other :
      (rounds j k : ℕ) (buf : ℕ → BltPixel)
      → k < j * width
      → copy_rows pix_data width height j rounds buf k ≡ buf k
  unfolding copy_rows
  copy_rows-other zero j k buf lt = refl
  copy_rows-other (suc rounds) j k buf lt =
      copy_rows-other rounds (j + 1) k _ (omega arith)
      ∙ copy_row-other width j 0 k buf (omega arith)

  copy_rows-pixel :
      (rounds j r c : ℕ) (buf : ℕ → BltPixel)
      → j ≤ r
      → r < j + rounds
      → c < width
      → copy_rows pix_data width height j rounds buf (r * width + c) ≡ pixel c r
  unfolding copy_rows
  copy_rows-pixel zero j r c buf ge lt in_row = absurd (omega arith)
  copy_rows-pixel (suc rounds) j r c buf ge lt in_row = elim (dec_lt j r) [
    | yes later ↦ copy_rows-pixel rounds (j + 1) r c _ (omega arith) (omega arith) in_row
    | no here ↦
        let e : r ≡ j = omega arith in
        rw e (
          copy_rows-other rounds (j + 1) (j * width + c) _ (omega arith)
          ∙ copy_row-pixel width j 0 c buf (omega arith) (omega arith))
  ]

  blt_pixels-pixel :
      (buf : ℕ → BltPixel) (r c : ℕ)
      → r < height
      → c < width
      → blt_pixels pix_data width height buf (r * width + c)
        ≡ pixel_at pix_data ((height - 1 - r) * fuck_int (width * 3) + c * 3)
  unfolding blt_pixels bmp_idx
  blt_pixels-pixel buf r c lt in_row =
      let row : height - r - 1 ≡ height - 1 - r = omega arith in
      copy_rows-pixel height 0 r c buf (omega arith) (omega arith) in_row
      ∙ ap (λ x. pixel_at pix_data (x * fuck_int (width * 3) + c * 3)) row

-- What is drawn, of a file with this header, on a screen of this size.
pub record Shown (file : Bytes) (horizontal_resolution vertical_resolution : ℕ) (blt : Blt)
    : Type 0 where
  pub of_24_bits : ((bmp3_of file).type ≡ 0x4d42) × ((bmp3_of file).bit_count ≡ 24)
  pub sizes : (blt.width ≡ (bmp3_of file).width) × (blt.height ≡ (bmp3_of file).height)
  pub corner :
      (blt.x_off + blt.width ≡ horizontal_resolution)
      × (blt.y_off + blt.height ≡ vertical_resolution)
  pub pixels :
      (r c : ℕ)
      → r < blt.height
      → c < blt.width
      → blt.pixels (r * blt.width + c)
        ≡ pixel_at (λ i. file (0x36 + i)) ((blt.height - 1 - r) * fuck_int (blt.width * 3) + c * 3)

-- When `bmp3_display` comes to the drawing, the file is a bitmap of 24 bits a pixel. If it is no larger than
-- the screen, of fewer than 2^31 columns and rows, and its pixels take less than 2 GB, in the file and drawn,
-- it is drawn in the lower right corner; and each pixel of
-- what is drawn is the one in its column of the file's row counted from the end, rows being a multiple
-- of 4 bytes long, with its three colours.
pub bmp3_display-Shown :
    (file : Bytes) (horizontal_resolution vertical_resolution : ℕ) (buf : ℕ → BltPixel) (blt : Blt)
    → bmp3_display file horizontal_resolution vertical_resolution buf ≡ ok blt
    → (bmp3_of file).width ≤ horizontal_resolution
    → (bmp3_of file).height ≤ vertical_resolution
    → horizontal_resolution < 2 ^ 31
    → vertical_resolution < 2 ^ 31
    → fuck_int ((bmp3_of file).width * 3) * (bmp3_of file).height < 2 ^ 31
    → (bmp3_of file).width * (bmp3_of file).height * 4 < 2 ^ 31
    → Shown file horizontal_resolution vertical_resolution blt
unfolding bmp3_display
bmp3_display-Shown file sw sh buf blt e wide high sw32 sh32 in_file in_blt =
    let hdr = bmp3_of file in
    let (g1, e1) = passed_not (not (hdr.type == 0x4d42)) _ _ blt e (λ q. cc q) in
    let (g2, e2) = passed_not (not (hdr.off_bits == 0x36)) _ _ blt e1 (λ q. cc q) in
    let (g3, e3) = passed_not (not (hdr.bit_count == 24)) _ _ blt e2 (λ q. cc q) in
    let at : hdr.off_bits ≡ 0x36 = ground arith in
    subst (Shown file sw sh) (ok_inj _ blt e3) (record {
      of_24_bits = (ground arith, ground arith);
      sizes = (refl, refl);
      corner = (omega (arith, wide, sw32), omega (arith, high, sh32));
      pixels = λ r c lt in_row.
          blt_pixels-pixel (λ i. file (hdr.off_bits + i)) hdr.width hdr.height buf r c lt in_row
          ∙ ap
              (λ o.
                pixel_at (λ i. file (o + i))
                  ((hdr.height - 1 - r) * fuck_int (hdr.width * 3) + c * 3))
              at;
    })
