-- ===== src/Logo/Tests.antt =====
-- The picture of Bootloader/src/bmp3.c at an image of three pixels by two.
use wheatley.Common.{ℕ, ◌+◌, ◌*◌, ◌≡◌, refl, [], ◌∷◌, get_or, arith}
use wheatley.Common.{ok}
use wheatley.Pci.Access.{Bytes, mmin}
use wheatley.Logo.{fuck_int, BltPixel, Blt, bmp3_of, bmp3_display, blt_pixels}
use wheatley.Logo.Pixels.{Shown, bmp3_display-Shown}

abbrev blank : ℕ → BltPixel
blank _ = record { red = 0; green = 0; blue = 0 }

-- Rows of nine bytes take twelve.
padded : fuck_int 9 ≡ 12
unfolding fuck_int
padded = refl

-- The header; every byte of the pixels is 7.
abbrev file : Bytes
file i =
    get_or
      (0x42 ∷ 0x4d ∷ 78 ∷ 0 ∷ 0 ∷ 0 ∷ 0 ∷ 0 ∷ 0 ∷ 0 ∷ 0x36 ∷ 0 ∷ 0 ∷ 0 ∷ 40 ∷ 0 ∷ 0 ∷ 0 ∷ 3 ∷ 0 ∷ 0
        ∷ 0 ∷ 2 ∷ 0 ∷ 0 ∷ 0 ∷ 1 ∷ 0 ∷ 24 ∷ 0 ∷ [])
      i 7

abbrev shown : Blt
shown = record {
  pixels = blt_pixels (λ i. file (0x36 + i)) 3 2 blank;
  x_off = 1021;
  y_off = 766;
  width = 3;
  height = 2;
}

displays : bmp3_display file 1024 768 blank ≡ ok shown
unfolding bmp3_display bmp3_of mmin
displays = refl

width-file : (bmp3_of file).width ≡ 3
unfolding bmp3_of mmin
width-file = refl

height-file : (bmp3_of file).height ≡ 2
unfolding bmp3_of mmin
height-file = refl

file_rows : fuck_int ((bmp3_of file).width * 3) * (bmp3_of file).height ≡ 24
unfolding bmp3_of mmin fuck_int
file_rows = refl

drawn : (bmp3_of file).width * (bmp3_of file).height * 4 ≡ 24
unfolding bmp3_of mmin
drawn = refl

bmp3_display-Shown_example : Shown file 1024 768 shown
bmp3_display-Shown_example =
    bmp3_display-Shown file 1024 768 blank shown displays (omega (arith, width-file))
      (omega (arith, height-file)) (omega arith) (omega arith) (omega (arith, file_rows))
      (omega (arith, drawn))
