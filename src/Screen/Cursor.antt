-- ===== src/Screen/Cursor.antt =====
-- The cursor of Kernel/src/drivers/tty/fbtty.c stays on the screen, whatever is printed.
use wheatley.Common.{
  ℕ, zero, suc, ◌+◌, ◌-◌, ◌*◌, ◌%◌, ◌^◌, ◌<◌, ◌≡◌, arith, leb, ◌==◌, if◌then◌else◌, Bool, true,
  false, Bool-cases, inl, inr,
}
use wheatley.Screen.{
  FbDriver, PsfFont, Terminal, scroll, check_space, shifted, draw_row, draw_glyph, advance,
  fg_color, fbtty_putchar,
}

line_above : (cy height fbh : ℕ) → cy * height < fbh → height < fbh → (cy - 1 + 1) * height < fbh
line_above zero height fbh lt first = omega arith
line_above (suc cy) height fbh lt first = let e : suc cy - 1 + 1 ≡ suc cy = omega arith in rw e lt

module _ (F : FbDriver) where
  open F use {Screen, InStep}

  -- A glyph at the cursor ends before the right and the lower edge; sizes are 16 bits wide.
  pub record IsInside (t : Terminal F) : Type 0 where
    pub column : (t.cx + 1) * t.font.width < t.fbw
    pub line : (t.cy + 1) * t.font.height < t.fbh
    pub wide : t.fbw < 2 ^ 16
    pub tall : t.fbh < 2 ^ 16
    pub in_step : InStep t.screen

  -- As it is before `check_space`: the cursor may be one line too low.
  record IsAlmost (t : Terminal F) : Type 0 where
    column : (t.cx + 1) * t.font.width < t.fbw
    line : t.cy * t.font.height < t.fbh
    first : t.font.height < t.fbh
    wide : t.fbw < 2 ^ 16
    tall : t.fbh < 2 ^ 16
    in_step : InStep t.screen

  check_space-IsInside : (t : Terminal F) → IsAlmost t → IsInside (check_space F t)
  unfolding check_space scroll
  check_space-IsInside t a =
      let wide = a.wide in
      let tall = a.tall in
      let first = a.first in
      let line = a.line in
      let flat : (t.cy + 1) * t.font.height % 2 ^ 32 ≡ (t.cy + 1) * t.font.height = omega arith in
      elim (Bool-cases (leb t.fbh ((t.cy + 1) * t.font.height % 2 ^ 32))) [
        | inl on ↦ rw on (record {
          column = a.column;
          line = line_above t.cy _ _ line first;
          wide = a.wide;
          tall = a.tall;
          in_step = F.pixset-InStep _ _ _ _ (F.memcpy-InStep _ _ _ _ a.in_step);
        })
        | inr off ↦ rw off (record {
          column = a.column;
          line = ground arith;
          wide = a.wide;
          tall = a.tall;
          in_step = a.in_step;
        })
      ]

  setpixel_if-InStep :
      (set : Bool) (s : Screen) (x y pixel : ℕ)
      → InStep s
      → InStep (if set then F.setpixel s x y pixel else s)
  setpixel_if-InStep true s x y pixel ok = F.setpixel-InStep s x y pixel ok
  setpixel_if-InStep false s x y pixel ok = ok

  draw_row-InStep :
      (rounds : ℕ) (s : Screen) (glyph real_x y i : ℕ)
      → InStep s
      → InStep (draw_row F s glyph real_x y i rounds)
  unfolding draw_row
  draw_row-InStep zero s glyph real_x y i ok = ok
  draw_row-InStep (suc rounds) s glyph real_x y i ok =
      draw_row-InStep rounds _ glyph real_x y (i + 1)
        (setpixel_if-InStep (shifted F glyph i) s (real_x + i) y fg_color ok)

  draw_glyph-InStep :
      (rounds : ℕ) (s : Screen) (font : PsfFont) (offset real_x real_y j : ℕ)
      → InStep s
      → InStep (draw_glyph F s font offset real_x real_y j rounds)
  unfolding draw_glyph
  draw_glyph-InStep zero s font offset real_x real_y j ok = ok
  draw_glyph-InStep (suc rounds) s font offset real_x real_y j ok =
      draw_glyph-InStep rounds _ font offset real_x real_y (j + 1)
        (draw_row-InStep font.width s _ real_x _ 0 ok)

  advance-IsAlmost : (t : Terminal F) → IsInside t → IsAlmost (advance F t)
  unfolding advance
  advance-IsAlmost t a =
      let column = a.column in
      let line = a.line in
      let wide = a.wide in
      let flat : (t.cx + 1 + 1) * t.font.width % 2 ^ 32 ≡ (t.cx + 1 + 1) * t.font.width =
        omega arith in
      elim (Bool-cases (leb t.fbw ((t.cx + 1 + 1) * t.font.width % 2 ^ 32))) [
        | inl on ↦ rw on (record {
          column = omega arith;
          line = line;
          first = omega arith;
          wide = wide;
          tall = a.tall;
          in_step = a.in_step;
        })
        | inr off ↦ rw off (record {
          column = ground arith;
          line = omega arith;
          first = omega arith;
          wide = wide;
          tall = a.tall;
          in_step = a.in_step;
        })
      ]

  new_line : (t : Terminal F) → IsInside t → IsAlmost (record t { cy = t.cy + 1; cx = 0 })
  new_line t a =
      let column = a.column in
      let line = a.line in
      record {
        column = omega arith;
        line = line;
        first = omega arith;
        wide = a.wide;
        tall = a.tall;
        in_step = a.in_step;
      }

  -- Printing any character with the cursor inside the screen leaves it inside, one glyph of room to
  -- the right and below, and the driver's copy in step.
  pub fbtty_putchar-IsInside :
      (t : Terminal F) (c : ℕ) → IsInside t → IsInside (fbtty_putchar F t c)
  unfolding fbtty_putchar
  fbtty_putchar-IsInside t c a = elim (Bool-cases (c == 10)) [
    | inl on ↦ rw on (check_space-IsInside _ (new_line t a))
    | inr off ↦ rw off (
        check_space-IsInside _ (
          advance-IsAlmost _ (record {
            column = a.column;
            line = a.line;
            wide = a.wide;
            tall = a.tall;
            in_step = draw_glyph-InStep t.font.height t.screen t.font _ _ _ 0 a.in_step;
          })))
  ]
