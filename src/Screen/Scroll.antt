-- ===== src/Screen/Scroll.antt =====
-- Scrolling in `fbtty_putchar` of Kernel/src/drivers/tty/fbtty.c: the rows move up by one line of
-- text, and the last one is blank.
use wheatley.Common.{
  ℕ, ◌+◌, ◌-◌, ◌*◌, ◌/◌, ◌%◌, ◌^◌, ◌≤◌, ◌<◌, ◌≡◌, refl, ◌∙◌, arith, leb, ltb, ◌&&◌, if◌then◌else◌,
}
use native.Mathlib.Nat.{mul-le-mul_left, mul-sub}
use wheatley.Screen.{Buffer, FbDriver, bg_color, Terminal, scroll}

module _ (F : FbDriver) where
  open F use {Screen, shown, InStep}

  pub record Scrolled (t t' : Terminal F) : Type 0 where
    pub moved :
        (i : ℕ)
        → i < t.fbw * (t.fbh - t.font.height)
        → shown t'.screen i ≡ shown t.screen (t.fbw * t.font.height + i)
    pub blank :
        (i : ℕ)
        → t.fbw * (t.fbh - t.font.height) ≤ i
        → i < t.fbw * t.fbh
        → shown t'.screen i ≡ bg_color
    pub outside : (i : ℕ) → t.fbw * t.fbh ≤ i → shown t'.screen i ≡ shown t.screen i
    pub in_step : InStep t'.screen
    pub line : t'.cy + 1 ≡ t.cy
    pub column : t'.cx ≡ t.cx

  module _ (s : Screen) (buf : Buffer) (offset count i : ℕ) (ok : InStep s) where
    abbrev moved_up : Screen
    moved_up = F.memcpy s (F.readpixels s buf offset count) 0 count

    shown-moved_up :
        shown moved_up i ≡ (if ltb i (count / 4) then shown s (offset + i) else shown s i)
    shown-moved_up =
        let copied = F.memcpy_lem s (F.readpixels s buf offset count) 0 count i in
        let read = F.readpixels_lem s buf offset count i ok in ground (arith, copied, read)

    shown-scrolled : shown (F.pixset moved_up bg_color (count / 4) offset) i ≡ (
        if leb (count / 4) i && ltb i (count / 4 + offset)
        then bg_color
        else if ltb i (count / 4)
        then shown s (offset + i)
        else shown s i)
    shown-scrolled = F.pixset_lem moved_up bg_color (count / 4) offset i ∙ rw shown-moved_up refl

  module _ (t : Terminal F) (ok : InStep t.screen) (fits : t.fbw * t.fbh * 4 < 2 ^ 32)
      (tall : t.font.height ≤ t.fbh) (small : t.fbh < 2 ^ 16) (below : 0 < t.cy) where
    -- The pixels of the screen above its last line of text.
    abbrev kept : ℕ
    kept = t.fbw * (t.fbh - t.font.height)

    all_rows : kept + t.fbw * t.font.height ≡ t.fbw * t.fbh
    all_rows =
        let less : t.fbw * t.font.height ≤ t.fbw * t.fbh = mul-le-mul_left t.fbw tall in
        omega (arith, mul-sub t.fbw t.fbh t.font.height, less)

    count_lem : t.fbw * ((t.fbh + 2 ^ 32 - t.font.height) % 2 ^ 32) * 4 % 2 ^ 32 ≡ kept * 4
    count_lem =
        let rows : (t.fbh + 2 ^ 32 - t.font.height) % 2 ^ 32 ≡ t.fbh - t.font.height =
          omega arith in
        rw rows (omega (arith, all_rows))

    offset_lem : t.fbw * t.font.height % 2 ^ 32 ≡ t.fbw * t.font.height
    offset_lem = omega (arith, all_rows)

    shown-scroll :
        (i : ℕ)
        → shown (scroll F t).screen i ≡ (
            if leb kept i && ltb i (t.fbw * t.fbh)
            then bg_color
            else if ltb i kept
            then shown t.screen (t.fbw * t.font.height + i)
            else shown t.screen i)
    unfolding scroll
    shown-scroll i =
        rw (count_lem, offset_lem)
          (shown-scrolled t.screen t.scrollback_buf (t.fbw * t.font.height) (kept * 4) i ok
            ∙ ground (arith, all_rows))

    scroll-InStep : InStep (scroll F t).screen
    unfolding scroll
    scroll-InStep = F.pixset-InStep _ _ _ _ (F.memcpy-InStep _ _ _ _ ok)

    -- Of a screen of fewer than 2^30 pixels and 2^16 rows, at least as high as a glyph, with the
    -- driver's copy in step and the cursor below its first line, the pixels move up by one line of
    -- text, the last line of text takes the background's colour, and nothing behind the screen
    -- changes; the cursor goes up one line, and the copy is in step.
    pub scroll-Scrolled : Scrolled t (scroll F t)
    unfolding scroll
    scroll-Scrolled = record {
      moved = λ i lt. shown-scroll i ∙ ground arith;
      blank = λ i le lt. shown-scroll i ∙ ground arith;
      outside = λ i le. shown-scroll i ∙ ground (arith, all_rows);
      in_step = scroll-InStep;
      line = omega arith;
      column = refl;
    }
