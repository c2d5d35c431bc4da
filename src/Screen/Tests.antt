-- ===== src/Screen/Tests.antt =====
-- Runs of Kernel/src/drivers/tty/fbtty.c over Kernel/src/drivers/fb/efifb.c on a small screen.
use wheatley.Common.{refl, arith}
use wheatley.Common.{ℕ, ◌≡◌, Result, ok, List, ◌∷◌, [], fill, update, some, none}
use wheatley.Registry.{Drivers, no_drivers, register_driver}
use wheatley.Screen.Startup.{
  Handoff, map_buffer, clear_pixels, efifb_module_init, bad_font, fbtty_module_init,
}
use wheatley.Screen.Startup.Cleared.{Cleared, efifb_module_init-Cleared}
use wheatley.Screen.{EfiFb, Buffer, Terminal, PsfFont, scroll, fbtty_putchar}
use wheatley.Screen.Efi.{efifb}
use wheatley.Screen.Cursor.{IsInside, fbtty_putchar-IsInside}
use wheatley.Screen.Scroll.{Scrolled, scroll-Scrolled}

abbrev small_font : PsfFont
small_font = record { headersize = 32; bytesperglyph = 2; height = 2; width = 8; bytes = λ i. i }

-- Three lines of three characters, the cursor on the second line.
abbrev small_terminal : Terminal efifb
small_terminal = record {
  screen = record { fb_buffer = λ i. i; double_buf = λ i. i; pixels_per_scan_line = 25 };
  font = small_font;
  cx = 1;
  cy = 1;
  fbw = 25;
  fbh = 6;
  scrollback_buf = λ _. 0;
}

small_terminal-IsInside : IsInside efifb small_terminal
small_terminal-IsInside = record {
  column = omega arith;
  line = omega arith;
  wide = omega arith;
  tall = omega arith;
  in_step = refl;
}

fbtty_putchar-IsInside_example : IsInside efifb (fbtty_putchar efifb small_terminal 65)
fbtty_putchar-IsInside_example =
    fbtty_putchar-IsInside efifb small_terminal 65 small_terminal-IsInside

scroll-Scrolled_example : Scrolled efifb small_terminal (scroll efifb small_terminal)
scroll-Scrolled_example =
    scroll-Scrolled efifb small_terminal refl (omega arith) (omega arith) (omega arith)
      (omega arith)

-- A screen of 3 times 4 pixels, one line more than a square.
abbrev tall_screen : Handoff
tall_screen = record {
  fb_address = 0x80000000;
  fb_width = 3;
  fb_height = 4;
  fb_pixels_per_scan_line = 3;
}

-- The pages that are mapped, latest first; every allocation is at 1 MB.
abbrev log_page : ℕ → List ℕ → List ℕ
log_page page pages = page ∷ pages

abbrev one_mb : ℕ → List ℕ → Result (ℕ × List ℕ)
one_mb len pages = ok (0x100000, pages)

abbrev noise : Buffer
noise i = 7

abbrev after_init : EfiFb
after_init = record {
  fb_buffer = clear_pixels noise 0 9;
  double_buf = fill noise 0 12 0;
  pixels_per_scan_line = 3;
}

abbrev one_driver : Drivers ℕ
one_driver = record { drivers = update (λ _. none) 0 (some 5); count = 1 }

tall_runs :
    efifb_module_init log_page one_mb 5 tall_screen noise noise no_drivers []
    ≡ ok (record { width = 3; height = 4 }, after_init, one_driver, 0x80000000 ∷ [])
unfolding efifb_module_init map_buffer register_driver
tall_runs = refl

efifb_module_init-Cleared_example :
    Cleared tall_screen noise (record { width = 3; height = 4 }) after_init
efifb_module_init-Cleared_example =
    efifb_module_init-Cleared log_page one_mb 5 tall_screen noise noise no_drivers one_driver []
      (0x80000000 ∷ []) (record { width = 3; height = 4 }) after_init tall_runs (omega arith)
      (omega arith)

-- A font with another magic number attaches no terminal.
other_font :
    fbtty_module_init log_page one_mb efifb {Driver = ℕ} 0x12345678 small_font no_drivers after_init
      5 no_drivers noise []
    ≡ ok (bad_font, [])
unfolding fbtty_module_init
other_font = refl
