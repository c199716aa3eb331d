-- ===== src/Fb/Tests.antt =====
-- A framebuffer of 16 by 16 pixels at 0x1000, with the cursor in the last of its four places.
use mkrn.Prelude.{◌≡◌, refl, arith, false}
use mkrn.Font.{Fb}
use mkrn.Font.Frame.{IsFrame, Spared}
use mkrn.Fb.{ConsFb, FbState, fb_putc}
use mkrn.Fb.Console.{IsConsole, fb_putc_lem}

abbrev small_fb : Fb
small_fb = record { addr = 0x1000; width = 16; height = 16; pitch = 64; bpp = 32 }

abbrev small_cons : ConsFb
small_cons = record {
  addr = 0x1000;
  pitch = 64;
  width = 16;
  height = 16;
  bpp = 32;
  red_pos = 16;
  red_size = 8;
  green_pos = 8;
  green_size = 8;
  blue_pos = 0;
  blue_size = 8;
}

abbrev last_place : FbState
last_place = record {
  mem = λ x. 0;
  md_fb = small_fb;
  cfb = small_cons;
  fb_cols = 2;
  fb_rows = 2;
  fb_col = 1;
  fb_row = 1;
}

small_fb-IsFrame : IsFrame small_fb
small_fb-IsFrame = record { depth = omega arith; line = omega arith; room = omega arith }

last_place-IsConsole : IsConsole last_place
last_place-IsConsole = record {
  frame = small_fb-IsFrame;
  pitch = refl;
  cols = omega arith;
  rows = omega arith;
  col = omega arith;
  row = omega arith;
  small = omega arith;
  few = omega arith;
}

fb_putc_lem_example :
    IsConsole (fb_putc last_place 65 false)
    × ((fb_putc last_place 65 false).md_fb ≡ small_fb)
    × Spared small_fb (λ x. 0) (fb_putc last_place 65 false).mem
fb_putc_lem_example = fb_putc_lem last_place 65 false last_place-IsConsole
