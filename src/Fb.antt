-- ===== src/Fb.antt =====
-- amd64/fb.c and sys/cons.h: the text console on a linear framebuffer.
pub mod Console
pub mod Tests
use mkrn.Prelude.{
  ℕ, ◌+◌, ◌-◌, ◌*◌, ◌/◌, ◌%◌, ◌^◌, bit_or, ltb, ◌==◌, ◌||◌, ◌&&◌, not, if◌then◌else◌, Bool, true,
  false, Mem, u32_mod, add32, sub32,
}
use mkrn.Libkern.{memmove, memset}
use mkrn.Font.{Fb, font_width, font_height, font_putc}

-- `struct cons_fb`
pub record ConsFb : Type 0 where
  pub addr : ℕ
  pub pitch : ℕ
  pub width : ℕ
  pub height : ℕ
  pub bpp : ℕ
  pub red_pos : ℕ
  pub red_size : ℕ
  pub green_pos : ℕ
  pub green_size : ℕ
  pub blue_pos : ℕ
  pub blue_size : ℕ

-- The static variables, with the memory.
pub record FbState : Type 0 where
  pub mem : Mem
  pub md_fb : Fb
  pub cfb : ConsFb
  pub fb_cols : ℕ
  pub fb_rows : ℕ
  pub fb_col : ℕ
  pub fb_row : ℕ

-- `(uint32_t)(v >> (8 - size)) << pos`, for a field of at most 8 bits
abbrev pack_field : ℕ → ℕ → ℕ → ℕ
pack_field v size pos = v / 2 ^ (8 - size) * 2 ^ pos % u32_mod

fb_pack : ConsFb → ℕ → ℕ → ℕ → ℕ
fb_pack cfb r g b =
    bit_or
      (bit_or (pack_field r cfb.red_size cfb.red_pos) (pack_field g cfb.green_size cfb.green_pos))
      (pack_field b cfb.blue_size cfb.blue_pos)

pub fb_scroll : FbState → FbState
fb_scroll s =
    let base : ℕ = s.md_fb.addr in
    let row_bytes : ℕ = font_height * s.cfb.pitch % u32_mod in
    let above : ℕ = sub32 s.fb_rows 1 * row_bytes % u32_mod in
    let moved : Mem = memmove s.mem base (add32 base row_bytes) above in
    record s { mem = memset moved (add32 base above) 0 row_bytes; fb_row = sub32 s.fb_rows 1 }

-- The two branches of fb_putc, which differ in the character.
pub fb_newline : FbState → FbState
fb_newline s = record s { fb_col = 0; fb_row = add32 s.fb_row 1 }

pub fb_draw : FbState → ℕ → ℕ → ℕ → FbState
fb_draw s c fg bg =
    let m : Mem =
      font_putc s.mem s.md_fb (s.fb_col * font_width % u32_mod) (s.fb_row * font_height % u32_mod)
        (c % 256) fg bg in
    let col : ℕ = add32 s.fb_col 1 in
    if col == s.fb_cols
    then record s { mem = m; fb_col = 0; fb_row = add32 s.fb_row 1 }
    else record s { mem = m; fb_col = col }

-- fb_putc as far as the test for the end of the screen.
pub fb_place : FbState → ℕ → Bool → FbState
fb_place s c log =
    let fg : ℕ = if log then fb_pack s.cfb 0 0 0 else fb_pack s.cfb 170 170 170 in
    let bg : ℕ = if log then fb_pack s.cfb 255 255 255 else fb_pack s.cfb 0 0 0 in
    if c == b'\n' then fb_newline s else fb_draw s c fg bg

pub fb_putc : FbState → ℕ → Bool → FbState
fb_putc s c log =
    let s' : FbState = fb_place s c log in if s'.fb_row == s'.fb_rows then fb_scroll s' else s'

-- The two tests of fb_init.
fb_is_usable : ConsFb → Bool
fb_is_usable fb =
    ((fb.bpp == 15) || (fb.bpp == 16) || (fb.bpp == 24) || (fb.bpp == 32))
    && not (ltb fb.width font_width || ltb fb.height font_height || (fb.pitch == 0))

pub fb_init : FbState → ConsFb → Bool × FbState
fb_init s fb =
    if fb_is_usable fb
    then (
      true,
      record {
        mem = memset s.mem fb.addr 0 (fb.pitch * fb.height % u32_mod);
        md_fb = record {
          addr = fb.addr;
          width = fb.width;
          height = fb.height;
          pitch = fb.pitch;
          bpp = fb.bpp;
        };
        cfb = fb;
        fb_cols = fb.width / font_width;
        fb_rows = fb.height / font_height;
        fb_col = 0;
        fb_row = 0;
      },
    )
    else (false, s)
