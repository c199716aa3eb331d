-- ===== src/Font.antt =====
-- src/kern/subr_font.c and sys/font.h: glyphs drawn into a framebuffer, which is bytes of memory.
pub mod Low
pub mod High
pub mod Frame
pub mod Tests
use mkrn.Prelude.{
  ℕ, zero, suc, ◌+◌, ◌-◌, ◌*◌, ◌/◌, ◌%◌, ◌^◌, bit_and, leb, ltb, ◌==◌, ◌||◌, if◌then◌else◌, Bool,
  Mem, store, load32, u32_mod, add32, List, [], ◌∷◌, ◌++◌, get_or,
}
use mkrn.Font.Low.{font8x8_low}
use mkrn.Font.High.{font8x8_high}

abbrev pub font_width : ℕ
font_width = 8

abbrev pub font_height : ℕ
font_height = 8

-- `struct fb`
pub record Fb : Type 0 where
  pub addr : ℕ
  pub width : ℕ
  pub height : ℕ
  pub pitch : ℕ
  pub bpp : ℕ

-- `font8x8[c][row]`
pub glyph : ℕ → ℕ → ℕ
glyph c row = get_or (get_or (font8x8_low ++ font8x8_high) c []) row 0

-- The bytes that the switch of putpixel writes.
abbrev pub pixel_bytes : ℕ → ℕ
pixel_bytes bpp =
    if bpp == 8 then 1 else if (bpp == 15) || (bpp == 16) then 2 else if bpp == 24 then 3 else 4

-- `p[0] = (uint8_t)color; p[1] = (uint8_t)(color >> 8);` and so on, for `n` bytes
pub put_bytes : ℕ → Mem → ℕ → ℕ → Mem
put_bytes zero m p color = m
put_bytes (suc n) m p color = put_bytes n (store m p (color % 256)) (add32 p 1) (color / 2 ^ 8)

pub putpixel : Mem → Fb → ℕ → ℕ → ℕ → Mem
putpixel m fb x y color =
    if leb fb.width x || leb fb.height y
    then m
    else put_bytes (pixel_bytes fb.bpp) m ((fb.addr + y * fb.pitch + x * (fb.bpp / 8)) % u32_mod)
        color

-- The rounds `col`, `col + 1`, ... of the inner loop of font_putc, and then those of the outer one.
pub put_cols : ℕ → ℕ → Mem → Fb → ℕ → ℕ → ℕ → ℕ → ℕ → Mem
put_cols zero col m fb x y bits fg bg = m
put_cols (suc n) col m fb x y bits fg bg =
    let color : ℕ = if bit_and bits (0x80 / 2 ^ col) == 0 then bg else fg in
    put_cols n (col + 1) (putpixel m fb (add32 x col) y color) fb x y bits fg bg

pub put_rows : ℕ → ℕ → Mem → Fb → ℕ → ℕ → ℕ → ℕ → ℕ → Mem
put_rows zero row m fb x y c fg bg = m
put_rows (suc n) row m fb x y c fg bg =
    put_rows n (row + 1) (put_cols font_width 0 m fb x (add32 y row) (glyph c row) fg bg) fb x y c
      fg bg

pub font_putc : Mem → Fb → ℕ → ℕ → ℕ → ℕ → ℕ → Mem
font_putc m fb x y c fg bg = put_rows font_height 0 m fb x y c fg bg

-- The loop of font_puts, with `ox` the column where lines start.
puts_loop : List ℕ → Mem → Fb → ℕ → ℕ → ℕ → ℕ → ℕ → Mem
puts_loop [] m fb ox x y fg bg = m
puts_loop (c ∷ cs) m fb ox x y fg bg =
    let line : Mem = puts_loop cs m fb ox ox (add32 y font_height) fg bg in
    let next : Mem =
      puts_loop cs (font_putc m fb x y (c % 256) fg bg) fb ox (add32 x font_width) y fg bg in
    if c == b'\n' then line else next

font_puts : Mem → Fb → ℕ → ℕ → List ℕ → ℕ → ℕ → Mem
font_puts m fb x y s fg bg = puts_loop s m fb x x y fg bg

-- The loops of font_selftest over the words of its framebuffer.
pub clear_words : ℕ → ℕ → Mem → Mem
clear_words zero p m = m
clear_words (suc n) p m = clear_words n (p + 4) (put_bytes 4 m p 0)

pub count_lit : ℕ → ℕ → Mem → ℕ
count_lit zero p m = 0
count_lit (suc n) p m = (if load32 m p == 0xffffffff then 1 else 0) + count_lit n (p + 4) m

-- `selftest_mem` is the address of the static buffer.
pub font_selftest : Mem → ℕ → Bool × Mem
font_selftest m selftest_mem =
    let fb : Fb = record {
      addr = selftest_mem;
      width = font_width;
      height = font_height;
      pitch = font_width * 4;
      bpp = 32;
    } in
    let drawn : Mem =
      font_putc (clear_words (font_width * font_height) selftest_mem m) fb 0 0 65 0xffffffff 0 in
    (ltb 0 (count_lit (font_width * font_height) selftest_mem drawn), drawn)
