-- ===== src/Font/Tests.antt =====
-- Drawing into small framebuffers.
use mkrn.Prelude.{◌≡◌, refl, true}
use mkrn.Font.{
  putpixel, put_bytes, font_selftest, font_putc, put_rows, put_cols, glyph, clear_words, count_lit,
}

-- With 15 bits per pixel, the pixel at column 1 starts at the second byte of the one at column 0.
narrow_step :
    putpixel (λ x. 0) (record { addr = 0; width = 4; height = 1; pitch = 8; bpp = 15 }) 1 0 0x7fff 1
    ≡ 0xff
unfolding putpixel put_bytes
narrow_step = refl

selftest_passes : (font_selftest (λ x. 0) 0x1000).0 ≡ true
unfolding font_selftest font_putc put_rows put_cols putpixel put_bytes glyph clear_words count_lit
selftest_passes = refl
