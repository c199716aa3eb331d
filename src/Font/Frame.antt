-- ===== src/Font/Frame.antt =====
-- What drawing leaves alone: the bytes that are not of the framebuffer.
use mkrn.Prelude.{
  ℕ, zero, suc, ◌+◌, ◌*◌, ◌/◌, ◌%◌, ◌^◌, ◌≤◌, ◌<◌, ◌≡◌, ◌⊎◌, inl, inr, refl, ◌∙◌, arith, leb, ◌==◌,
  ◌||◌, if◌then◌else◌, Bool-cases, Mem, store, u32_mod, add32, bit_and,
}
use native.Mathlib.Nat.{mul-le-mul_right, mul-le-mul_left, add-mul}
use mkrn.Font.{
  Fb, glyph, pixel_bytes, put_bytes, putpixel, put_cols, put_rows, font_putc, font_height,
  font_width,
}

-- Lines are wide enough for their pixels, and the lines lie in the address space.
pub record IsFrame (fb : Fb) : Type 0 where
  pub depth : fb.bpp ≤ 32
  pub line : fb.width * pixel_bytes fb.bpp ≤ fb.pitch
  pub room : fb.addr + fb.height * fb.pitch < 2 ^ 32

put_bytes_lem :
    (n : ℕ) (m : Mem) (p color : ℕ)
    → p + n ≤ 2 ^ 32
    → (j : ℕ) → (j < p) ⊎ (p + n ≤ j)
    → put_bytes n m p color j ≡ m j
unfolding put_bytes
put_bytes_lem zero m p color l j o = refl
put_bytes_lem (suc zero) m p color l j o = elim o [
  | inl a ↦ ground (arith, a)
  | inr a ↦ ground (arith, a)
]
put_bytes_lem (suc (suc n)) m p color l j o =
    put_bytes_lem (suc n) (store m p (color % 256)) (add32 p 1) (color / 2 ^ 8) (omega (arith, l)) j
      (elim o [ inl a ↦ inl (omega (arith, a, l)) | inr a ↦ inr (omega (arith, a, l)) ])
    ∙ elim o [ inl a ↦ ground (arith, a) | inr a ↦ ground (arith, a) ]

depth_lem : (bpp : ℕ) → bpp ≤ 32 → bpp / 8 ≤ pixel_bytes bpp
depth_lem bpp l = ground (arith, l)

pixel_bytes-pos : (bpp : ℕ) → 0 < pixel_bytes bpp
pixel_bytes-pos bpp = ground arith

-- Two memories with the same bytes outside of the framebuffer.
abbrev pub Spared : Fb → Mem → Mem → Type 0
Spared fb m m' = (j : ℕ) → (j < fb.addr) ⊎ (fb.addr + fb.height * fb.pitch ≤ j) → m' j ≡ m j

module _ (fb : Fb) (f : IsFrame fb) where
  -- A pixel of the framebuffer lies in its line, and its line in the framebuffer.
  pixel_place :
      (x y : ℕ)
      → x < fb.width
      → y < fb.height
      → y * fb.pitch + x * (fb.bpp / 8) + pixel_bytes fb.bpp ≤ fb.height * fb.pitch
  pixel_place x y lx ly =
      let bytes : ℕ = pixel_bytes fb.bpp in
      omega (
        arith,
        mul-le-mul_right {m = y + 1} {n = fb.height} fb.pitch (omega (arith, ly)),
        add-mul y 1 fb.pitch,
        mul-le-mul_right {m = x + 1} {n = fb.width} bytes (omega (arith, lx)),
        add-mul x 1 bytes,
        mul-le-mul_left {m = fb.bpp / 8} {n = bytes} x (depth_lem fb.bpp f.depth),
        f.line,
      )

  putpixel-Spared : (m : Mem) (x y color : ℕ) → Spared fb m (putpixel m fb x y color)
  unfolding putpixel
  putpixel-Spared m x y color j o = elim (Bool-cases (leb fb.width x || leb fb.height y)) [
    | inl e ↦ rw e refl
    | inr e ↦
        let inside = pixel_place x y (ground (arith, e)) (ground (arith, e)) in
        let some_byte : 0 < pixel_bytes fb.bpp = pixel_bytes-pos fb.bpp in
        let at : ℕ = fb.addr + y * fb.pitch + x * (fb.bpp / 8) in
        let small : at % u32_mod ≡ at = omega (arith, inside, f.room, some_byte) in
        rw (e, small)
          (put_bytes_lem (pixel_bytes fb.bpp) m at color (omega (arith, inside, f.room)) j
            (elim o [ inl a ↦ inl (omega (arith, a)) | inr a ↦ inr (omega (arith, a, inside)) ]))
  ]

  put_cols-Spared :
      (n col : ℕ) (m : Mem) (x y bits fg bg : ℕ) → Spared fb m (put_cols n col m fb x y bits fg bg)
  unfolding put_cols
  put_cols-Spared zero col m x y bits fg bg j o = refl
  put_cols-Spared (suc n) col m x y bits fg bg j o =
      let color : ℕ = if bit_and bits (0x80 / 2 ^ col) == 0 then bg else fg in
      put_cols-Spared n (col + 1) (putpixel m fb (add32 x col) y color) x y bits fg bg j o
      ∙ putpixel-Spared m (add32 x col) y color j o

  put_rows-Spared :
      (n row : ℕ) (m : Mem) (x y c fg bg : ℕ) → Spared fb m (put_rows n row m fb x y c fg bg)
  unfolding put_rows
  put_rows-Spared zero row m x y c fg bg j o = refl
  put_rows-Spared (suc n) row m x y c fg bg j o =
      put_rows-Spared n (row + 1) (put_cols font_width 0 m fb x (add32 y row) (glyph c row) fg bg) x
        y c fg bg j o
      ∙ put_cols-Spared font_width 0 m x (add32 y row) (glyph c row) fg bg j o

  pub font_putc-Spared : (m : Mem) (x y c fg bg : ℕ) → Spared fb m (font_putc m fb x y c fg bg)
  unfolding font_putc
  font_putc-Spared m x y c fg bg = put_rows-Spared font_height 0 m x y c fg bg
