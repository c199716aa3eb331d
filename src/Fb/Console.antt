-- ===== src/Fb/Console.antt =====
-- The cursor of the framebuffer console, and the bytes that it writes.
use mkrn.Prelude.{
  ℕ, ◌+◌, ◌-◌, ◌*◌, ◌%◌, ◌^◌, ◌≤◌, ◌<◌, ◌≡◌, ◌⊎◌, inl, inr, refl, ap, ap₂, subst, sym, ◌∙◌, arith,
  ◌==◌, if_both, Bool, Bool-cases, Mem, u32_mod, add32, sub32,
}
use native.Mathlib.Nat.{mul-le-mul_right, add-mul, mul_assoc}
use mkrn.Libkern.Block.{memset-outside, memmove-outside}
use mkrn.Font.{font_width, font_height, font_putc}
use mkrn.Font.Frame.{IsFrame, Spared, font_putc-Spared}
use mkrn.Fb.{FbState, fb_scroll, fb_newline, fb_draw, fb_place, fb_putc}

-- The cursor stands on a screen of whole characters, which fits into the framebuffer.
pub record IsConsole (s : FbState) : Type 0 where
  pub frame : IsFrame s.md_fb
  pub pitch : s.cfb.pitch ≡ s.md_fb.pitch
  pub cols : s.fb_cols * font_width ≤ s.md_fb.width
  pub rows : s.fb_rows * font_height ≤ s.md_fb.height
  pub col : s.fb_col < s.fb_cols
  pub row : s.fb_row < s.fb_rows
  pub small : s.fb_cols < 2 ^ 32
  pub few : s.fb_rows < 2 ^ 32

-- The same framebuffer and the same bytes outside of it, with the cursor at most below the screen.
record Drawn (s t : FbState) : Type 0 where
  fb : t.md_fb ≡ s.md_fb
  cfb : t.cfb ≡ s.cfb
  cols : t.fb_cols ≡ s.fb_cols
  rows : t.fb_rows ≡ s.fb_rows
  col : t.fb_col < s.fb_cols
  row : t.fb_row ≤ s.fb_rows
  spared : Spared s.md_fb s.mem t.mem

fb_draw-Drawn : (s : FbState) (c fg bg : ℕ) → IsConsole s → Drawn s (fb_draw s c fg bg)
unfolding fb_draw
fb_draw-Drawn s c fg bg h =
    let x : ℕ = s.fb_col * font_width % u32_mod in
    let y : ℕ = s.fb_row * font_height % u32_mod in
    let spared : Spared s.md_fb s.mem (font_putc s.mem s.md_fb x y (c % 256) fg bg) =
      font_putc-Spared s.md_fb h.frame s.mem x y (c % 256) fg bg in
    elim (Bool-cases (add32 s.fb_col 1 == s.fb_cols)) [
      | inl e ↦ rw e (record {
        fb = refl;
        cfb = refl;
        cols = refl;
        rows = refl;
        col = omega (arith, h.col);
        row = omega (arith, h.row, h.few);
        spared = spared;
      })
      | inr e ↦ rw e (record {
        fb = refl;
        cfb = refl;
        cols = refl;
        rows = refl;
        col = ground (arith, h.col, h.small, e);
        row = omega (arith, h.row);
        spared = spared;
      })
    ]

fb_place-Drawn : (s : FbState) (c : ℕ) (log : Bool) → IsConsole s → Drawn s (fb_place s c log)
unfolding fb_place fb_newline
fb_place-Drawn s c log h =
    if_both (Drawn s) (c == b'\n') _ _
      (record {
        fb = refl;
        cfb = refl;
        cols = refl;
        rows = refl;
        col = omega (arith, h.col);
        row = omega (arith, h.row, h.few);
        spared = λ j o. refl;
      })
      (fb_draw-Drawn s c _ _ h)

-- The rows of characters take no more bytes than the lines of the framebuffer.
rows_room :
    (rows pitch height : ℕ)
    → rows * font_height ≤ height
    → 0 < rows
    → (rows - 1) * (font_height * pitch) + font_height * pitch ≤ height * pitch
rows_room rows pitch height l n = omega (
  arith,
  mul-le-mul_right {m = rows * font_height} {n = height} pitch l,
  mul_assoc rows font_height pitch,
  add-mul (rows - 1) 1 (font_height * pitch),
  ap (λ r. r * (font_height * pitch)) {x = rows - 1 + 1} {y = rows} (omega (arith, n)),
)

fb_scroll-Spared :
    (s : FbState)
    → IsFrame s.md_fb
    → s.cfb.pitch ≡ s.md_fb.pitch
    → s.fb_rows * font_height ≤ s.md_fb.height
    → 0 < s.fb_rows
    → s.fb_rows < 2 ^ 32
    → Spared s.md_fb s.mem (fb_scroll s).mem
unfolding fb_scroll
fb_scroll-Spared s f p l n k j o =
    let base : ℕ = s.md_fb.addr in
    let fits = rows_room s.fb_rows s.cfb.pitch s.md_fb.height l n in
    let room : base + s.md_fb.height * s.cfb.pitch < 2 ^ 32 =
      omega (arith, f.room, ap (λ q. s.md_fb.height * q) p) in
    let bytes : ℕ = font_height * s.cfb.pitch % u32_mod in
    let bytes_are : bytes ≡ font_height * s.cfb.pitch = omega (arith, fits, room) in
    let above : ℕ = sub32 s.fb_rows 1 * bytes % u32_mod in
    let one_less : sub32 s.fb_rows 1 ≡ s.fb_rows - 1 = omega (arith, n, k) in
    let above_are : above ≡ (s.fb_rows - 1) * (font_height * s.cfb.pitch) =
      omega (arith, ap₂ (λ a b. a * b) one_less bytes_are, fits, room) in
    let apart : (j < base) ⊎ (base + above + bytes ≤ j) = elim o [
      | inl a ↦ inl a
      | inr a ↦ inr (omega (arith, a, fits, bytes_are, above_are, ap (λ q. s.md_fb.height * q) p))
    ] in
    let start : add32 base above ≡ base + above = omega (arith, fits, room, above_are) in
    memset-outside _ (add32 base above) 0 bytes j
      (elim apart [ inl a ↦ inl (omega (arith, a, start)) | inr a ↦ inr (omega (arith, a, start)) ])
    ∙ memmove-outside s.mem base (add32 base bytes) above j
        (elim apart [ inl a ↦ inl a | inr a ↦ inr (omega (arith, a)) ])

at_cursor-IsConsole :
    (s t : FbState) (k : ℕ)
    → IsConsole s
    → Drawn s t
    → k < s.fb_rows
    → (m : Mem) → IsConsole (record t { mem = m; fb_row = k })
at_cursor-IsConsole s t k h d l m = record {
  frame = subst IsFrame (sym d.fb) h.frame;
  pitch = ap (λ c. c.pitch) d.cfb ∙ h.pitch ∙ ap (λ f. f.pitch) (sym d.fb);
  cols = omega (arith, h.cols, d.cols, ap (λ f. f.width) d.fb);
  rows = omega (arith, h.rows, d.rows, ap (λ f. f.height) d.fb);
  col = omega (arith, d.col, d.cols);
  row = omega (arith, l, d.rows);
  small = omega (arith, h.small, d.cols);
  few = omega (arith, h.few, d.rows);
}

scrolled-Spared : (s t : FbState) → IsConsole s → Drawn s t → Spared s.md_fb s.mem (fb_scroll t).mem
scrolled-Spared s t h d j o =
    subst (λ f. Spared f t.mem (fb_scroll t).mem) d.fb
      (fb_scroll-Spared t (subst IsFrame (sym d.fb) h.frame)
        (ap (λ c. c.pitch) d.cfb ∙ h.pitch ∙ ap (λ f. f.pitch) (sym d.fb))
        (omega (arith, h.rows, d.rows, ap (λ f. f.height) d.fb)) (omega (arith, h.row, d.rows))
        (omega (arith, h.few, d.rows)))
      j o
    ∙ d.spared j o

-- With the cursor on a screen that fits into the framebuffer, fb_putc leaves such a state, on the
-- same framebuffer, and changes no byte outside of it, whether it draws, goes to a new line or
-- scrolls.
pub fb_putc_lem :
    (s : FbState) (c : ℕ) (log : Bool)
    → IsConsole s
    → IsConsole (fb_putc s c log)
      × ((fb_putc s c log).md_fb ≡ s.md_fb)
      × Spared s.md_fb s.mem (fb_putc s c log).mem
unfolding fb_putc fb_scroll
fb_putc_lem s c log h =
    let t : FbState = fb_place s c log in
    let d : Drawn s t = fb_place-Drawn s c log h in
    elim (Bool-cases (t.fb_row == t.fb_rows)) [
      | inl e ↦ rw e (
        at_cursor-IsConsole s t (sub32 t.fb_rows 1) h d (omega (arith, d.rows, h.row, h.few)) _,
        d.fb,
        scrolled-Spared s t h d,
      )
      | inr e ↦ rw e (
        at_cursor-IsConsole s t t.fb_row h d (ground (arith, e, d.row, d.rows)) t.mem,
        d.fb,
        d.spared,
      )
    ]
