-- ===== src/Console.antt =====
-- amd64/cons.c: kputc() hands each character to the text screen or to the framebuffer.
use mkrn.Prelude.{ℕ, Bool, if◌then◌else◌, List, [], ◌∷◌, ◌++◌, ◌≡◌, refl, ◌∙◌, if_both}
use mkrn.Cpu.{Cpu}
use mkrn.Vga.{Vga, vga_putc}
use mkrn.Vga.Keeps.{vga_putc-keeps}
use mkrn.Fb.{ConsFb, FbState, fb_init, fb_putc}

pub record Console (W : Type 0) : Type 0 where
  pub vga : Vga W
  pub fb : FbState
  pub use_fb : Bool
  pub log_on : Bool

pub cons_log : {W : Type 0} → Console W → Bool → Console W
cons_log s on = record s { log_on = on }

pub cons_log_vga : {W : Type 0} (s : Console W) (on : Bool) → (cons_log s on).vga ≡ s.vga
unfolding cons_log
cons_log_vga s on = refl

pub cons_fb_init : {W : Type 0} → Console W → ConsFb → Bool × Console W
cons_fb_init s fb = let (ok, fb') = fb_init s.fb fb in (ok, record s { fb = fb'; use_fb = ok })

module _ {W : Type 0} (cpu : Cpu W) where
  kputc : Console W → ℕ → Console W
  kputc s c =
      if s.use_fb
      then record s { fb = fb_putc s.fb c s.log_on }
      else record s { vga = vga_putc cpu s.vga c s.log_on }

  -- The calls of kputc() for the characters of a text.
  pub put_text : Console W → List ℕ → Console W
  put_text s [] = s
  put_text s (c ∷ cs) = put_text (kputc s c) cs

  pub put_text-append :
      (s : Console W) (xs ys : List ℕ) → put_text s (xs ++ ys) ≡ put_text (put_text s xs) ys
  unfolding put_text
  put_text-append s [] ys = refl
  put_text-append s (x ∷ xs) ys = put_text-append (kputc s x) xs ys

-- A text leaves alone what the cursor of the text screen leaves alone.
pub put_text-keeps :
    {W X : Type 0} (cpu : Cpu W) (f : W → X)
    (cursor : (v : ℕ) (w : W) → (f (cpu.outb 0x3d4 v w) ≡ f w) × (f (cpu.outb 0x3d5 v w) ≡ f w))
    (s : Console W) (cs : List ℕ)
    → f (put_text cpu s cs).vga.machine ≡ f s.vga.machine
unfolding put_text kputc
put_text-keeps cpu f cursor s [] = refl
put_text-keeps {W} cpu f cursor s (c ∷ cs) =
    put_text-keeps cpu f cursor (kputc cpu s c) cs
    ∙ if_both (λ (t : Console W). f t.vga.machine ≡ f s.vga.machine) s.use_fb _ _ refl
        (vga_putc-keeps cpu f cursor s.vga c s.log_on)
