-- ===== src/Vga/Keeps.antt =====
-- The ports that vga_putc uses.
use mkrn.Prelude.{ℕ, ◌≡◌, ap, ◌∙◌, if_both, arith, Bool}
use mkrn.Cpu.{Cpu}
use mkrn.Vga.{Vga, vga_setcursor, vga_scroll, new_line, put_cell, place, vga_putc}

-- A character leaves alone what the two ports of the cursor leave alone.
module _ {W X : Type 0} (cpu : Cpu W) (f : W → X)
    (cursor : (v : ℕ) (w : W)
      → (f (cpu.outb 0x3d4 v w) ≡ f w) × (f (cpu.outb 0x3d5 v w) ≡ f w)) where
  vga_setcursor-keeps : (s : Vga W) → f (vga_setcursor cpu s).machine ≡ f s.machine
  unfolding vga_setcursor
  vga_setcursor-keeps s =
      (cursor _ _).1 ∙ ((cursor _ _).0 ∙ ((cursor _ _).1 ∙ (cursor _ s.machine).0))

  place_machine : (s : Vga W) (c attr : ℕ) → (place cpu s c attr).machine ≡ s.machine
  unfolding place new_line put_cell
  place_machine s c attr = ground arith

  pub vga_putc-keeps :
      (s : Vga W) (c : ℕ) (log : Bool) → f (vga_putc cpu s c log).machine ≡ f s.machine
  unfolding vga_putc vga_scroll
  vga_putc-keeps s c log =
      vga_setcursor-keeps _
      ∙ if_both (λ (t : Vga W). f t.machine ≡ f s.machine) _ _ _ (ap f (place_machine s c _))
          (ap f (place_machine s c _))
