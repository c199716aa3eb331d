-- ===== src/Vga.antt =====
-- amd64/vga.c: the text console. The cells at 0xb8000 are the values of `cells`, by their index;
-- the machine stands for the ports of the cursor and the attribute controller.
pub mod Screen
pub mod Keeps
pub mod Tests
use mkrn.Prelude.{
  ℕ, zero, suc, ◌+◌, ◌-◌, ◌*◌, ◌/◌, ◌%◌, ◌^◌, bit_and, bit_or, ltb, ◌==◌, if◌then◌else◌, Bool, Mem,
  store, u32_mod, add32,
}
use mkrn.Cpu.{Cpu}

abbrev pub vga_cols : ℕ
vga_cols = 80

abbrev pub vga_rows : ℕ
vga_rows = 25

abbrev pub vga_attr : ℕ
vga_attr = 0x07

abbrev pub vga_attr_log : ℕ
vga_attr_log = 0xf0

-- `(attr << 8) | (uint8_t)c`
abbrev pub vga_cell : ℕ → ℕ → ℕ
vga_cell attr c = attr * 2 ^ 8 + c % 256

abbrev pub blank : ℕ
blank = vga_cell vga_attr b' '

pub record Vga (W : Type 0) : Type 0 where
  pub cells : Mem
  pub vga_row : ℕ
  pub vga_col : ℕ
  pub machine : W

-- The rounds `i`, `i + 1`, ... of the loops that move cells up by a row and that blank cells.
pub move_up : ℕ → ℕ → Mem → Mem
move_up zero i m = m
move_up (suc n) i m = move_up n (i + 1) (store m i (m (i + vga_cols)))

pub blank_out : ℕ → ℕ → Mem → Mem
blank_out zero i m = m
blank_out (suc n) i m = blank_out n (i + 1) (store m i blank)

module _ {W : Type 0} (cpu : Cpu W) where
  pub vga_setcursor : Vga W → Vga W
  vga_setcursor s =
      let pos : ℕ = add32 (s.vga_row * vga_cols) s.vga_col % 2 ^ 16 in
      record s {
        machine = cpu.outb 0x3d5 (bit_and (pos / 2 ^ 8) 0xff) (
            cpu.outb 0x3d4 0x0e
              (cpu.outb 0x3d5 (bit_and pos 0xff) (cpu.outb 0x3d4 0x0f s.machine)));
      }

  vga_enable_bg_intensity : W → W
  vga_enable_bg_intensity w =
      let w1 : W = cpu.outb 0x3c0 (bit_or 0x10 0x20) (cpu.inb 0x3da w).1 in
      let (val, w2) = cpu.inb 0x3c1 w1 in cpu.outb 0x3c0 (bit_and val (0xff - 0x08)) w2

  pub vga_scroll : Vga W → Vga W
  vga_scroll s =
      let moved : Mem = move_up (vga_cols * (vga_rows - 1)) 0 s.cells in
      record s {
        cells = blank_out vga_cols (vga_cols * (vga_rows - 1)) moved;
        vga_row = vga_rows - 1;
      }

  vga_init : Vga W → Vga W
  vga_init s = vga_setcursor (record {
    cells = blank_out (vga_cols * vga_rows) 0 s.cells;
    vga_row = 0;
    vga_col = 0;
    machine = vga_enable_bg_intensity s.machine;
  })

  -- The two branches of vga_putc, which differ in the character.
  pub new_line : Vga W → Vga W
  new_line s = record s { vga_col = 0; vga_row = add32 s.vga_row 1 }

  pub put_cell : Vga W → ℕ → ℕ → Vga W
  put_cell s c attr =
      let m : Mem = store s.cells (add32 (s.vga_row * vga_cols) s.vga_col) (vga_cell attr c) in
      let col : ℕ = add32 s.vga_col 1 in
      if col == vga_cols
      then record s { cells = m; vga_col = 0; vga_row = add32 s.vga_row 1 }
      else record s { cells = m; vga_col = col }

  -- vga_putc as far as the test for the end of the screen.
  pub place : Vga W → ℕ → ℕ → Vga W
  place s c attr = if c == b'\n' then new_line s else put_cell s c attr

  pub vga_putc : Vga W → ℕ → Bool → Vga W
  vga_putc s c log =
      let s' : Vga W = place s c (if log then vga_attr_log else vga_attr) in
      vga_setcursor (if s'.vga_row == vga_rows then vga_scroll s' else s')
