-- ===== src/Vga/Tests.antt =====
-- The last place of a screen whose cells hold their own numbers, on a machine with no answers.
use mkrn.Prelude.{ℕ, ◌+◌, ◌*◌, ◌≤◌, ◌≡◌, arith, if◌then◌else◌, false}
use mkrn.Cpu.{Cpu}
use mkrn.Vga.{Vga, vga_cols, vga_rows, vga_putc}
use mkrn.Vga.Screen.{IsOnScreen, is_full, written, moved_up, next_place, vga_putc_lem}

abbrev quiet : Cpu ℕ
quiet = record { inb = λ p w. (0, w); outb = λ p v w. w + 1; rdtsc = λ w. (w, w) }

abbrev corner : Vga ℕ
corner = record { cells = λ j. j; vga_row = 24; vga_col = 79; machine = 0 }

corner-IsOnScreen : IsOnScreen corner
corner-IsOnScreen = (omega arith, omega arith)

vga_putc_lem_example :
    IsOnScreen (vga_putc quiet corner 65 false)
    × ((vga_putc quiet corner 65 false).vga_row * vga_cols
          + (vga_putc quiet corner 65 false).vga_col
        ≡ next_place corner 65)
    × ((j : ℕ)
        → (vga_putc quiet corner 65 false).cells j ≡ (
            if is_full corner 65
            then moved_up (written corner 65 false) j
            else written corner 65 false j))
    × ((j : ℕ)
        → vga_cols * vga_rows ≤ j
        → (vga_putc quiet corner 65 false).cells j ≡ corner.cells j)
vga_putc_lem_example = vga_putc_lem quiet corner 65 false corner-IsOnScreen
