-- ===== src/Log/Tests.antt =====
-- A line with one number, on a text screen.
use mkrn.Prelude.{ℕ, ◌+◌, true, false}
use mkrn.Cpu.{Cpu}
use mkrn.Fb.{FbState}
use mkrn.Log.{Log}

abbrev pub ticking : Cpu ℕ
ticking = record { inb = λ p w. (0, w); outb = λ p v w. w; rdtsc = λ w. (w, w + 1) }

abbrev pub no_fb : FbState
no_fb = record {
  mem = λ x. 0;
  md_fb = record { addr = 0; width = 0; height = 0; pitch = 0; bpp = 0 };
  cfb = record {
    addr = 0;
    pitch = 0;
    width = 0;
    height = 0;
    bpp = 0;
    red_pos = 0;
    red_size = 0;
    green_pos = 0;
    green_size = 0;
    blue_pos = 0;
    blue_size = 0;
  };
  fb_cols = 0;
  fb_rows = 0;
  fb_col = 0;
  fb_row = 0;
}

abbrev pub quiet_log : Log ℕ
quiet_log = record {
  cons = record {
    vga = record { cells = λ x. 0; vga_row = 0; vga_col = 0; machine = 7000000 };
    fb = no_fb;
    use_fb = false;
    log_on = false;
  };
  clock = record { tsc_hz = 1000000; tsc_boot = 0 };
  interrupts = true;
}
