-- ===== src/Cpu.antt =====
-- machine/cpufunc.h: the instructions that the kernel's drivers are written with. They are inline
-- assembly, so a driver takes them as operations on a machine `W` that it does not look into.
use mkrn.Prelude.{ℕ}

pub record Cpu (W : Type 0) : Type 0 where
  pub inb : ℕ → W → ℕ × W
  pub outb : ℕ → ℕ → W → W
  pub rdtsc : W → ℕ × W
