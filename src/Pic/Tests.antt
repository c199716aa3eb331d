-- ===== src/Pic/Tests.antt =====
-- Controllers that are two bytes, one for the mask of each.
use mkrn.Prelude.{ℕ, ◌%◌, refl, arith, ◌==◌, if◌then◌else◌}
use mkrn.Cpu.{Cpu}
use mkrn.Pic.Masks.{Controllers}

abbrev latches : Cpu (ℕ → ℕ)
latches = record {
  inb = λ p w. (w p % 256, w);
  outb = λ p v w q. if q == p then v else w q;
  rdtsc = λ w. (0, w);
}

abbrev latch : ℕ → (ℕ → ℕ) → ℕ
latch p w = w p % 256

latches-Controllers : Controllers latches latch
latches-Controllers = record {
  byte = λ p w. omega arith;
  read = λ p w d. refl;
  read_keeps = λ p q w d. refl;
  write = λ p q v w d l. ground (arith, l);
}
