-- ===== src/Tsc.antt =====
-- amd64/tsc.c: the boot clock, from the time stamp counter. `uint64_t` wraps at 2 ^ 64, and
-- `unsigned long` has 32 bits.
pub mod Uptime
pub mod Tests
use mkrn.Prelude.{
  ℕ, zero, suc, ◌+◌, ◌-◌, ◌*◌, ◌/◌, ◌%◌, ◌^◌, bit_and, bit_or, u32_mod, u64_mod, leb, ◌==◌,
  if◌then◌else◌, ◌≡◌, refl, Bool, Outcome, done, panic, ◌>>=◌, tsc_no_pit,
}
use mkrn.Cpu.{Cpu}

-- PIT_HZ of machine/pit.h
abbrev pub pit_hz : ℕ
pit_hz = 1193182

abbrev cal_ms : ℕ
cal_ms = 50

abbrev cal_latch : ℕ
cal_latch = pit_hz * cal_ms / 1000

abbrev cal_timeout : ℕ
cal_timeout = 10000000

pub record Tsc : Type 0 where
  pub tsc_hz : ℕ
  pub tsc_boot : ℕ

-- `q | (uint64_t)1 << i`
abbrev pub or_bit : ℕ → ℕ → ℕ
or_bit q i = if q / 2 ^ i % 2 == 0 then q + 2 ^ i else q

-- The rounds `i = k - 1`, ..., 0, with the quotient and the remainder that they leave. The bit
-- that `r |= (n >> i) & 1` sets is free after `r <<= 1`.
pub udiv_loop : ℕ → ℕ → ℕ → ℕ → ℕ → ℕ × ℕ
udiv_loop zero n d q r = (q, r)
udiv_loop (suc i) n d q r =
    let r' : ℕ = r * 2 % u64_mod + n / 2 ^ i % 2 in
    let fits : Bool = leb d r' in
    udiv_loop i n d (if fits then or_bit q i else q) (if fits then r' - d else r')

-- The quotient and `*rem`
pub udiv64 : ℕ → ℕ → ℕ × ℕ
udiv64 n d = udiv_loop 64 n d 0 0

abbrev pub sub64 : ℕ → ℕ → ℕ
sub64 a b = (a + u64_mod - b) % u64_mod

module _ {W : Type 0} (cpu : Cpu W) where
  -- The loop that waits for the pulse, with `n + 1` the value of `timeout`.
  calibrate_wait : ℕ → W → Outcome W
  calibrate_wait zero w =
      let (v, w') = cpu.inb 0x61 w in if bit_and v 0x20 == 0 then panic tsc_no_pit else done w'
  calibrate_wait (suc n) w =
      let (v, w') = cpu.inb 0x61 w in
      let rest : Outcome W = calibrate_wait n w' in if bit_and v 0x20 == 0 then rest else done w'

  pit_calibrate_tsc : W → Outcome (ℕ × W)
  pit_calibrate_tsc w = do
    let (v, w0) = cpu.inb 0x61 w
    let w1 = cpu.outb 0x61 (bit_or (bit_and v 0xfc) 0x01) w0
    let w2 = cpu.outb 0x43 0xb0 w1
    let w3 = cpu.outb 0x42 (bit_and cal_latch 0xff) w2
    let w4 = cpu.outb 0x42 (bit_and (cal_latch / 2 ^ 8) 0xff) w3
    let (t0, w5) = cpu.rdtsc w4
    w6 ← calibrate_wait (cal_timeout - 1) w5
    let (t1, w7) = cpu.rdtsc w6
    done (sub64 t1 t0 * 1000 % u64_mod / cal_ms, w7)

  tsc_calibrate : W → Outcome (Tsc × W)
  tsc_calibrate w = do
    (hz, w') ← pit_calibrate_tsc w
    let (boot, w'') = cpu.rdtsc w'
    done (record { tsc_hz = hz; tsc_boot = boot }, w'')

  -- `*sec` and `*usec`
  pub md_uptime : Tsc → W → (ℕ × ℕ) × W
  md_uptime s w =
      let (now, w') = cpu.rdtsc w in
      let cycles : ℕ = sub64 now s.tsc_boot in
      let cycles_per_us : ℕ = (udiv64 s.tsc_hz 1000000).0 in
      let us : ℕ = (udiv64 cycles cycles_per_us).0 in
      ((((udiv64 us 1000000).0 % u32_mod), (udiv64 us 1000000).1 % u32_mod), w')

  pub md_uptime_machine : (s : Tsc) (w : W) → (md_uptime s w).1 ≡ (cpu.rdtsc w).1
  unfolding md_uptime
  md_uptime_machine s w = refl
