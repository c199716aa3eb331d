-- ===== src/Tsc/Tests.antt =====
-- A division of a number above 2 ^ 29.
use mkrn.Prelude.{◌/◌, ◌%◌, ◌≡◌, refl, arith}
use mkrn.Tsc.{udiv64}
use mkrn.Tsc.Uptime.{udiv64_lem}

udiv64_lem_example : udiv64 1000000007 17 ≡ (1000000007 / 17, 1000000007 % 17)
udiv64_lem_example = udiv64_lem 1000000007 17 (omega arith) (omega arith) (omega arith)

division_run : udiv64 1000000007 17 ≡ (58823529, 14)
unfolding udiv64 mkrn.Tsc.udiv_loop
division_run = refl
