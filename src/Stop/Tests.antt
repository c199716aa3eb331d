-- ===== src/Stop/Tests.antt =====
-- A machine that answers 0 at each port, with nothing recorded yet.
use mkrn.Prelude.{ℕ, ◌+◌, ◌*◌, ◌≤◌, ◌≡◌, true, false, [], ◌∷◌, done}
use mkrn.Log.{Log}
use mkrn.Log.Tests.{ticking, no_fb}
use mkrn.Stop.{halted, triple_fault, kbc_timeout, reboot, poweroff}
use mkrn.Stop.Ports.{
  output, output_word, Recorded, recorded, recorded_outw, writes, reads, accesses, reboot_lem,
  poweroff_lem,
}

abbrev fresh_log : Log (Recorded ℕ)
fresh_log = record {
  cons = record {
    vga = record { cells = λ x. 0; vga_row = 0; vga_col = 0; machine = (7000000, []) };
    fb = no_fb;
    use_fb = false;
    log_on = false;
  };
  clock = record { tsc_hz = 1000000; tsc_boot = 0 };
  interrupts = true;
}

reboot_lem_example :
    (t : Log (Recorded ℕ)) × (reboot (recorded ticking) fresh_log ≡ done (triple_fault, t))
    × (writes (accesses t) ≡ output 0x64 0xfe ∷ writes (accesses fresh_log))
    × (reads (accesses t) ≤ reads (accesses fresh_log) + 2 * kbc_timeout + 2)
    × (t.interrupts ≡ false)
reboot_lem_example = reboot_lem ticking fresh_log

poweroff_lem_example :
    (t : Log (Recorded ℕ)) × (poweroff (recorded ticking) (recorded_outw (λ p v w. w)) fresh_log
      ≡ done (halted, t))
    × (writes (accesses t)
        ≡ output_word 0x4004 0x3400
          ∷ output_word 0xb004 0x2000
          ∷ output_word 0x604 0x2000
          ∷ writes (accesses fresh_log))
    × (t.interrupts ≡ false)
poweroff_lem_example = poweroff_lem ticking (λ p v w. w) fresh_log
