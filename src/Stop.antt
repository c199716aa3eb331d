-- ===== src/Stop.antt =====
-- amd64/reboot.c and src/kern/subr_panic.c: the routines that do not return. They are run up to
-- the place where they stop: the loop over `hlt`, or `int $3` with an interrupt table of limit 0.
pub mod Ports
pub mod Tests
use mkrn.Prelude.{
  ℕ, zero, suc, bit_and, ◌==◌, if◌then◌else◌, Bool, true, false, some, List, [], Outcome, done,
  codes, ◌>>=◌,
}
use mkrn.Cpu.{Cpu}
use mkrn.Prf.{VaList}
use mkrn.Log.{Log, arguments, vklog, klog, kwarn}

pub data Ending : Type 0 where
  halted triple_fault : Ending

abbrev pub kbc_timeout : ℕ
kbc_timeout = 0x100000

abbrev pub on_machine : {W : Type 0} → (W → W) → Log W → Log W
on_machine f s = record s {
  cons = record (s.cons) { vga = record (s.cons.vga) { machine = f s.cons.vga.machine } };
}

abbrev pub cli : {W : Type 0} → Log W → Log W
cli s = record s { interrupts = false }

module _ {W : Type 0} (cpu : Cpu W) where
  -- The rounds left of the loop of kbc_wait_input_empty.
  pub kbc_wait_loop : ℕ → W → W
  kbc_wait_loop zero w = w
  kbc_wait_loop (suc n) w =
      let (v, w') = cpu.inb 0x64 w in
      let rest : W = kbc_wait_loop n w' in if bit_and v 0x02 == 0 then w' else rest

  pub kbc_wait_input_empty : W → W
  kbc_wait_input_empty w = kbc_wait_loop kbc_timeout w

  pub drain : W → W
  drain w = let (v, w') = cpu.inb 0x64 w in if bit_and v 0x01 == 0 then w' else (cpu.inb 0x60 w').1

  pub pulse : W → W
  pulse w = kbc_wait_input_empty (cpu.outb 0x64 0xfe (kbc_wait_input_empty (drain w)))

  pub reboot : Log W → Outcome (Ending × Log W)
  reboot s = do
    s1 ←
        klog cpu arguments (some (codes "reboot")) (codes "pulsando linha de reset via 8042") []
          (cli s)
    s2 ←
        klog cpu arguments (some (codes "reboot"))
          (codes "8042 nao respondeu, forcando triple fault") [] (on_machine pulse s1)
    done (triple_fault, s2)

  module _ (outw : ℕ → ℕ → W → W) where
    pub known_ports : W → W
    known_ports w = outw 0x4004 0x3400 (outw 0xb004 0x2000 (outw 0x604 0x2000 w))

    pub poweroff : Log W → Outcome (Ending × Log W)
    poweroff s = do
      s1 ←
          klog cpu arguments (some (codes "poweroff"))
            (codes "tentando desligar via portas conhecidas de emulador") [] (cli s)
      s2 ←
          kwarn cpu arguments (some (codes "poweroff"))
            (codes "desligamento automatico indisponivel; travando") [] (on_machine known_ports s1)
      done (halted, s2)

  -- The argument and the first part of the result are the static variable `panicking`.
  pub panic : {V : Type 0} → VaList V → Bool → List ℕ → V → Log W → Outcome (Bool × Log W)
  panic va true fmt ap s = done (true, cli s)
  panic va false fmt ap s = do
    t ← vklog cpu va (some (codes "panic")) fmt ap (cli s)
    done (true, t)
