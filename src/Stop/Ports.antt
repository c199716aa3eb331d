-- ===== src/Stop/Ports.antt =====
-- What reboot and poweroff do to the ports, on a machine of any behaviour that keeps a record.
use mkrn.Prelude.{
  ℕ, zero, suc, ◌+◌, ◌*◌, ◌≤◌, ◌≡◌, refl, ap, ◌∙◌, arith, bit_and, ◌==◌, ◌||◌, if◌then◌else◌,
  Bool-cases, false, inl, inr, some, List, [], ◌∷◌, done, codes,
}
use mkrn.Cpu.{Cpu}
use mkrn.Log.{Log, arguments, klog}
use mkrn.Log.Line.{next_word-lt}
use mkrn.Log.Keeps.{klog-keeps, kwarn-keeps}
use mkrn.Stop.{
  halted, triple_fault, kbc_timeout, on_machine, cli, kbc_wait_loop, kbc_wait_input_empty, drain,
  pulse, reboot, known_ports, poweroff,
}

pub data Access : Type 0 where
  input : ℕ → Access
  output : ℕ → ℕ → Access
  output_word : ℕ → ℕ → Access

-- A machine with the accesses to its ports so far, the last one first.
abbrev pub Recorded : Type 0 → Type 0
Recorded W = W × List Access

abbrev pub recorded : {W : Type 0} → Cpu W → Cpu (Recorded W)
recorded cpu = record {
  inb = λ p r. ((cpu.inb p r.0).0, ((cpu.inb p r.0).1, input p ∷ r.1));
  outb = λ p v r. (cpu.outb p v r.0, output p v ∷ r.1);
  rdtsc = λ r. ((cpu.rdtsc r.0).0, ((cpu.rdtsc r.0).1, r.1));
}

abbrev pub recorded_outw : {W : Type 0} → (ℕ → ℕ → W → W) → ℕ → ℕ → Recorded W → Recorded W
recorded_outw outw p v r = (outw p v r.0, output_word p v ∷ r.1)

-- What was written, but to the cursor of the text screen.
abbrev pub writes : List Access → List Access
writes [] = []
writes (input p ∷ r) = writes r
writes (output p v ∷ r) = if p == 0x3d4 || p == 0x3d5 then writes r else output p v ∷ writes r
writes (output_word p v ∷ r) = output_word p v ∷ writes r

abbrev pub reads : List Access → ℕ
reads [] = 0
reads (input p ∷ r) = suc (reads r)
reads (output p v ∷ r) = reads r
reads (output_word p v ∷ r) = reads r

abbrev pub accesses : {W : Type 0} → Log (Recorded W) → List Access
accesses s = s.cons.vga.machine.1

abbrev told : {W : Type 0} → Recorded W → List Access × ℕ
told r = (writes r.1, reads r.1)

module _ {W : Type 0} (cpu : Cpu W) where
  kbc_wait_loop_lem :
      (n : ℕ) (r : Recorded W)
      → (writes (kbc_wait_loop (recorded cpu) n r).1 ≡ writes r.1)
        × (reads (kbc_wait_loop (recorded cpu) n r).1 ≤ reads r.1 + n)
  unfolding kbc_wait_loop
  kbc_wait_loop_lem zero r = (refl, omega arith)
  kbc_wait_loop_lem (suc n) r = elim (Bool-cases (bit_and (cpu.inb 0x64 r.0).0 0x02 == 0)) [
    | inl e ↦ rw e (refl, omega arith)
    | inr e ↦
        let (w, l) = kbc_wait_loop_lem n ((cpu.inb 0x64 r.0).1, input 0x64 ∷ r.1) in
        rw e (w, omega (arith, l))
  ]

  drain_lem :
      (r : Recorded W)
      → (writes (drain (recorded cpu) r).1 ≡ writes r.1)
        × (reads (drain (recorded cpu) r).1 ≤ reads r.1 + 2)
  unfolding drain
  drain_lem r = elim (Bool-cases (bit_and (cpu.inb 0x64 r.0).0 0x01 == 0)) [
    | inl e ↦ rw e (refl, omega arith)
    | inr e ↦ rw e (refl, omega arith)
  ]

  pulse_lem :
      (r : Recorded W)
      → (writes (pulse (recorded cpu) r).1 ≡ output 0x64 0xfe ∷ writes r.1)
        × (reads (pulse (recorded cpu) r).1 ≤ reads r.1 + 2 * kbc_timeout + 2)
  unfolding pulse kbc_wait_input_empty
  pulse_lem r =
      let r1 : Recorded W = drain (recorded cpu) r in
      let r2 : Recorded W = kbc_wait_loop (recorded cpu) kbc_timeout r1 in
      let (w1, l1) = drain_lem r in
      let (w2, l2) = kbc_wait_loop_lem kbc_timeout r1 in
      let (w3, l3) =
        kbc_wait_loop_lem kbc_timeout (cpu.outb 0x64 0xfe r2.0, output 0x64 0xfe ∷ r2.1) in
      (w3 ∙ ap (λ t. output 0x64 0xfe ∷ t) (w2 ∙ w1), omega (arith, l1, l2, l3))

  -- A line of the log writes to the cursor only, and reads no port.
  line :
      (fac fmt : List ℕ) (s : Log (Recorded W))
      → (t : Log (Recorded W)) × (klog (recorded cpu) arguments (some fac) fmt [] s ≡ done t)
        × (told t.cons.vga.machine ≡ told s.cons.vga.machine)
        × (t.interrupts ≡ s.interrupts)
  line fac fmt s =
      klog-keeps (recorded cpu) told (λ v w. (refl, refl)) (λ w. refl) arguments next_word-lt
        (some fac) fmt [] s

  -- Whatever the machine answers at its ports, reboot comes to the triple fault with interrupts
  -- off. Besides moving the cursor of the text screen it writes to no port but 0x64, there once
  -- and the reset command, and it reads ports at most 2 * KBC_TIMEOUT + 2 times.
  pub reboot_lem :
      (s : Log (Recorded W))
      → (t : Log (Recorded W)) × (reboot (recorded cpu) s ≡ done (triple_fault, t))
        × (writes (accesses t) ≡ output 0x64 0xfe ∷ writes (accesses s))
        × (reads (accesses t) ≤ reads (accesses s) + 2 * kbc_timeout + 2)
        × (t.interrupts ≡ false)
  unfolding reboot
  reboot_lem s =
      let (s1, run1, keeps1, off1) =
        line (codes "reboot") (codes "pulsando linha de reset via 8042") (cli s) in
      let (s2, run2, keeps2, off2) =
        line (codes "reboot") (codes "8042 nao respondeu, forcando triple fault")
          (on_machine (pulse (recorded cpu)) s1) in
      let (sent, few) = pulse_lem s1.cons.vga.machine in
      (
        s2,
        rw (run1, run2),
        ap (λ p. p.0) keeps2 ∙ (sent ∙ ap (λ p. output 0x64 0xfe ∷ p.0) keeps1),
        omega (arith, ap (λ p. p.1) keeps2, ap (λ p. p.1) keeps1, few),
        off2 ∙ off1,
      )

  -- Whatever the machine answers at its ports, poweroff comes to its endless halt with interrupts
  -- off. Besides moving the cursor of the text screen it writes the three words to the three ports
  -- that it knows, in their order, and to no other port.
  pub poweroff_lem :
      (outw : ℕ → ℕ → W → W) (s : Log (Recorded W))
      → (t : Log (Recorded W)) × (poweroff (recorded cpu) (recorded_outw outw) s ≡ done (halted, t))
        × (writes (accesses t)
            ≡ output_word 0x4004 0x3400
              ∷ output_word 0xb004 0x2000
              ∷ output_word 0x604 0x2000
              ∷ writes (accesses s))
        × (t.interrupts ≡ false)
  unfolding poweroff known_ports
  poweroff_lem outw s =
      let (s1, run1, keeps1, off1) =
        line (codes "poweroff") (codes "tentando desligar via portas conhecidas de emulador")
          (cli s) in
      let (s2, run2, keeps2, off2) =
        kwarn-keeps (recorded cpu) told (λ v w. (refl, refl)) (λ w. refl) arguments next_word-lt
          (some (codes "poweroff")) (codes "desligamento automatico indisponivel; travando") []
          (on_machine (known_ports (recorded cpu) (recorded_outw outw)) s1) in
      (
        s2,
        rw (run1, run2),
        ap (λ p. p.0) keeps2
            ∙ ap
                (λ p.
                  output_word 0x4004 0x3400
                  ∷ output_word 0xb004 0x2000
                  ∷ output_word 0x604 0x2000
                  ∷ p.0)
                keeps1,
        off2 ∙ off1,
      )
