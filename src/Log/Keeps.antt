-- ===== src/Log/Keeps.antt =====
-- What a line of the log does to the devices: it reads the counter, and moves the cursor of the
-- text screen by its two ports.
use mkrn.Prelude.{ℕ, ◌^◌, ◌<◌, ◌≡◌, ap, ◌∙◌, true, false, Option, none, some, List, done}
use mkrn.Cpu.{Cpu}
use mkrn.Vga.{Vga}
use mkrn.Tsc.{md_uptime_machine}
use mkrn.Prf.{VaList}
use mkrn.Console.{Console, cons_log, cons_log_vga, put_text, put_text-keeps}
use mkrn.Log.{Log, log_line, klog, vklog, kwarn, warn_level}
use mkrn.Log.Line.{line_start, log_line_lem}

-- A line of the log leaves alone what the cursor and the counter leave alone.
module _ {W X : Type 0} (cpu : Cpu W) (f : W → X)
    (cursor : (v : ℕ) (w : W) → (f (cpu.outb 0x3d4 v w) ≡ f w) × (f (cpu.outb 0x3d5 v w) ≡ f w))
    (clock : (w : W) → f (cpu.rdtsc w).1 ≡ f w) where
  log_line-keeps :
      {V : Type 0} (va : VaList V) (words : (v : V) → (va.word v).0 < 2 ^ 32)
      (level fac : Option (List ℕ)) (fmt : List ℕ) (v : V) (s : Log W)
      → (t : Log W) × (log_line cpu va level fac fmt v s ≡ done t)
        × (f t.cons.vga.machine ≡ f s.cons.vga.machine)
        × (t.interrupts ≡ s.interrupts)
  log_line-keeps va words level fac fmt v s =
      let (t, prefix, r, text, run, cons, interrupts, same) =
        log_line_lem cpu va words level fac fmt v s in
      (
        t,
        run,
        ap (λ (c : Console W). f c.vga.machine) cons
            ∙ (ap (λ (g : Vga W). f g.machine)
                  (cons_log_vga (put_text cpu (line_start cpu s) _) false)
                ∙ (put_text-keeps cpu f cursor (line_start cpu s) _
                    ∙ (ap f (md_uptime_machine cpu s.clock (cons_log s.cons true).vga.machine)
                        ∙ (clock (cons_log s.cons true).vga.machine
                            ∙ ap (λ (g : Vga W). f g.machine) (cons_log_vga s.cons true))))),
        interrupts,
      )

  pub klog-keeps :
      {V : Type 0} (va : VaList V) (words : (v : V) → (va.word v).0 < 2 ^ 32)
      (fac : Option (List ℕ)) (fmt : List ℕ) (v : V) (s : Log W)
      → (t : Log W) × (klog cpu va fac fmt v s ≡ done t)
        × (f t.cons.vga.machine ≡ f s.cons.vga.machine)
        × (t.interrupts ≡ s.interrupts)
  unfolding klog vklog
  klog-keeps va words fac fmt v s = log_line-keeps va words none fac fmt v s

  pub kwarn-keeps :
      {V : Type 0} (va : VaList V) (words : (v : V) → (va.word v).0 < 2 ^ 32)
      (fac : Option (List ℕ)) (fmt : List ℕ) (v : V) (s : Log W)
      → (t : Log W) × (kwarn cpu va fac fmt v s ≡ done t)
        × (f t.cons.vga.machine ≡ f s.cons.vga.machine)
        × (t.interrupts ≡ s.interrupts)
  unfolding kwarn
  kwarn-keeps va words fac fmt v s = log_line-keeps va words (some warn_level) fac fmt v s
