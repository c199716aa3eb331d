-- ===== src/Log/Line.antt =====
-- What a call of the log puts on the screen, and what it leaves of the state.
use mkrn.Prelude.{
  ℕ, ◌^◌, ◌<◌, ◌≡◌, refl, ap, sym, ◌∙◌, arith, true, false, Option, none, some, List, [], ◌∷◌, ◌++◌,
  done,
}
use mkrn.Cpu.{Cpu}
use mkrn.Tsc.{md_uptime}
use mkrn.Prf.{VaList, kvprintf}
use mkrn.Prf.Format.{kvprintf_lem}
use mkrn.Console.{Console, cons_log, put_text, put_text-append}
use mkrn.Log.{
  Log, Arg, number, string, next_word, arguments, fac_format, kprintf, print_stamp, print_fac,
  put_line, klog_prefix, log_line,
}

pub next_word-lt : (args : List Arg) → (next_word args).0 < 2 ^ 32
unfolding next_word
next_word-lt [] = omega arith
next_word-lt (number n ∷ args) = omega arith
next_word-lt (string s ∷ args) = omega arith

-- What kprintf prints of a format behind a bracket starts with the bracket.
bracket_lem :
    (fmt : List ℕ) (args : List Arg)
    → (cs : List ℕ) × (kprintf (b'[' ∷ fmt) args ≡ done (b'[' ∷ cs))
unfolding kprintf
bracket_lem fmt args =
    let (r, run, plain) = kvprintf_lem arguments next_word-lt fmt args in
    (r.0, rw (plain (b'[' ∷ []) (omega arith, tt)))

print_stamp_lem :
    (level : Option (List ℕ)) (sec usec : ℕ)
    → (cs : List ℕ) × (print_stamp level sec usec ≡ done (b'[' ∷ cs))
unfolding print_stamp
print_stamp_lem none sec usec = bracket_lem _ _
print_stamp_lem (some level) sec usec = bracket_lem _ _

print_fac_lem : (fac : Option (List ℕ)) → (cs : List ℕ) × (print_fac fac ≡ done cs)
unfolding print_fac kprintf
print_fac_lem none = ([], refl)
print_fac_lem (some fac) =
    let (r, run, plain) = kvprintf_lem arguments next_word-lt fac_format (string (some fac) ∷ []) in
    (r.0, rw run)

module _ {W : Type 0} (cpu : Cpu W) where
  -- The console of a line, with the machine that has read the counter.
  abbrev pub line_start : Log W → Console W
  line_start s =
      let c : Console W = cons_log s.cons true in
      record c { vga = record (c.vga) { machine = (md_uptime cpu s.clock c.vga.machine).1 } }

module _ {W : Type 0} (cpu : Cpu W) {V : Type 0} (va : VaList V) where
  -- A line of the log, of vklog or with the level of kwarn or kerror, is always printed. With
  -- the log colours on, the screen is given a prefix that starts with a bracket, the text that
  -- kvprintf makes of the format, and a newline; then the log colours are off, the interrupt flag
  -- is as it was, and the clock is the same.
  pub log_line_lem :
      (words : (v : V) → (va.word v).0 < 2 ^ 32) (level fac : Option (List ℕ)) (fmt : List ℕ)
      (v : V) (s : Log W)
      → (t : Log W) × (prefix : List ℕ) × (r : List ℕ × V) × (kvprintf va fmt v ≡ done r)
        × (log_line cpu va level fac fmt v s ≡ done t)
        × (t.cons
            ≡ cons_log
                (put_text cpu (line_start cpu s) ((b'[' ∷ prefix) ++ (r.0 ++ (b'\n' ∷ []))))
                false)
        × (t.interrupts ≡ s.interrupts)
        × (t.clock ≡ s.clock)
  unfolding log_line klog_prefix put_line
  log_line_lem words level fac fmt v s =
      let ((sec, usec), w) = md_uptime cpu s.clock (cons_log s.cons true).vga.machine in
      let (stamp, stamp_run) = print_stamp_lem level sec usec in
      let (name, name_run) = print_fac_lem fac in
      let (r, run, plain) = kvprintf_lem va words fmt v in
      let newline : List ℕ = b'\n' ∷ [] in
      let named : Console W = put_text cpu (put_text cpu (line_start cpu s) (b'[' ∷ stamp)) name in
      (
        record {
          cons = cons_log (put_text cpu (put_text cpu named r.0) newline) false;
          clock = s.clock;
          interrupts = s.interrupts;
        },
        stamp ++ name,
        r,
        run,
        rw (stamp_run, name_run, run) refl,
        ap (λ c. cons_log c false)
            (sym (
              put_text-append cpu (line_start cpu s) ((b'[' ∷ stamp) ++ name) (r.0 ++ newline)
              ∙ (ap (λ c. put_text cpu c (r.0 ++ newline))
                    (put_text-append cpu (line_start cpu s) (b'[' ∷ stamp) name)
                  ∙ put_text-append cpu named r.0 newline))),
        refl,
        refl,
      )
