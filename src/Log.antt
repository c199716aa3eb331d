-- ===== src/Log.antt =====
-- src/kern/subr_log.c: the lines of the log. kvprintf() is the model of Prf, which gives the
-- characters that it hands to kputc().
pub mod Line
pub mod Keeps
pub mod Tests
use mkrn.Prelude.{
  ℕ, ◌%◌, ◌^◌, Bool, true, false, Option, none, some, List, [], ◌∷◌, ◌++◌, Outcome, done, ◌>>=◌,
}
use mkrn.Cpu.{Cpu}
use mkrn.Tsc.{Tsc, md_uptime}
use mkrn.Prf.{VaList, kvprintf}
use mkrn.Console.{Console, cons_log, put_text}

-- `interrupts` is the interrupt flag, which cli_save() clears and sti_restore() puts back.
pub record Log (W : Type 0) : Type 0 where
  pub cons : Console W
  pub clock : Tsc
  pub interrupts : Bool

-- The arguments of a call of kprintf(), which has one for each conversion of its format and of its
-- type; a number is a word of 32 bits.
pub data Arg : Type 0 where
  number : ℕ → Arg
  string : Option (List ℕ) → Arg

pub next_word : List Arg → ℕ × List Arg
next_word [] = (0, [])
next_word (number n ∷ args) = (n % 2 ^ 32, args)
next_word (string s ∷ args) = (0, args)

pub next_text : List Arg → Option (List ℕ) × List Arg
next_text [] = (none, [])
next_text (number n ∷ args) = (none, args)
next_text (string s ∷ args) = (s, args)

abbrev pub arguments : VaList (List Arg)
arguments = record { word = next_word; text = next_text }

-- "%5lu.%06lu] "
abbrev stamp_format : List ℕ
stamp_format =
    b'%' ∷ b'5' ∷ b'l' ∷ b'u' ∷ b'.' ∷ b'%' ∷ b'0' ∷ b'6' ∷ b'l' ∷ b'u' ∷ b']' ∷ b' ' ∷ []

-- "[%s | %5lu.%06lu] " and "[%5lu.%06lu] "
abbrev level_format : List ℕ
level_format = b'[' ∷ b'%' ∷ b's' ∷ b' ' ∷ b'|' ∷ b' ' ∷ stamp_format

abbrev plain_format : List ℕ
plain_format = b'[' ∷ stamp_format

-- "%s: "
abbrev pub fac_format : List ℕ
fac_format = b'%' ∷ b's' ∷ b':' ∷ b' ' ∷ []

abbrev pub warn_level : List ℕ
warn_level = b'W' ∷ b'A' ∷ b'R' ∷ b'N' ∷ []

abbrev error_level : List ℕ
error_level = b'E' ∷ b'R' ∷ b'R' ∷ b'O' ∷ b'R' ∷ []

pub kprintf : List ℕ → List Arg → Outcome (List ℕ)
kprintf fmt args = kvprintf arguments fmt args >>= (λ r. done r.0)

-- The two tests of klog_prefix, for `level` and for `fac`.
pub print_stamp : Option (List ℕ) → ℕ → ℕ → Outcome (List ℕ)
print_stamp none sec usec = kprintf plain_format (number sec ∷ number usec ∷ [])
print_stamp (some level) sec usec =
    kprintf level_format (string (some level) ∷ number sec ∷ number usec ∷ [])

pub print_fac : Option (List ℕ) → Outcome (List ℕ)
print_fac none = done []
print_fac (some fac) = kprintf fac_format (string (some fac) ∷ [])

module _ {W : Type 0} (cpu : Cpu W) where
  pub put_line : Log W → List ℕ → Log W
  put_line s text = record s { cons = put_text cpu s.cons text }

  pub klog_prefix : Option (List ℕ) → Option (List ℕ) → Log W → Outcome (Log W)
  klog_prefix level fac s = do
    let ((sec, usec), w) = md_uptime cpu s.clock s.cons.vga.machine
    let s1 = record s { cons = record (s.cons) { vga = record (s.cons.vga) { machine = w } } }
    stamp ← print_stamp level sec usec
    name ← print_fac fac
    done (put_line (put_line s1 stamp) name)

  module _ {V : Type 0} (va : VaList V) where
    -- What vklog, kwarn and kerror have in common, with the level that they pass on.
    pub log_line : Option (List ℕ) → Option (List ℕ) → List ℕ → V → Log W → Outcome (Log W)
    log_line level fac fmt ap s = do
      let flags = s.interrupts
      s1 ← klog_prefix level fac (record s { interrupts = false; cons = cons_log s.cons true })
      (text, ap') ← kvprintf va fmt ap
      let s2 = put_line (put_line s1 text) (b'\n' ∷ [])
      done (record s2 { cons = cons_log s2.cons false; interrupts = flags })

    pub vklog : Option (List ℕ) → List ℕ → V → Log W → Outcome (Log W)
    vklog fac fmt ap s = log_line none fac fmt ap s

    -- The argument list that klog starts is the `ap` of vklog.
    pub klog : Option (List ℕ) → List ℕ → V → Log W → Outcome (Log W)
    klog fac fmt ap s = vklog fac fmt ap s

    pub kwarn : Option (List ℕ) → List ℕ → V → Log W → Outcome (Log W)
    kwarn fac fmt ap s = log_line (some warn_level) fac fmt ap s

    kerror : Option (List ℕ) → List ℕ → V → Log W → Outcome (Log W)
    kerror fac fmt ap s = log_line (some error_level) fac fmt ap s
