-- ===== src/Prf.antt =====
-- src/kern/subr_prf.c: the kernel's printf. Characters are their codes, a string is the list of the
-- characters in front of its terminator, and what is handed to kputc() is a list as well. The
-- buffer of kputnum has its last character first, which is the order of output. `int`, `long` and
-- pointers have 32 bits on the target.
pub mod Number
pub mod Format
pub mod Tests
use mkrn.Prelude.{
  ℕ, zero, suc, ◌+◌, ◌-◌, ◌*◌, ◌/◌, ◌%◌, ◌^◌, ltb, leb, ◌&&◌, ◌||◌, false, true, Option, none, some,
  ◌++◌, ◌==◌, if◌then◌else◌, Bool, List, [], ◌∷◌, length, Outcome, done, out_of_fuel, ◌>>=◌,
}

abbrev pub kputnum_bufsz : ℕ
kputnum_bufsz = 22

abbrev pub width_max : ℕ
width_max = kputnum_bufsz - 2

-- `digits[d]`, for `d < 16`
abbrev pub digit_char : ℕ → ℕ
digit_char d = if ltb d 10 then 48 + d else 87 + d

-- The do loop of kputnum.
pub put_digits : ℕ → List ℕ → ℕ → ℕ → Outcome (List ℕ)
put_digits zero buf num base = out_of_fuel
put_digits (suc fuel) buf num base =
    let buf' : List ℕ = digit_char (num % base) ∷ buf in
    let rest : Outcome (List ℕ) = put_digits fuel buf' (num / base) base in
    if num / base == 0 then done buf' else rest

-- The rounds of the loop that fills up to the width.
pub put_pad : ℕ → ℕ → List ℕ → List ℕ
put_pad zero c buf = buf
put_pad (suc n) c buf = put_pad n c (c ∷ buf)

-- An unsigned long has at most 32 digits in any base.
pub num_fuel : ℕ
num_fuel = 32

-- The characters that kputnum hands to kputc().
pub kputnum : ℕ → ℕ → ℕ → Bool → Outcome (List ℕ)
kputnum num base width zeros = do
  digits ← put_digits num_fuel [] num base
  let w = if ltb width_max width then width_max else width
  done (put_pad (w - length digits) (if zeros then 48 else 32) digits)

-- `c >= '0' && c <= '9'`
abbrev pub is_digit : ℕ → Bool
is_digit c = leb b'0' c && leb c b'9'

-- The loop that reads the width, with what is left of the format.
pub read_width : ℕ → List ℕ → ℕ × List ℕ
read_width w [] = (w, [])
read_width w (c ∷ cs) =
    if is_digit c
    then read_width (if ltb w 1000 then w * 10 + (c - b'0') else w) cs
    else (w, c ∷ cs)

-- `if (*fmt == c) fmt++`, with the test
pub skip : ℕ → List ℕ → Bool × List ℕ
skip c [] = (false, [])
skip c (x ∷ xs) = if x == c then (true, xs) else (false, x ∷ xs)

-- What stands behind a percent sign: the conversion, the width, the flag for zeros, and the rest
-- of the format. There is none where the format ends first.
pub data Spec : Type 0 where
  cut : Spec
  conversion : ℕ → ℕ → Bool → List ℕ → Spec

pub read_conversion : ℕ → Bool → List ℕ → Spec
read_conversion width zeros [] = cut
read_conversion width zeros (c ∷ cs) = conversion c width zeros cs

pub read_spec : List ℕ → Spec
read_spec fmt =
    let (zeros, fmt1) = skip b'0' fmt in
    let (width, fmt2) = read_width 0 fmt1 in
    let (long, fmt3) = skip b'l' fmt2 in read_conversion width zeros fmt3

abbrev null_text : List ℕ
null_text = b'(' ∷ b'n' ∷ b'u' ∷ b'l' ∷ b'l' ∷ b')' ∷ []

kputs : Option (List ℕ) → List ℕ
kputs none = null_text
kputs (some s) = s

-- va_arg(), of stdarg.h: the next argument as a word of 32 bits, or as the string that it points
-- to, if it is not NULL; and the list of the arguments that are left.
pub record VaList (V : Type 0) : Type 0 where
  pub word : V → ℕ × V
  pub text : V → Option (List ℕ) × V

module _ {V : Type 0} (va : VaList V) where
  pub put_number : ℕ → ℕ → Bool → V → Outcome (List ℕ × V)
  put_number base width zeros ap = do
    let (n, ap') = va.word ap
    cs ← kputnum n base width zeros
    done (cs, ap')

  -- The case for `%d`, with the sign in front of the padding.
  pub put_signed : ℕ → Bool → V → Outcome (List ℕ × V)
  put_signed width zeros ap = do
    let (n, ap') = va.word ap
    cs ← kputnum (if leb (2 ^ 31) n then 2 ^ 32 - n else n) 10 width zeros
    done (if leb (2 ^ 31) n then b'-' ∷ cs else cs, ap')

  pub put_pointer : V → Outcome (List ℕ × V)
  put_pointer ap = do
    let (n, ap') = va.word ap
    cs ← kputnum n 16 0 false
    done (b'0' ∷ b'x' ∷ cs, ap')

  -- The switch of kvprintf.
  pub convert : ℕ → ℕ → Bool → V → Outcome (List ℕ × V)
  convert c width zeros ap =
      if (c == b'd') || (c == b'i')
      then put_signed width zeros ap
      else if c == b'u'
      then put_number 10 width zeros ap
      else if c == b'x'
      then put_number 16 width zeros ap
      else if c == b'p'
      then put_pointer ap
      else if c == b's'
      then done (kputs (va.text ap).0, (va.text ap).1)
      else if c == b'c'
      then done ((va.word ap).0 ∷ [], (va.word ap).1)
      else if c == b'%'
      then done (b'%' ∷ [], ap)
      else done (b'%' ∷ c ∷ [], ap)

  -- What follows a percent sign, with `loop` for the rounds that are left.
  pub put_spec : (List ℕ → V → Outcome (List ℕ × V)) → Spec → V → Outcome (List ℕ × V)
  put_spec loop cut ap = done ([], ap)
  put_spec loop (conversion c width zeros fmt) ap = do
    (out, ap') ← convert c width zeros ap
    (rest, ap'') ← loop fmt ap'
    done (out ++ rest, ap'')

  -- Each round of the loop takes a character of the format or more.
  pub kvprintf_loop : ℕ → List ℕ → V → Outcome (List ℕ × V)
  kvprintf_loop zero fmt ap = out_of_fuel
  kvprintf_loop (suc fuel) [] ap = done ([], ap)
  kvprintf_loop (suc fuel) (c ∷ cs) ap =
      let literal : Outcome (List ℕ × V) =
        kvprintf_loop fuel cs ap >>= (λ r. done (c ∷ r.0, r.1)) in
      let converted : Outcome (List ℕ × V) =
        put_spec (λ fmt ap'. kvprintf_loop fuel fmt ap') (read_spec cs) ap in
      if c == b'%' then converted else literal

  pub kvprintf : List ℕ → V → Outcome (List ℕ × V)
  kvprintf fmt ap = kvprintf_loop (suc (length fmt)) fmt ap
