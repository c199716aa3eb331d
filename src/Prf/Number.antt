-- ===== src/Prf/Number.antt =====
-- The characters of kputnum, read back as a number.
use mkrn.Prelude.{
  ℕ, zero, suc, ◌+◌, ◌-◌, ◌*◌, ◌/◌, ◌%◌, ◌^◌, ◌≤◌, ◌<◌, ◌≡◌, ◌⊎◌, inl, inr, refl, ap, sym, subst,
  ◌∙◌, arith, ltb, ◌==◌, ==_iff, if◌then◌else◌, if_true, if_false, Bool, Bool-cases, true, false,
  List, [], ◌∷◌, length, done,
}
use mkrn.Prf.{kputnum_bufsz, width_max, digit_char, put_digits, put_pad, num_fuel, kputnum}

-- The value of a digit; a space counts as 0.
abbrev char_value : ℕ → ℕ
char_value c = if ltb c 48 then 0 else if ltb c 58 then c - 48 else c - 87

-- Reading characters in a base, after a number that stands in front of them.
abbrev pub read : ℕ → ℕ → List ℕ → ℕ
read base acc [] = acc
read base acc (c ∷ cs) = read base (acc * base + char_value c) cs

-- The bases that kvprintf asks for.
abbrev pub IsBase : ℕ → Type 0
IsBase base = (base ≡ 10) ⊎ (base ≡ 16)

next_num :
    (base num : ℕ) → IsBase base → num / base * base + char_value (digit_char (num % base)) ≡ num
next_num base num (inl e) =
    subst (λ b. num / b * b + char_value (digit_char (num % b)) ≡ num) (sym e) (ground arith)
next_num base num (inr e) =
    subst (λ b. num / b * b + char_value (digit_char (num % b)) ≡ num) (sym e) (ground arith)

-- The numbers of up to `n + 1` decimal digits lie below this.
abbrev limit : ℕ → ℕ
limit zero = 10
limit (suc n) = 10 * limit n

next_limit : (base num l : ℕ) → IsBase base → num < 10 * l → num / base < l
next_limit base num l (inl e) h = subst (λ b. num / b < l) (sym e) (omega arith)
next_limit base num l (inr e) h = subst (λ b. num / b < l) (sym e) (omega arith)

last_num : (base num : ℕ) → IsBase base → num < 10 → num / base ≡ 0
last_num base num (inl e) h = subst (λ b. num / b ≡ 0) (sym e) (omega arith)
last_num base num (inr e) h = subst (λ b. num / b ≡ 0) (sym e) (omega arith)

-- What the do loop leaves of `num` in front of `buf`.
record Digits (base num k : ℕ) (buf digits : List ℕ) : Type 0 where
  value : read base 0 digits ≡ read base num buf
  few : length digits ≤ length buf + k
  some_digit : length buf < length digits

-- The last round.
stopped :
    (n k num base : ℕ) (buf : List ℕ)
    → IsBase base
    → (num / base == 0) ≡ true
    → (digits : List ℕ) × (put_digits (suc k) buf num base ≡ done digits)
      × Digits base num (suc n) buf digits
unfolding put_digits
stopped n k num base buf b e = (
  digit_char (num % base) ∷ buf,
  if_true (num / base == 0) (done (digit_char (num % base) ∷ buf)) _ e,
  record {
    value =
        ap (λ q. read base (q * base + char_value (digit_char (num % base))) buf)
          (sym ((==_iff _ _).0 e))
        ∙ ap (λ v. read base v buf) (next_num base num b);
    few = omega arith;
    some_digit = omega arith;
  },
)

put_digits_lem :
    (n k num base : ℕ) (buf : List ℕ)
    → IsBase base
    → num < limit n
    → n < k
    → (digits : List ℕ) × (put_digits k buf num base ≡ done digits)
      × Digits base num (suc n) buf digits
unfolding put_digits
put_digits_lem n zero num base buf b h l = absurd (omega arith)
put_digits_lem zero (suc k) num base buf b h l =
    stopped zero k num base buf b ((==_iff _ _).1 (last_num base num b h))
put_digits_lem (suc n) (suc k) num base buf b h l = elim (Bool-cases (num / base == 0)) [
  | inl e ↦ stopped (suc n) k num base buf b e
  | inr e ↦
      let (digits, run, r) =
        put_digits_lem n k (num / base) base (digit_char (num % base) ∷ buf) b
          (next_limit base num (limit n) b h) (omega arith) in
      (
        digits,
        if_false (num / base == 0) (done (digit_char (num % base) ∷ buf)) _ e ∙ run,
        record {
          value = r.value ∙ ap (λ v. read base v buf) (next_num base num b);
          few = omega (arith, r.few);
          some_digit = omega (arith, r.some_digit);
        },
      )
]

put_pad-value :
    (base n c : ℕ) (buf : List ℕ)
    → char_value c ≡ 0
    → read base 0 (put_pad n c buf) ≡ read base 0 buf
unfolding put_pad
put_pad-value base zero c buf z = refl
put_pad-value base (suc n) c buf z =
    put_pad-value base n c (c ∷ buf) z
    ∙ ap (λ v. read base v buf) {x = 0 * base + char_value c} {y = 0} (omega (arith, z))

length-put_pad : (n c : ℕ) (buf : List ℕ) → length (put_pad n c buf) ≡ n + length buf
unfolding put_pad
length-put_pad zero c buf = omega arith
length-put_pad (suc n) c buf = omega (arith, length-put_pad n c (c ∷ buf))

pad_value : (zeros : Bool) → char_value (if zeros then 48 else 32) ≡ 0
pad_value true = refl
pad_value false = refl

-- For an unsigned long in base 10 or 16, kputnum returns. The characters that it prints read back
-- as the number, with padding counted as 0; there is at least one, they are as many as the width
-- asks for up to WIDTH_MAX, or more, and they fit into the buffer.
pub kputnum_lem :
    (num base width : ℕ) (zeros : Bool)
    → IsBase base
    → num < 2 ^ 32
    → (chars : List ℕ) × (kputnum num base width zeros ≡ done chars)
      × (read base 0 chars ≡ num)
      × (0 < length chars)
      × (length chars ≤ kputnum_bufsz)
      × ((if ltb width_max width then width_max else width) ≤ length chars)
unfolding kputnum num_fuel
kputnum_lem num base width zeros b h =
    let (digits, run, r) = put_digits_lem 9 32 num base [] b (omega arith) (omega arith) in
    let w : ℕ = if ltb width_max width then width_max else width in
    let c : ℕ = if zeros then 48 else 32 in
    let small : w ≤ width_max = ground arith in
    (
      put_pad (w - length digits) c digits,
      rw run,
      put_pad-value base (w - length digits) c digits (pad_value zeros) ∙ r.value,
      omega (arith, length-put_pad (w - length digits) c digits, r.some_digit),
      omega (arith, length-put_pad (w - length digits) c digits, r.few),
      omega (arith, length-put_pad (w - length digits) c digits),
    )
