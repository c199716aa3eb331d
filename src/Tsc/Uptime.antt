-- ===== src/Tsc/Uptime.antt =====
-- udiv64 against the division of the natural numbers, and what md_uptime makes of it.
use mkrn.Prelude.{
  ℕ, zero, suc, ◌+◌, ◌-◌, ◌*◌, ◌/◌, ◌%◌, ◌^◌, ◌≤◌, ◌<◌, ◌≡◌, refl, ap, ap₂, sym, ◌∙◌, arith,
  u32_mod, u64_mod, leb, ◌==◌, Bool-cases, true, inl, inr, if_true, if_false,
}
use native.Mathlib.Nat.{
  pow-suc, one-le-pow, mul_assoc, mul_comm, mul_right_comm, mul-add, add-mul, mul-one,
  mul-div_cancel_left, div-div-eq-div-mul, div-eq_of_lt-le, div-add-mod, div-le_self, mod-eq_of_lt,
}
use mkrn.Cpu.{Cpu}
use mkrn.Tsc.{Tsc, or_bit, udiv_loop, udiv64, sub64, md_uptime}

-- The bits above bit `i` do not change when bit `i` is set.
double : (k i : ℕ) → 2 ^ suc i * k ≡ 2 ^ i * (k * 2)
double k i =
    ap (λ p. p * k) (pow-suc 2 i) ∙ (mul_assoc (2 ^ i) 2 k ∙ ap (λ x. 2 ^ i * x) (mul_comm 2 k))

or_bit_lem : (k i : ℕ) → or_bit (2 ^ i * (k * 2)) i ≡ 2 ^ i * (k * 2 + 1)
or_bit_lem k i =
    if_true (2 ^ i * (k * 2) / 2 ^ i % 2 == 0) _ _ free
    ∙ sym (mul-add (2 ^ i) (k * 2) 1 ∙ ap (λ x. 2 ^ i * (k * 2) + x) (mul-one (2 ^ i)))
  where
    free : (2 ^ i * (k * 2) / 2 ^ i % 2 == 0) ≡ true
    free = rw (mul-div_cancel_left (k * 2) (one-le-pow i 2 (omega arith))) (ground arith)

half : (n i : ℕ) → n / 2 ^ i ≡ n / 2 ^ suc i * 2 + n / 2 ^ i % 2
half n i = omega (arith, ap (λ p. n / p) (pow-suc 2 i) ∙ sym (div-div-eq-div-mul n (2 ^ i) 2))

udiv_loop_lem :
    (i n d k r : ℕ)
    → k * d + r ≡ n / 2 ^ i
    → r < d
    → d ≤ 2 ^ 63
    → (t : ℕ × ℕ) × (udiv_loop i n d (2 ^ i * k) r ≡ t) × (t.0 * d + t.1 ≡ n) × (t.1 < d)
unfolding udiv_loop
udiv_loop_lem zero n d k r e l b = ((1 * k, r), refl, omega (arith, e), l)
udiv_loop_lem (suc i) n d k r e l b = elim (Bool-cases (leb d r')) [
  | inl y ↦
      let (t, f, sum, less) =
        udiv_loop_lem i n d (k * 2 + 1) (r' - d) (ground (arith, y, whole, expand 1))
          (ground (arith, y, l, b)) b in
      (
        t,
        ap₂ (udiv_loop i n d)
              (if_true _ _ _ y ∙ (ap (λ q. or_bit q i) (double k i) ∙ or_bit_lem k i))
              (if_true _ _ _ y)
            ∙ f,
        sum,
        less,
      )
  | inr y ↦
      let (t, f, sum, less) =
        udiv_loop_lem i n d (k * 2) r' (omega (arith, whole, expand 0)) (ground (arith, y)) b in
      (t, ap₂ (udiv_loop i n d) (if_false _ _ _ y ∙ double k i) (if_false _ _ _ y) ∙ f, sum, less)
]
  where
    r' : ℕ
    r' = r * 2 % u64_mod + n / 2 ^ i % 2

    expand : (c : ℕ) → (k * 2 + c) * d ≡ k * d * 2 + c * d
    expand c = add-mul (k * 2) c d ∙ ap (λ x. x + c * d) (mul_right_comm k 2 d)

    whole : k * d * 2 + r' ≡ n / 2 ^ i
    whole = omega (arith, half n i, e, l, b)

-- udiv64 is division: on 64-bit numbers, with a divisor from 1 to 2 ^ 63, it returns the quotient
-- and the remainder.
pub udiv64_lem : (n d : ℕ) → n < 2 ^ 64 → 0 < d → d ≤ 2 ^ 63 → udiv64 n d ≡ (n / d, n % d)
unfolding udiv64
udiv64_lem n d l p b =
    let (t, f, whole, less) = udiv_loop_lem 64 n d 0 0 (omega (arith, l)) p b in
    let quotient : n / d ≡ t.0 =
      div-eq_of_lt-le d (omega (arith, whole)) (omega (arith, whole, less, add-mul t.0 1 d)) in
    f
    ∙ ap₂ (λ a b. (a, b)) (sym quotient)
        (omega (arith, whole, div-add-mod n d, mul_comm (n / d) d, ap (λ x. x * d) quotient))

module _ {W : Type 0} (cpu : Cpu W) where
  -- With a calibrated frequency of at least 1 MHz and a counter reading of 64 bits, md_uptime
  -- gives the microseconds since boot that the whole cycles per microsecond count, as seconds
  -- (wrapped to 32 bits) and a rest below one second.
  md_uptime_lem :
      (s : Tsc) (w : W)
      → 1000000 ≤ s.tsc_hz
      → s.tsc_hz < 2 ^ 64
      → (us : ℕ) × (us ≡ sub64 (cpu.rdtsc w).0 s.tsc_boot / (s.tsc_hz / 1000000))
        × (md_uptime cpu s w ≡ ((us / 1000000 % u32_mod, us % 1000000), (cpu.rdtsc w).1))
  unfolding md_uptime
  md_uptime_lem s w low high =
      let cycles : ℕ = sub64 (cpu.rdtsc w).0 s.tsc_boot in
      let rate : ℕ = s.tsc_hz / 1000000 in
      let us : ℕ = cycles / rate in
      (
        us,
        refl,
        rw (
          udiv64_lem s.tsc_hz 1000000 high (omega arith) (omega arith),
          udiv64_lem cycles rate (omega arith) (omega (arith, low)) (omega (arith, high)),
          udiv64_lem us 1000000 (omega (arith, div-le_self cycles rate)) (omega arith)
              (omega arith),
          mod-eq_of_lt {n = us % 1000000} {m = u32_mod} (omega arith),
        ),
      )
