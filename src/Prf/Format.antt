-- ===== src/Prf/Format.antt =====
-- The rounds of kvprintf: every format is printed to its end.
use mkrn.Prelude.{
  ℕ, zero, suc, ◌+◌, ◌-◌, ◌*◌, ◌^◌, ◌≤◌, ◌<◌, ◌≡◌, ◌≢◌, refl, ap, ◌∙◌, arith, ltb, leb, ◌==◌, ◌||◌,
  if◌then◌else◌, if_true, if_false, if_both, Bool, false, Bool-cases, inl, inr, List, [], ◌∷◌, ◌++◌,
  length, Outcome, done, ◌>>=◌,
}
use mkrn.Prf.{
  kputnum, is_digit, read_width, skip, Spec, cut, conversion, read_conversion, read_spec, VaList,
  put_number, put_signed, put_pointer, convert, put_spec, kvprintf_loop, kvprintf,
}
use mkrn.Prf.Number.{IsBase, kputnum_lem}

abbrev Returns {ℓ} : {A : Type ℓ} → Outcome A → Type ℓ
Returns {A = A} x = (a : A) × (x ≡ done a)

read_width-shorter : (w : ℕ) (cs : List ℕ) → length (read_width w cs).1 ≤ length cs
unfolding read_width
read_width-shorter w [] = omega arith
read_width-shorter w (c ∷ cs) =
    let shorter = read_width-shorter (if ltb w 1000 then w * 10 + (c - b'0') else w) cs in
    elim (Bool-cases (is_digit c)) [
      | inl y ↦ rw y (omega (arith, shorter))
      | inr y ↦ rw y (omega arith)
    ]

skip-shorter : (c : ℕ) (cs : List ℕ) → length (skip c cs).1 ≤ length cs
unfolding skip
skip-shorter c [] = omega arith
skip-shorter c (x ∷ xs) = elim (Bool-cases (x == c)) [
  | inl y ↦ rw y (omega arith)
  | inr y ↦ rw y (omega arith)
]

-- What a conversion that is read leaves of the format.
rest_of : List ℕ → Spec → List ℕ
rest_of d cut = d
rest_of d (conversion c width zeros rest) = rest

read_spec-shorter : (fmt : List ℕ) → length (rest_of [] (read_spec fmt)) ≤ length fmt
unfolding read_spec read_conversion rest_of
read_spec-shorter fmt =
    let a = skip-shorter b'0' fmt in
    let b = read_width-shorter 0 (skip b'0' fmt).1 in
    let c = skip-shorter b'l' (read_width 0 (skip b'0' fmt).1).1 in
    last (read_width 0 (skip b'0' fmt).1).0 (skip b'0' fmt).0
      (skip b'l' (read_width 0 (skip b'0' fmt).1).1).1 (omega (arith, a, b, c))
  where
    last :
        (width : ℕ) (zeros : Bool) (cs : List ℕ)
        → length cs ≤ length fmt
        → length (rest_of [] (read_conversion width zeros cs)) ≤ length fmt
    last width zeros [] l = omega arith
    last width zeros (x ∷ xs) l = omega (arith, l)

-- Text with no percent sign.
abbrev pub IsPlain : List ℕ → Type 0
IsPlain [] = Unit {0}
IsPlain (x ∷ xs) = (x ≢ b'%') × IsPlain xs

kputnum-Returns :
    (n base width : ℕ) (zeros : Bool)
    → IsBase base
    → n < 2 ^ 32
    → Returns (kputnum n base width zeros)
kputnum-Returns n base width zeros b l = let r = kputnum_lem n base width zeros b l in (r.0, r.1)

module _ {V : Type 0} (va : VaList V) (words : (v : V) → (va.word v).0 < 2 ^ 32) where
  put_number-Returns :
      (base width : ℕ) (zeros : Bool) (v : V)
      → IsBase base
      → Returns (put_number va base width zeros v)
  unfolding put_number
  put_number-Returns base width zeros v b =
      let (cs, run) = kputnum-Returns (va.word v).0 base width zeros b (words v) in
      ((cs, (va.word v).1), rw run)

  convert-Returns : (c width : ℕ) (zeros : Bool) (v : V) → Returns (convert va c width zeros v)
  unfolding convert put_signed put_pointer
  convert-Returns c width zeros v = if_both Returns ((c == b'd') || (c == b'i')) _ _ signed (
      if_both Returns (c == b'u') _ _ (put_number-Returns 10 width zeros v (inl refl)) (
        if_both Returns (c == b'x') _ _ (put_number-Returns 16 width zeros v (inr refl)) (
          if_both Returns (c == b'p') _ _ pointer (
            if_both Returns (c == b's') _ _ (_, refl)
              (if_both Returns (c == b'c') _ _ (_, refl)
                (if_both Returns (c == b'%') _ _ (_, refl) (_, refl)))))))
    where
      n : ℕ
      n = (va.word v).0

      pointer : Returns (put_pointer va v)
      pointer =
          let (cs, run) = kputnum-Returns n 16 0 false (inr refl) (words v) in
          ((b'0' ∷ b'x' ∷ cs, (va.word v).1), rw run)

      signed : Returns (put_signed va width zeros v)
      signed =
          let (cs, run) =
            kputnum-Returns (if leb (2 ^ 31) n then 2 ^ 32 - n else n) 10 width zeros (inl refl)
              (ground (arith, words v)) in
          ((if leb (2 ^ 31) n then b'-' ∷ cs else cs, (va.word v).1), rw run)

  -- Two runs that return the same.
  abbrev Agree : Outcome (List ℕ × V) → Outcome (List ℕ × V) → Type 0
  Agree x y = (r : List ℕ × V) × (x ≡ done r) × (y ≡ done r)

  put_spec-Agree :
      (f g : List ℕ → V → Outcome (List ℕ × V)) (n : ℕ)
      → ((fmt : List ℕ) (v : V) → length fmt ≤ n → Agree (f fmt v) (g fmt v))
      → (s : Spec) (v : V) → length (rest_of [] s) ≤ n
      → Agree (put_spec va f s v) (put_spec va g s v)
  unfolding put_spec rest_of
  put_spec-Agree f g n h cut v l = (_, refl, refl)
  put_spec-Agree f g n h (conversion c width zeros rest) v l =
      let (out, run) = convert-Returns c width zeros v in
      let (r, left, right) = h rest out.1 l in
      ((out.0 ++ r.0, r.1), rw (run, left), rw (run, right))

  -- Fuel above the length of the format is enough, and more of it changes nothing.
  kvprintf_loop-Agree :
      (fuel more : ℕ) (fmt : List ℕ) (v : V)
      → length fmt < fuel
      → length fmt < more
      → Agree (kvprintf_loop va fuel fmt v) (kvprintf_loop va more fmt v)
  unfolding kvprintf_loop
  kvprintf_loop-Agree zero more fmt v l m = absurd (omega arith)
  kvprintf_loop-Agree (suc fuel) zero fmt v l m = absurd (omega arith)
  kvprintf_loop-Agree (suc fuel) (suc more) [] v l m = (_, refl, refl)
  kvprintf_loop-Agree (suc fuel) (suc more) (c ∷ cs) v l m = elim (Bool-cases (c == b'%')) [
    | inl y ↦
        let (r, left, right) =
          put_spec-Agree (λ f w. kvprintf_loop va fuel f w) (λ f w. kvprintf_loop va more f w)
            (length cs) (λ f w k. kvprintf_loop-Agree fuel more f w (omega arith) (omega arith))
            (read_spec cs) v (read_spec-shorter cs) in
        (r, if_true (c == b'%') _ _ y ∙ left, if_true (c == b'%') _ _ y ∙ right)
    | inr y ↦
        let (r, left, right) = kvprintf_loop-Agree fuel more cs v (omega arith) (omega arith) in
        (
          (c ∷ r.0, r.1),
          if_false (c == b'%') _ _ y ∙ ap put left,
          if_false (c == b'%') _ _ y ∙ ap put right,
        )
  ]
    where
      put : Outcome (List ℕ × V) → Outcome (List ℕ × V)
      put x = x >>= (λ r. done (c ∷ r.0, r.1))

  kvprintf-append :
      (xs fmt : List ℕ) (v : V)
      → IsPlain xs
      → (r : List ℕ × V) → kvprintf va fmt v ≡ done r
      → kvprintf va (xs ++ fmt) v ≡ done (xs ++ r.0, r.1)
  unfolding kvprintf kvprintf_loop
  kvprintf-append [] fmt v h r e = e
  kvprintf-append (x ∷ xs) fmt v (ok, h) r e =
      if_false (x == b'%') _ _ (ground (arith, ok)) ∙ ap put (kvprintf-append xs fmt v h r e)
    where
      put : Outcome (List ℕ × V) → Outcome (List ℕ × V)
      put y = y >>= (λ r. done (x ∷ r.0, r.1))

  -- Where the arguments are words of 32 bits, kvprintf comes to the end of every format, whatever
  -- its directives; and text without a percent sign in front of a format is printed as it stands.
  pub kvprintf_lem :
      (fmt : List ℕ) (v : V)
      → (r : List ℕ × V) × (kvprintf va fmt v ≡ done r)
        × ((xs : List ℕ) → IsPlain xs → kvprintf va (xs ++ fmt) v ≡ done (xs ++ r.0, r.1))
  unfolding kvprintf
  kvprintf_lem fmt v =
      let (r, left, right) =
        kvprintf_loop-Agree (suc (length fmt)) (suc (length fmt)) fmt v (omega arith)
          (omega arith) in
      (r, left, λ xs h. kvprintf-append xs fmt v h r left)
