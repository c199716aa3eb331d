-- ===== src/Libkern/Strings/Text.antt =====
-- The string functions on strings as lists of bytes.
use mkrn.Prelude.{
  ℕ, zero, suc, ◌+◌, ◌^◌, ◌≤◌, ◌<◌, ◌≡◌, ◌≢◌, ◌⊎◌, inl, inr, refl, ap, ap₂, sym, subst, ◌∙◌, arith,
  Mem, store, ◌==◌, ==_iff, if◌then◌else◌, if_true, if_false, ◌||◌, not, Bool-cases, done, List, [],
  ◌∷◌, ◌++◌, length,
}
use mkrn.Libkern.Strings.{
  ℤ, pos, byte_sub, str_fuel, strlen, strlen_loop, strcpy, strcpy_loop, strcmp, strcmp_loop, strcat,
  strcat_end,
}

-- The bytes `xs` and a NUL stand at `s`.
abbrev pub IsString : Mem → ℕ → List ℕ → Type 0
IsString m s [] = m s ≡ 0
IsString m s (x ∷ xs) = (m s ≡ x) × (x ≢ 0) × IsString m (s + 1) xs

strlen_loop_lem :
    (fuel : ℕ) (m : Mem) (s n : ℕ) (xs : List ℕ)
    → IsString m (s + n) xs
    → length xs < fuel
    → strlen_loop fuel m s n ≡ done (n + length xs)
unfolding strlen_loop
strlen_loop_lem zero m s n xs h l = absurd (omega arith)
strlen_loop_lem (suc fuel) m s n [] h l = rw h (ground arith)
strlen_loop_lem (suc fuel) m s n (x ∷ xs) h l = ground (arith, strlen_loop_lem fuel m s (n + 1) xs)

-- strlen of a string of fewer than 2 ^ 32 bytes returns the number of bytes in front of its
-- terminator.
strlen_lem :
    (m : Mem) (s : ℕ) (xs : List ℕ)
    → IsString m s xs
    → length xs < 2 ^ 32
    → strlen m s ≡ done (length xs)
unfolding strlen str_fuel
strlen_lem m s xs h l =
    strlen_loop_lem (2 ^ 32) m s 0 xs
      (subst (λ k. IsString m k xs) {x = s} {y = s + 0} (omega arith) h) l
    ∙ ap done {x = 0 + length xs} {y = length xs} (omega arith)

-- The order of C on strings: the difference of the first two bytes that are not the same, with
-- the terminator as a last byte, and 0 for equal strings.
abbrev pub difference : List ℕ → List ℕ → ℤ
difference [] [] = pos 0
difference [] (y ∷ ys) = byte_sub 0 y
difference (x ∷ xs) [] = byte_sub x 0
difference (x ∷ xs) (y ∷ ys) = if x == y then difference xs ys else byte_sub x y

strcmp_stop :
    (fuel : ℕ) (m : Mem) (a b x y : ℕ)
    → m a ≡ x
    → m b ≡ y
    → (x ≡ 0) ⊎ (x ≢ y)
    → strcmp_loop (suc fuel) m a b ≡ done (byte_sub x y)
unfolding strcmp_loop
strcmp_stop fuel m a b x y ha hb h =
    if_true (m a == 0 || not (m a == m b)) (done (byte_sub (m a) (m b))) _ (ground (arith, ha, hb))
    ∙ ap₂ (λ p q. done (byte_sub p q)) ha hb

strcmp_go :
    (fuel : ℕ) (m : Mem) (a b x : ℕ)
    → m a ≡ x
    → m b ≡ x
    → x ≢ 0
    → strcmp_loop (suc fuel) m a b ≡ strcmp_loop fuel m (a + 1) (b + 1)
unfolding strcmp_loop
strcmp_go fuel m a b x ha hb h =
    if_false (m a == 0 || not (m a == m b)) (done (byte_sub (m a) (m b))) _ (ground (arith, ha, hb))

strcmp_loop_lem :
    (fuel : ℕ) (m : Mem) (a b : ℕ) (xs ys : List ℕ)
    → IsString m a xs
    → IsString m b ys
    → length xs < fuel
    → strcmp_loop fuel m a b ≡ done (difference xs ys)
unfolding byte_sub
strcmp_loop_lem zero m a b xs ys h k l = absurd (omega arith)
strcmp_loop_lem (suc fuel) m a b [] [] h k l = strcmp_stop fuel m a b 0 0 h k (inl refl)
strcmp_loop_lem (suc fuel) m a b [] (y ∷ ys) h k l = strcmp_stop fuel m a b 0 y h k.0 (inl refl)
strcmp_loop_lem (suc fuel) m a b (x ∷ xs) [] h k l = strcmp_stop fuel m a b x 0 h.0 k (inr h.1)
strcmp_loop_lem (suc fuel) m a b (x ∷ xs) (y ∷ ys) h k l = elim (Bool-cases (x == y)) [
  | inl e ↦
      strcmp_go fuel m a b x h.0 (k.0 ∙ sym ((==_iff x y).0 e)) h.1
      ∙ strcmp_loop_lem fuel m (a + 1) (b + 1) xs ys h.2 k.2 (omega arith)
      ∙ sym (ap done (if_true (x == y) (difference xs ys) (byte_sub x y) e))
  | inr e ↦
      strcmp_stop fuel m a b x y h.0 k.0 (inr (ground arith))
      ∙ sym (ap done (if_false (x == y) (difference xs ys) (byte_sub x y) e))
]

-- strcmp of two strings, the first of fewer than 2 ^ 32 bytes, returns the difference of their
-- first bytes that are not the same, with the terminator as the last byte of each, and 0 for
-- equal strings.
pub strcmp_lem :
    (m : Mem) (a b : ℕ) (xs ys : List ℕ)
    → IsString m a xs
    → IsString m b ys
    → length xs < 2 ^ 32
    → strcmp m a b ≡ done (difference xs ys)
unfolding strcmp str_fuel
strcmp_lem m a b xs ys h k l = strcmp_loop_lem (2 ^ 32) m a b xs ys h k l

-- A change that spares the bytes of a string spares the string.
IsString-ext :
    (m m' : Mem) (s : ℕ) (xs : List ℕ)
    → ((x : ℕ) → s ≤ x → x ≤ s + length xs → m' x ≡ m x)
    → IsString m s xs
    → IsString m' s xs
IsString-ext m m' s [] same h = same s (omega arith) (omega arith) ∙ h
IsString-ext m m' s (x ∷ xs) same h = (
  same s (omega arith) (omega arith) ∙ h.0,
  h.1,
  IsString-ext m m' (s + 1) xs (λ y a b. same y (omega arith) (omega arith)) h.2,
)

-- What a copy of the string `xs` to `d` leaves.
pub record Copied (m : Mem) (d : ℕ) (xs : List ℕ) (m' : Mem) : Type 0 where
  pub string : IsString m' d xs
  pub outside : (x : ℕ) → (x < d) ⊎ (d + length xs < x) → m' x ≡ m x

strcpy_loop_lem :
    (fuel : ℕ) (m : Mem) (d s : ℕ) (xs : List ℕ)
    → IsString m s xs
    → length xs < fuel
    → (d + length xs < s) ⊎ (s + length xs < d)
    → (m' : Mem) × (strcpy_loop fuel m d s ≡ done m') × Copied m d xs m'
unfolding strcpy_loop
strcpy_loop_lem zero m d s xs h l apart = absurd (omega arith)
strcpy_loop_lem (suc fuel) m d s [] h l apart = (
  store m d (m s),
  if_true (m s == 0) (done (store m d (m s))) _ (ground (arith, h)),
  record { string = ground (arith, h); outside = λ x k. ground (arith, k) },
)
strcpy_loop_lem (suc fuel) m d s (x ∷ xs) h l apart =
    let m1 : Mem = store m d (m s) in
    let (m', e, c) =
      strcpy_loop_lem fuel m1 (d + 1) (s + 1) xs
        (IsString-ext m m1 (s + 1) xs (λ y p q. ground (arith, apart)) h.2) (omega arith)
        (ground arith) in
    (
      m',
      if_false (m s == 0) (done m1) (strcpy_loop fuel m1 (d + 1) (s + 1)) (ground (arith, h.0, h.1))
          ∙ e,
      record {
        string = (c.outside d (inl (omega arith)) ∙ ground (arith, h.0), h.1, c.string);
        outside = λ y k. c.outside y (ground (arith, k)) ∙ ground (arith, k);
      },
    )

-- strcpy of a string of fewer than 2 ^ 32 bytes returns, leaves the string at the destination
-- and changes no byte behind its terminator there or before the destination, if source and
-- destination do not overlap.
strcpy_lem :
    (m : Mem) (d s : ℕ) (xs : List ℕ)
    → IsString m s xs
    → length xs < 2 ^ 32
    → (d + length xs < s) ⊎ (s + length xs < d)
    → (m' : Mem) × (strcpy m d s ≡ done m') × Copied m d xs m'
unfolding strcpy str_fuel
strcpy_lem m d s xs h l apart = strcpy_loop_lem (2 ^ 32) m d s xs h l apart

strcat_end_lem :
    (fuel : ℕ) (m : Mem) (d : ℕ) (xs : List ℕ)
    → IsString m d xs
    → length xs < fuel
    → strcat_end fuel m d ≡ done (d + length xs)
unfolding strcat_end
strcat_end_lem zero m d xs h l = absurd (omega arith)
strcat_end_lem (suc fuel) m d [] h l = rw h (ap done (omega arith))
strcat_end_lem (suc fuel) m d (x ∷ xs) h l =
    if_false (m d == 0) (done d) (strcat_end fuel m (d + 1)) (ground (arith, h.0, h.1))
    ∙ strcat_end_lem fuel m (d + 1) xs h.2 (omega arith)
    ∙ ap done {x = d + 1 + length xs} {y = d + suc (length xs)} (omega arith)

IsString-append :
    (m m' : Mem) (d e : ℕ) (xs ys : List ℕ)
    → IsString m d xs
    → d + length xs ≡ e
    → ((y : ℕ) → y < e → m' y ≡ m y)
    → IsString m' e ys
    → IsString m' d (xs ++ ys)
IsString-append m m' d e [] ys h at same k =
    subst (λ j. IsString m' j ys) {x = e} {y = d} (omega arith) k
IsString-append m m' d e (x ∷ xs) ys h at same k =
    (same d (omega arith) ∙ h.0, h.1, IsString-append m m' (d + 1) e xs ys h.2 (omega arith) same k)

-- strcat of two strings of fewer than 2 ^ 32 bytes returns, leaves the one followed by the other
-- at the destination and changes no byte outside of it, if the source does not overlap with the
-- result.
strcat_lem :
    (m : Mem) (d s : ℕ) (xs ys : List ℕ)
    → IsString m d xs
    → IsString m s ys
    → length xs < 2 ^ 32
    → length ys < 2 ^ 32
    → (d + length xs + length ys < s) ⊎ (s + length ys < d)
    → (m' : Mem) × (strcat m d s ≡ done m')
      × IsString m' d (xs ++ ys)
      × ((y : ℕ) → (y < d) ⊎ (d + length xs + length ys < y) → m' y ≡ m y)
unfolding strcat str_fuel
strcat_lem m d s xs ys h k lx ly apart =
    let e : ℕ = d + length xs in
    let (m', run, c) = strcpy_loop_lem (2 ^ 32) m e s ys k ly (ground (arith, apart)) in
    (
      m',
      rw (strcat_end_lem (2 ^ 32) m d xs h lx) run,
      IsString-append m m' d e xs ys h refl (λ y l. c.outside y (inl l)) c.string,
      λ y l. c.outside y (ground (arith, l)),
    )
