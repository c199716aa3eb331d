-- ===== src/Path/Parts.antt =====
-- A path as a directory, slashes, a last component, and slashes, and what the programs take of it.
use mkrn.Prelude.{
  ℕ, zero, suc, ◌+◌, ◌-◌, ◌≤◌, ◌<◌, ◌≡◌, ◌≢◌, inl, inr, refl, ap, sym, ◌∙◌, arith, ltb, ◌==◌,
  ==_iff, ◌&&◌, if_false, Bool, Bool-cases, true, false, none, some, List, [], ◌∷◌, ◌++◌, length,
  get_or, replicate, length-append, length-replicate, get_or-append_left, get_or-append_right,
}
use mkrn.Path.{
  slash, take, drop, same_text, leading, trim_slashes, trim_name, last_slash, after_slash,
  strip_suffix, basename, drop_slashes, drop_component, dirname,
}

take-append : (xs ys : List ℕ) (n : ℕ) → n ≡ length xs → take n (xs ++ ys) ≡ xs
take-append xs ys n e = ap (λ k. take k (xs ++ ys)) e ∙ whole xs
  where
    whole : (xs : List ℕ) → take (length xs) (xs ++ ys) ≡ xs
    whole [] = refl
    whole (x ∷ xs) = ap (λ t. x ∷ t) (whole xs)

pub drop-append : (xs ys : List ℕ) (n : ℕ) → n ≡ length xs → drop n (xs ++ ys) ≡ ys
drop-append xs ys n e = ap (λ k. drop k (xs ++ ys)) e ∙ whole xs
  where
    whole : (xs : List ℕ) → drop (length xs) (xs ++ ys) ≡ ys
    whole [] = refl
    whole (x ∷ xs) = whole xs

-- From `p` to `n` there are only slashes, or none.
abbrev SlashesIn : List ℕ → ℕ → ℕ → Type 0
SlashesIn s p n = (i : ℕ) → p ≤ i → i < n → get_or s i 0 ≡ slash

abbrev pub NoneIn : List ℕ → ℕ → ℕ → Type 0
NoneIn s p n = (i : ℕ) → p ≤ i → i < n → get_or s i 0 ≢ slash

trim_slashes_lem :
    (low : ℕ) (s : List ℕ) (p n : ℕ)
    → low ≤ p + 1
    → p < n
    → SlashesIn s (p + 1) n
    → get_or s p 0 ≢ slash
    → trim_slashes low s n ≡ p + 1
unfolding trim_slashes
trim_slashes_lem low s p zero l m h e = absurd (omega arith)
trim_slashes_lem low s p (suc n) l m h e = elim (Bool-cases (p == n)) [
  | inl y ↦ ground (arith, y, e, ap (λ i. get_or s i 0) ((==_iff p n).0 y))
  | inr y ↦ ground (
    arith,
    y,
    h n (ground (arith, y)) (omega arith),
    trim_slashes_lem low s p n l (ground (arith, y)) (λ i a b. h i a (omega arith)) e,
  )
]

pub trim_name_lem :
    (s : List ℕ) (p n : ℕ)
    → p < n
    → NoneIn s (p + 1) n
    → get_or s p 0 ≡ slash
    → (trim_name s n ≡ p + 1) × (last_slash s n ≡ some p)
unfolding trim_name last_slash
trim_name_lem s p zero m h e = absurd (omega arith)
trim_name_lem s p (suc n) m h e = elim (Bool-cases (p == n)) [
  | inl y ↦
      let same : p ≡ n = (==_iff p n).0 y in
      let here : (get_or s n 0 == slash) ≡ true = ground (arith, e, ap (λ i. get_or s i 0) same) in
      rw here (ap suc (sym same) ∙ omega arith, ap some (sym same))
  | inr y ↦
      let other : (get_or s n 0 == slash) ≡ false =
        ground (arith, h n (ground (arith, y)) (omega arith)) in
      rw other (trim_name_lem s p n (ground (arith, y)) (λ i a b. h i a (omega arith)) e)
]

leading_lem : (s : List ℕ) (i : ℕ) → i < length s → get_or s i 0 ≢ slash → leading s ≤ i
unfolding leading
leading_lem [] i l e = omega arith
leading_lem (c ∷ s) zero l e = ground (arith, e)
leading_lem (c ∷ s) (suc i) l e = ground (arith, leading_lem s i (omega arith) e)

same_text_sound : (s t : List ℕ) → same_text s t ≡ true → length s ≡ length t
unfolding same_text
same_text_sound [] [] e = refl
same_text_sound [] (d ∷ t) e = cc
same_text_sound (c ∷ s) [] e = cc
same_text_sound (c ∷ s) (d ∷ t) e = elim (Bool-cases (same_text s t)) [
  | inl y ↦ ap suc (same_text_sound s t y)
  | inr y ↦ ground (arith, e, y)
]

-- A directory that ends in no slash, slashes, a last component without a slash, and slashes.
pub record IsPath (dir base : List ℕ) : Type 0 where
  pub some_dir : 0 < length dir
  pub dir_end : get_or dir (length dir - 1) 0 ≢ slash
  pub some_base : 0 < length base
  pub name : (i : ℕ) → i < length base → get_or base i 0 ≢ slash

abbrev pub slashes : ℕ → List ℕ
slashes n = replicate n slash

abbrev pub path : List ℕ → ℕ → List ℕ → ℕ → List ℕ
path dir k base j = ((dir ++ slashes (k + 1)) ++ base) ++ slashes j

get_or-slashes : (n i : ℕ) → i < n → get_or (slashes n) i 0 ≡ slash
get_or-slashes zero i l = absurd (omega arith)
get_or-slashes (suc n) zero l = refl
get_or-slashes (suc n) (suc i) l = get_or-slashes n i (omega arith)

and_false : (b : Bool) → (b && false) ≡ false
and_false true = refl
and_false false = refl

-- The programs on any path for which the loops find these places.
drop_component_lem :
    (s s' : List ℕ) (n n' i : ℕ)
    → trim_slashes 0 s (length s) ≡ n
    → take n s ≡ s'
    → trim_name s' n ≡ n'
    → last_slash s' n ≡ some i
    → (leading s == length s) ≡ false
    → drop_component s ≡ drop_slashes (take n' s') n'
unfolding drop_component
drop_component_lem s s' n n' i a b c d e =
    rw (e, and_false (ltb 0 (leading s)), a, b, d, a, b, c) refl

basename_places :
    (s s' : List ℕ) (n i : ℕ)
    → trim_slashes 1 s (length s) ≡ n
    → take n s ≡ s'
    → last_slash s' (length s') ≡ some i
    → 1 < n
    → 0 < length s
    → basename s none ≡ drop (i + 1) s'
unfolding basename after_slash strip_suffix
basename_places s s' n i a b c l m =
    let some_text : (length s == 0) ≡ false = ground (arith, m) in
    let longer : (n == 1) ≡ false = ground (arith, l) in rw (some_text, a, longer, b, c) refl

module _ (dir : List ℕ) (k : ℕ) (base : List ℕ) (j : ℕ) (h : IsPath dir base) where
  abbrev front : List ℕ
  front = dir ++ slashes (k + 1)

  abbrev upto : List ℕ
  upto = front ++ base

  length-front : length front ≡ length dir + (k + 1)
  length-front =
      length-append dir (slashes (k + 1))
      ∙ ap (λ n. length dir + n) (length-replicate (k + 1) slash)

  length-upto : length upto ≡ length dir + (k + 1) + length base
  length-upto = length-append front base ∙ ap (λ n. n + length base) length-front

  length-path : length (path dir k base j) ≡ length upto + j
  length-path =
      length-append upto (slashes j) ∙ ap (λ n. length upto + n) (length-replicate j slash)

  front-dir : (i : ℕ) → i < length dir → get_or front i 0 ≡ get_or dir i 0
  front-dir i l = get_or-append_left dir (slashes (k + 1)) i 0 l

  front-slash : (i : ℕ) → length dir ≤ i → i < length front → get_or front i 0 ≡ slash
  front-slash i l m =
      get_or-append_right dir (slashes (k + 1)) i 0 l
      ∙ get_or-slashes (k + 1) (i - length dir) (omega (arith, length-front))

  upto-name : (i : ℕ) → length front ≤ i → i < length upto → get_or upto i 0 ≢ slash
  upto-name i l m e =
      h.name (i - length front) (omega (arith, length-upto, length-front))
        (sym (get_or-append_right front base i 0 l) ∙ e)

  -- The slashes at the end go, and the last component starts behind the last slash.
  trim-path :
      (low : ℕ)
      → low ≤ 1
      → trim_slashes low (path dir k base j) (length (path dir k base j)) ≡ length upto
  trim-path low l =
      let p : ℕ = length upto - 1 in
      let last : p + 1 ≡ length upto = omega (arith, length-upto, h.some_base) in
      trim_slashes_lem low (path dir k base j) p (length (path dir k base j)) (omega (arith, l))
        (omega (arith, length-path, last))
        (λ i a b.
          get_or-append_right upto (slashes j) i 0 (omega (arith, a, last))
          ∙ get_or-slashes j (i - length upto) (omega (arith, a, b, last, length-path)))
        (λ e.
          upto-name p (omega (arith, length-upto, length-front, h.some_base)) (omega (arith, last))
            (sym (get_or-append_left upto (slashes j) p 0 (omega (arith, last))) ∙ e))
      ∙ last

  find-name :
      (trim_name upto (length upto) ≡ length front)
      × (last_slash upto (length upto) ≡ some (length front - 1))
  find-name =
      let p : ℕ = length front - 1 in
      let last : p + 1 ≡ length front = omega (arith, length-front) in
      let found =
        trim_name_lem upto p (length upto) (omega (arith, last, length-upto, length-front))
          (λ i a b. upto-name i (omega (arith, a, last)) b)
          (get_or-append_left front base p 0 (omega (arith, last))
            ∙ front-slash p (omega (arith, length-front)) (omega (arith, last))) in
      (found.0 ∙ last, found.1)

  trim-front : trim_slashes 0 front (length front) ≡ length dir
  trim-front =
      let p : ℕ = length dir - 1 in
      let last : p + 1 ≡ length dir = omega (arith, h.some_dir) in
      trim_slashes_lem 0 front p (length front) (omega arith) (omega (arith, length-front, last))
        (λ i a b. front-slash i (omega (arith, a, last)) b)
        (λ e. h.dir_end (sym (front-dir p (omega (arith, last))) ∙ e))
      ∙ last

  not_all_slashes : (leading (path dir k base j) == length (path dir k base j)) ≡ false
  not_all_slashes =
      let p : ℕ = length dir - 1 in
      let small : p < length upto = omega (arith, h.some_dir, length-upto) in
      let stop = leading_lem (path dir k base j) p (omega (arith, small, length-path)) (λ e.
        h.dir_end (
          sym (front-dir p (omega (arith, h.some_dir)))
          ∙ (sym (get_or-append_left front base p 0 (omega (arith, h.some_dir, length-front)))
              ∙ (sym (get_or-append_left upto (slashes j) p 0 small) ∙ e)))) in
      ground (arith, stop, small, length-path)

  drop_slashes-front : drop_slashes front (length front) ≡ dir
  unfolding drop_slashes
  drop_slashes-front =
      let some_name : (length dir == 0) ≡ false = ground (arith, h.some_dir) in
      rw (trim-front, some_name) (take-append dir (slashes (k + 1)) (length dir) refl)

  not_two_slashes : same_text (path dir k base j) (slash ∷ slash ∷ []) ≡ false
  not_two_slashes = elim (Bool-cases (same_text (path dir k base j) (slash ∷ slash ∷ []))) [
    | inl y ↦
        let two : length (path dir k base j) ≡ 2 = same_text_sound _ _ y in
        absurd (omega (arith, two, length-path, length-upto, h.some_dir, h.some_base))
    | inr y ↦ y
  ]

  -- On a directory that ends in no slash, one or more slashes, a last component and any number of
  -- slashes, dirname prints the directory and basename the last component.
  pub dirname-basename :
      (dirname (path dir k base j) ≡ dir) × (basename (path dir k base j) none ≡ base)
  unfolding dirname
  dirname-basename =
      let cut = take-append upto (slashes j) (length upto) refl in
      (
        if_false (same_text (path dir k base j) (slash ∷ slash ∷ [])) _ _ not_two_slashes
            ∙ (drop_component_lem (path dir k base j) upto (length upto) (length front)
                  (length front - 1) (trim-path 0 (omega arith)) cut find-name.0 find-name.1
                  not_all_slashes
                ∙ (ap (λ t. drop_slashes t (length front))
                      (take-append front base (length front) refl)
                    ∙ drop_slashes-front)),
        basename_places (path dir k base j) upto (length upto) (length front - 1)
              (trim-path 1 (omega arith)) cut find-name.1 (omega (arith, length-upto, h.some_dir))
              (omega (arith, length-path, length-upto))
            ∙ drop-append front base (length front - 1 + 1) (omega (arith, length-front)),
      )
