-- ===== src/Path/Last.antt =====
-- What stands behind the last slash of a path whose last part is known.
use mkrn.Prelude.{
  ℕ, zero, suc, ◌+◌, ◌-◌, ◌≤◌, ◌<◌, ◌≡◌, ◌≢◌, refl, ap, sym, ◌∙◌, arith, ◌==◌, false, none, List,
  [], ◌∷◌, ◌++◌, get_or, get_or-append_right, length, length-append,
}
use mkrn.Path.{slash, drop, last_slash, after_slash}
use mkrn.Path.Parts.{trim_name_lem}

drop-behind : (dir name : List ℕ) → drop (suc (length dir)) (dir ++ (slash ∷ name)) ≡ name
drop-behind [] name = refl
drop-behind (c ∷ dir) name = drop-behind dir name

pub after_slash-name :
    (dir name : List ℕ)
    → ((i : ℕ) → i < length name → get_or name i 0 ≢ slash)
    → after_slash
        (dir ++ (slash ∷ name))
        (last_slash (dir ++ (slash ∷ name)) (length (dir ++ (slash ∷ name))))
      ≡ name
unfolding after_slash
after_slash-name dir name plain =
    let path : List ℕ = dir ++ (slash ∷ name) in
    let size = length-append dir (slash ∷ name) in
    let here : get_or path (length dir) 0 ≡ slash =
      get_or-append_right dir (slash ∷ name) (length dir) 0 (omega arith)
      ∙ ap (λ i. get_or (slash ∷ name) i 0) {y = 0} (omega arith) in
    let later : (i : ℕ) → length dir + 1 ≤ i → i < length path → get_or path i 0 ≢ slash =
      λ i a b e. plain (i - length dir - 1) (omega (arith, a, b, size)) (
        ap (λ j. get_or (slash ∷ name) j 0) {x = suc (i - length dir - 1)} {y = i - length dir}
          (omega arith)
        ∙ sym (get_or-append_right dir (slash ∷ name) i 0 (omega (arith, a)))
        ∙ e) in
    let found =
      (trim_name_lem path (length dir) (length path) (omega (arith, size)) later here).1 in
    ap (after_slash path) found
    ∙ (ap (λ n. drop n path) {x = length dir + 1} {y = suc (length dir)} (omega arith)
        ∙ drop-behind dir name)

no_slash : (s : List ℕ) (n : ℕ) → ((i : ℕ) → i < n → get_or s i 0 ≢ slash) → last_slash s n ≡ none
unfolding last_slash
no_slash s zero h = refl
no_slash s (suc n) h =
    let other : (get_or s n 0 == slash) ≡ false = ground (arith, h n (omega arith)) in
    rw other (no_slash s n (λ i l. h i (omega arith)))

pub after_slash-plain :
    (name : List ℕ)
    → ((i : ℕ) → i < length name → get_or name i 0 ≢ slash)
    → after_slash name (last_slash name (length name)) ≡ name
unfolding after_slash
after_slash-plain name h = ap (after_slash name) (no_slash name (length name) h)
