-- ===== src/Mkdir/Tree.antt =====
-- makepath over any file system that behaves as POSIX says: which directories there are when it
-- returns 0.
use mkrn.Prelude.{
  ℕ, zero, suc, ◌+◌, ◌-◌, ◌≤◌, ◌<◌, ◌==◌, ==_iff, ◌≡◌, ◌⊎◌, inl, inr, refl, ap, sym, ◌∙◌, arith,
  ◌&&◌, ltb, not, if_both, if◌then◌else◌, if_true, if_false, subst, ltb→lt, Bool, Bool-cases, true,
  false, Option, none, some, List, [], ◌∷◌, length, get_or, done,
}
use mkrn.FileMode.{Mode}
use mkrn.Path.{slash, take, drop, same_text, leading}
use mkrn.Path.Scan.{
  same_text-eq, get_or-drop, length-drop, length-take, take-take, take_all, leading_run, leading-le,
}
use mkrn.Mkdir.One.{IsPosix, mkone_keeps, mkone-IsDir}
use mkrn.Mkdir.{Os, mkone, find_slash, make_prefix, walk, makepath}
use mkrn.Mkdir.Ends.{NoSlash, find_slash_cases, IsEnd, trimmed, IsEnd-trimmed}

abbrev dot : List ℕ
dot = b'.' ∷ []

module _ (os : Os) (IsDir : List ℕ → os.World → Type 0) (posix : IsPosix os IsDir) where
  open os use {World, mkdir, stat, chmod}

  abbrev Exists : List ℕ → World → Type 0
  Exists path w = (path ≡ dot) ⊎ IsDir path w

  make_prefix_keeps :
      (dup : List ℕ) (isfinal : Bool) (m : Option Mode) (w : World) (q : List ℕ)
      → IsDir q w
      → IsDir q (make_prefix os dup isfinal m w).1
  unfolding make_prefix
  make_prefix_keeps dup isfinal m w q h =
      if_both (λ (r : Bool × World). IsDir q r.1) _ _ _
        (mkone_keeps os IsDir posix dup isfinal true m w q h) h

  make_prefix-Exists :
      (dup : List ℕ) (isfinal : Bool) (m : Option Mode) (w : World)
      → 0 < length dup
      → (make_prefix os dup isfinal m w).0 ≡ true
      → Exists dup (make_prefix os dup isfinal m w).1
  unfolding make_prefix
  make_prefix-Exists dup isfinal m w l e = elim (Bool-cases (same_text dup dot)) [
    | inl y ↦ inl (same_text-eq dup dot y)
    | inr y ↦
        let calls : (not (length dup == 0) && not (same_text dup dot)) ≡ true =
          ground (arith, l, y) in
        let eq = if_true _ (mkone os dup isfinal true m w) (true, w) calls in
        inr (
          rw eq (
            mkone-IsDir os IsDir posix dup isfinal true m w
              (sym (ap (λ (r : Bool × World). r.0) eq) ∙ e)))
  ]

  -- What the loop has done when it stands at the index `p`: all components that end up to there
  -- exist.
  abbrev UpTo : List ℕ → ℕ → World → Type 0
  UpTo dup p w = (i : ℕ) → i ≤ p → IsEnd dup i → Exists (take i dup) w

  abbrev Result : List ℕ → Option Mode → ℕ → ℕ → World → Type 0
  Result dup m fuel p w =
      (r : Bool × World) × (walk os fuel dup p m w ≡ done r)
      × (r.0 ≡ true → UpTo dup (length dup) r.1)
      × ((q : List ℕ) → IsDir q w → IsDir q r.1)

  Exists-make_prefix :
      (dup : List ℕ) (isfinal : Bool) (m : Option Mode) (w : World) (q : List ℕ)
      → Exists q w
      → Exists q (make_prefix os dup isfinal m w).1
  Exists-make_prefix dup isfinal m w q (inl e) = inl e
  Exists-make_prefix dup isfinal m w q (inr h) = inr (make_prefix_keeps dup isfinal m w q h)

  -- From `p` on there is no slash: the only component that ends behind `p` ends with the text.
  last_end :
      (dup : List ℕ) (p i : ℕ)
      → p ≤ length dup
      → NoSlash (drop p dup) (length (drop p dup))
      → IsEnd dup i
      → p < i
      → i ≡ length dup
  last_end dup p i l h (_, _, _, inl e) a = e
  last_end dup p i l h (_, b, _, inr e) a = elim (Bool-cases (i == length dup)) [
    | inl y ↦ (==_iff i (length dup)).0 y
    | inr y ↦
        let inside : i - p < length (drop p dup) = ground (arith, length-drop p dup, a, b, y) in
        absurd (
          h (i - p) inside
            (get_or-drop p dup (i - p) 0 ∙ ap (λ k. get_or dup k 0) (omega (arith, a)) ∙ e))
  ]

  -- The next slash stands at `p + k`: the next component ends there, and then none before the end
  -- of the slashes.
  next_end :
      (dup : List ℕ) (p k i : ℕ)
      → p + k < length dup
      → NoSlash (drop p dup) k
      → get_or dup (p + k) 0 ≡ slash
      → IsEnd dup i
      → p < i
      → i ≤ p + k + 1 + leading (drop (p + k + 1) dup)
      → i ≡ p + k
  next_end dup p k i l h at (pos, b, before, here) a c = elim (Bool-cases (ltb (p + k) i)) [
    | inl y ↦ elim (Bool-cases (i - 1 == p + k)) [
      | inl z ↦ absurd (before (ap (λ t. get_or dup t 0) ((==_iff (i - 1) (p + k)).0 z) ∙ at))
      | inr z ↦
          let j : ℕ = i - 1 - (p + k + 1) in
          let place : p + k + 1 + j ≡ i - 1 = ground (arith, y, z) in
          absurd (
            before (
              ap (λ t. get_or dup t 0) (sym place)
              ∙ sym (get_or-drop (p + k + 1) dup j 0)
              ∙ leading_run (drop (p + k + 1) dup) j (ground (arith, y, z, c, place))))
    ]
    | inr y ↦ elim (Bool-cases (i == p + k)) [
      | inl z ↦ (==_iff i (p + k)).0 z
      | inr z ↦
          let slash_at : get_or dup i 0 ≡ slash = elim here [
            | inl e ↦ absurd (ground (arith, y, e, l))
            | inr e ↦ e
          ] in
          absurd (
            h (i - p) (ground (arith, y, z, a)) (
              get_or-drop p dup (i - p) 0 ∙ ap (λ t. get_or dup t 0) (omega (arith, a)) ∙ slash_at))
    ]
  ]

  walk_end :
      (dup : List ℕ) (m : Option Mode) (fuel p : ℕ) (w : World)
      → find_slash (drop p dup) ≡ none
      → walk os (suc fuel) dup p m w ≡ done (make_prefix os dup true m w)
  unfolding walk
  walk_end dup m fuel p w e = rw (e, walk) refl

  abbrev next_index : List ℕ → ℕ → ℕ → ℕ
  next_index dup p k = p + k + 1 + leading (drop (p + k + 1) dup)

  walk_next :
      (dup : List ℕ) (m : Option Mode) (fuel p k : ℕ) (w : World)
      → find_slash (drop p dup) ≡ some k
      → let r = make_prefix os (take (p + k) dup) false m w in
        walk os (suc fuel) dup p m w
        ≡ (if r.0 then walk os fuel dup (next_index dup p k) m r.1 else done (false, r.1))
  unfolding walk
  walk_next dup m fuel p k w e = rw (e, walk) refl

  walk_lem :
      (dup : List ℕ) (m : Option Mode) (fuel p : ℕ) (w : World)
      → p ≤ length dup
      → length dup - p < fuel
      → UpTo dup p w
      → Result dup m fuel p w
  walk_lem dup m zero p w l f up = absurd (omega arith)
  walk_lem dup m (suc fuel) p w l f up = elim (find_slash_cases (drop p dup)) [
    | inl (e, h) ↦
        let r = make_prefix os dup true m w in
        let all : r.0 ≡ true → UpTo dup (length dup) r.1 = λ ok i c end.
          elim (Bool-cases (ltb p i)) [
            | inl y ↦
                let same = last_end dup p i l h end (ltb→lt p i y) in
                subst (λ t. Exists t r.1) (sym (take_all i dup (sym same)))
                  (make_prefix-Exists dup true m w (omega (arith, end.0, end.1)) ok)
            | inr y ↦ Exists-make_prefix dup true m w (take i dup) (up i (ground (arith, y)) end)
          ] in
        (r, walk_end dup m fuel p w e, all, make_prefix_keeps dup true m w)
    | inr (k, e, short, at, h) ↦
        let inside : p + k < length dup = omega (arith, short, length-drop p dup) in
        let prefix : List ℕ = take (p + k) dup in
        let r = make_prefix os prefix false m w in
        let keeps = make_prefix_keeps prefix false m w in
        let go = walk_next dup m fuel p k w e in
        elim (Bool-cases r.0) [
          | inr bad ↦ ((false, r.1), go ∙ if_false r.0 _ _ bad, (λ ok. cc ok), keeps)
          | inl ok ↦
              let next : ℕ = next_index dup p k in
              let here : get_or dup (p + k) 0 ≡ slash = sym (get_or-drop p dup k 0) ∙ at in
              let up' : UpTo dup next r.1 = λ i c end. elim (Bool-cases (ltb p i)) [
                | inl y ↦
                    let same = next_end dup p k i inside h here end (ltb→lt p i y) c in
                    subst (λ t. Exists (take t dup) r.1) (sym same)
                      (make_prefix-Exists prefix false m w
                        (omega (arith, length-take (p + k) dup, inside, same, end.0)) ok)
                | inr y ↦
                    Exists-make_prefix prefix false m w (take i dup) (up i (ground (arith, y)) end)
              ] in
              let bound : next ≤ length dup =
                omega
                  (arith, leading-le (drop (p + k + 1) dup), length-drop (p + k + 1) dup, inside) in
              let (r', go', all, keeps') =
                walk_lem dup m fuel next r.1 bound (omega (arith, f, inside)) up' in
              (r', go ∙ if_true r.0 _ _ ok ∙ go', all, λ q hq. keeps' q (keeps q hq))
        ]
  ]

  -- All components of a text exist.
  abbrev pub AllExist : List ℕ → World → Type 0
  AllExist dir w = (i : ℕ) → IsEnd dir i → Exists (take i dir) w

  -- makepath always returns. It returns -1, or it returns 0 and every component of the operand
  -- exists: whatever part of the text from its start to the end of a component is a directory then,
  -- or it is the text ".". In both cases all that was a directory before the call is one after it.
  pub makepath_lem :
      (dir : List ℕ) (m : Option Mode) (w : World)
      → (r : Bool × World) × (makepath os dir m w ≡ done r)
        × ((r.0 ≡ false) ⊎ ((r.0 ≡ true) × AllExist dir r.1))
        × ((q : List ℕ) → IsDir q w → IsDir q r.1)
  unfolding makepath
  makepath_lem dir m w =
      let dup : List ℕ = take (trimmed dir) dir in
      let none_yet : UpTo dup (leading dup) w =
        λ i c end. absurd (end.2 (leading_run dup (i - 1) (omega (arith, c, end.0)))) in
      let (r, go, all, keeps) =
        walk_lem dup m (suc (length dup)) (leading dup) w (leading-le dup) (omega arith) none_yet in
      let exist : r.0 ≡ true → AllExist dir r.1 = λ ok i end.
        let (end', c) = IsEnd-trimmed dir i end in
        subst (λ t. Exists t r.1) (take-take i (trimmed dir) dir c)
          (all ok i (omega (arith, end'.1)) end') in
      (r, go, elim (Bool-cases r.0) [ inl ok ↦ inr (ok, exist ok) | inr bad ↦ inl bad ], keeps)
