-- ===== src/Mkdir/Ends.antt =====
-- The components of a text between slashes, and where find_slash finds the end of one.
use mkrn.Prelude.{
  ℕ, zero, suc, ◌-◌, ◌≤◌, ◌<◌, ◌==◌, ==_iff, ◌≡◌, ◌≢◌, ◌⊎◌, inl, inr, refl, sym, ◌∙◌, arith, ltb,
  Bool-cases, none, some, List, [], ◌∷◌, length, get_or,
}
use mkrn.Path.{slash, take, trim_slashes}
use mkrn.Path.Scan.{length-take, get_or-take, trim_slashes_cut, trim_slashes-le}
use mkrn.Mkdir.{find_slash}

abbrev pub NoSlash : List ℕ → ℕ → Type 0
NoSlash s n = (i : ℕ) → i < n → get_or s i 0 ≢ slash

NoSlash-cons : (c : ℕ) (s : List ℕ) (n : ℕ) → c ≢ slash → NoSlash s n → NoSlash (c ∷ s) (suc n)
NoSlash-cons c s n e h zero l = e
NoSlash-cons c s n e h (suc i) l = h i (omega arith)

-- The first slash of a text, if it has one.
pub find_slash_cases :
    (s : List ℕ)
    → ((find_slash s ≡ none) × NoSlash s (length s))
      ⊎ ((k : ℕ) × (find_slash s ≡ some k) × (k < length s) × (get_or s k 0 ≡ slash) × NoSlash s k)
unfolding find_slash
find_slash_cases [] = inl (refl, λ i l. absurd (omega arith))
find_slash_cases (c ∷ s) = elim (Bool-cases (c == slash)) [
  | inl y ↦ inr (0, rw y refl, omega arith, (==_iff c slash).0 y, λ i l. absurd (omega arith))
  | inr y ↦
      let other : c ≢ slash = ground (arith, y) in
      elim (find_slash_cases s) [
        | inl (e, h) ↦ inl (rw (y, e) refl, NoSlash-cons c s (length s) other h)
        | inr (k, e, l, at, h) ↦
            inr (suc k, rw (y, e) refl, omega (arith, l), at, NoSlash-cons c s k other h)
      ]
]

-- The end of a component: behind a character other than a slash, in front of a slash or of the end.
abbrev pub IsEnd : List ℕ → ℕ → Type 0
IsEnd dir i =
    (0 < i)
    × (i ≤ length dir)
    × (get_or dir (i - 1) 0 ≢ slash)
    × ((i ≡ length dir) ⊎ (get_or dir i 0 ≡ slash))

-- The text without its trailing slashes has all ends of components.
abbrev pub trimmed : List ℕ → ℕ
trimmed dir = trim_slashes 1 dir (length dir)

pub IsEnd-trimmed :
    (dir : List ℕ) (i : ℕ) → IsEnd dir i → IsEnd (take (trimmed dir) dir) i × (i ≤ trimmed dir)
IsEnd-trimmed dir i (pos, b, before, here) = elim (Bool-cases (ltb (trimmed dir) i)) [
  | inl y ↦ absurd (
      before
        (trim_slashes_cut 1 dir (length dir) (i - 1) (ground (arith, y)) (omega (arith, pos, b))))
  | inr y ↦
      let n : ℕ = trimmed dir in
      let in_cut : i ≤ n = ground (arith, y) in
      let size : length (take n dir) ≡ n = length-take n dir (trim_slashes-le 1 dir (length dir)) in
      let at_end : (i ≡ length (take n dir)) ⊎ (get_or (take n dir) i 0 ≡ slash) =
        elim (Bool-cases (i == n)) [
          | inl z ↦ inl ((==_iff i n).0 z ∙ sym size)
          | inr z ↦ elim here [
            | inl e ↦ absurd (ground (arith, z, e, in_cut, trim_slashes-le 1 dir (length dir)))
            | inr e ↦ inr (get_or-take n dir i 0 (ground (arith, z, in_cut)) ∙ e)
          ]
        ] in
      (
        (
          pos,
          omega (arith, in_cut, size),
          (λ e. before (sym (get_or-take n dir (i - 1) 0 (omega (arith, in_cut, pos))) ∙ e)),
          at_end,
        ),
        in_cut,
      )
]
