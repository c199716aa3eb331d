-- ===== src/Path/Scan.antt =====
-- Lemmas on the scans over a path: what strspn, the trimming and the cuts of a string look at.
use mkrn.Prelude.{
  ℕ, zero, suc, ◌+◌, ◌-◌, ◌≤◌, ◌<◌, ◌≡◌, inl, inr, refl, ap, ap₂, arith, ◌==◌, ==_iff, Bool-cases,
  true, List, [], ◌∷◌, length, get_or,
}
use mkrn.Path.{slash, take, drop, same_text, leading, trim_slashes}

pub same_text-eq : (s t : List ℕ) → same_text s t ≡ true → s ≡ t
unfolding same_text
same_text-eq [] [] e = refl
same_text-eq [] (d ∷ t) e = cc
same_text-eq (c ∷ s) [] e = cc
same_text-eq (c ∷ s) (d ∷ t) e = elim (Bool-cases (same_text s t)) [
  | inl y ↦ ap₂ (λ x r. x ∷ r) (ground (arith, e, y)) (same_text-eq s t y)
  | inr y ↦ ground (arith, e, y)
]

pub get_or-drop : (p : ℕ) (s : List ℕ) (i d : ℕ) → get_or (drop p s) i d ≡ get_or s (p + i) d
get_or-drop zero s i d = ap (λ k. get_or s k d) (omega arith)
get_or-drop (suc p) [] i d = refl
get_or-drop (suc p) (c ∷ s) i d =
    let e : suc p + i ≡ suc (p + i) = omega arith in rw e (get_or-drop p s i d)

pub length-drop : (p : ℕ) (s : List ℕ) → length (drop p s) ≡ length s - p
length-drop zero s = omega arith
length-drop (suc p) [] = omega arith
length-drop (suc p) (c ∷ s) = omega (arith, length-drop p s)

pub length-take : (n : ℕ) (s : List ℕ) → n ≤ length s → length (take n s) ≡ n
length-take zero s l = refl
length-take (suc n) [] l = absurd (omega arith)
length-take (suc n) (c ∷ s) l = ap suc (length-take n s (omega arith))

pub get_or-take : (n : ℕ) (s : List ℕ) (i d : ℕ) → i < n → get_or (take n s) i d ≡ get_or s i d
get_or-take zero s i d l = absurd (omega arith)
get_or-take (suc n) [] i d l = refl
get_or-take (suc n) (c ∷ s) zero d l = refl
get_or-take (suc n) (c ∷ s) (suc i) d l = get_or-take n s i d (omega arith)

pub take-take : (i n : ℕ) (s : List ℕ) → i ≤ n → take i (take n s) ≡ take i s
take-take zero n s l = refl
take-take (suc i) zero s l = absurd (omega arith)
take-take (suc i) (suc n) [] l = refl
take-take (suc i) (suc n) (c ∷ s) l = ap (λ t. c ∷ t) (take-take i n s (omega arith))

pub take_all : (n : ℕ) (s : List ℕ) → length s ≡ n → take n s ≡ s
take_all zero [] e = refl
take_all zero (c ∷ s) e = absurd (omega arith)
take_all (suc n) [] e = refl
take_all (suc n) (c ∷ s) e = ap (λ t. c ∷ t) (take_all n s (omega arith))

-- strspn(s, "/") counts slashes.
pub leading_run : (s : List ℕ) (i : ℕ) → i < leading s → get_or s i 0 ≡ slash
unfolding leading
leading_run [] i l = absurd (omega arith)
leading_run (c ∷ s) zero l = ground arith
leading_run (c ∷ s) (suc i) l = ground (arith, leading_run s i)

pub leading-le : (s : List ℕ) → leading s ≤ length s
unfolding leading
leading-le [] = omega arith
leading-le (c ∷ s) = ground (arith, leading-le s)

-- What trim_slashes cuts off is slashes.
pub trim_slashes_cut :
    (low : ℕ) (s : List ℕ) (n i : ℕ) → trim_slashes low s n ≤ i → i < n → get_or s i 0 ≡ slash
unfolding trim_slashes
trim_slashes_cut low s zero i a b = absurd (omega arith)
trim_slashes_cut low s (suc n) i a b = elim (Bool-cases (i == n)) [
  | inl y ↦ ground (arith, a, y, ap (λ k. get_or s k 0) ((==_iff i n).0 y))
  | inr y ↦ ground (arith, a, b, y, trim_slashes_cut low s n i)
]

pub trim_slashes-le : (low : ℕ) (s : List ℕ) (n : ℕ) → trim_slashes low s n ≤ n
unfolding trim_slashes
trim_slashes-le low s zero = omega arith
trim_slashes-le low s (suc n) = ground (arith, trim_slashes-le low s n)

pub same_text_refl : (s : List ℕ) → same_text s s ≡ true
unfolding same_text
same_text_refl [] = refl
same_text_refl (c ∷ s) = ground (arith, same_text_refl s)
