-- ===== src/Ls/Stack.antt =====
-- The stack of visited directories: they are different ones, and there are only so many.
use mkrn.Prelude.{
  suc, ◌≤◌, ◌≡◌, ◌⊎◌, inl, inr, refl, ap, ◌∙◌, arith, ◌||◌, if◌then◌else◌, if_true, if_false, Bool,
  Bool-cases, true, false, none, some, List, [], ◌∷◌, length,
}
use mkrn.Ls.{Key, same_key, seen, pushvisit, popvisit}

abbrev pub All {ℓ} : {A : Type ℓ} → (A → Type 0) → List A → Type 0
All P [] = Unit {0}
All P (x ∷ xs) = P x × All P xs

-- No directory stands on the stack two times, and all are among `dirs`.
abbrev pub AreDistinct : List Key → Type 0
AreDistinct [] = Unit {0}
AreDistinct (k ∷ stack) = (seen k stack ≡ false) × AreDistinct stack

abbrev pub AreAmong : List Key → List Key → Type 0
AreAmong dirs = All (λ k. seen k dirs ≡ true)

pub remove : Key → List Key → List Key
remove k [] = []
remove k (j ∷ dirs) = let rest : List Key = remove k dirs in if same_key k j then dirs else j ∷ rest

or_second : (a b : Bool) → a ≡ false → (a || b) ≡ true → b ≡ true
or_second a b h e = ground arith

length-remove :
    (k : Key) (dirs : List Key) → seen k dirs ≡ true → suc (length (remove k dirs)) ≡ length dirs
unfolding remove seen
length-remove k [] e = cc
length-remove k (j ∷ dirs) e = elim (Bool-cases (same_key k j)) [
  | inl y ↦
      ap (λ (t : List Key). suc (length t)) (if_true (same_key k j) dirs (j ∷ remove k dirs) y)
  | inr y ↦
      ap (λ (t : List Key). suc (length t)) (if_false (same_key k j) dirs (j ∷ remove k dirs) y)
      ∙ ap suc (length-remove k dirs (or_second (same_key k j) (seen k dirs) y e))
]

other_key : (k j i : Key) → same_key k j ≡ false → same_key k i ≡ true → same_key j i ≡ false
other_key (k, k') (j, j') (i, i') h e = ground arith

same_key_sym : (k j : Key) → same_key k j ≡ same_key j k
same_key_sym (k, k') (j, j') = ground arith

seen-remove :
    (k j : Key) (dirs : List Key)
    → same_key k j ≡ false
    → seen j dirs ≡ true
    → seen j (remove k dirs) ≡ true
unfolding remove seen
seen-remove k j [] h e = cc
seen-remove k j (i ∷ dirs) h e = elim (Bool-cases (same_key k i)) [
  | inl y ↦
      ap (seen j) (if_true (same_key k i) dirs (i ∷ remove k dirs) y)
      ∙ or_second (same_key j i) (seen j dirs) (other_key k j i h y) e
  | inr y ↦
      ap (seen j) (if_false (same_key k i) dirs (i ∷ remove k dirs) y)
      ∙ elim (Bool-cases (same_key j i)) [
        | inl z ↦ rw z refl
        | inr z ↦ rw z (seen-remove k j dirs h (or_second (same_key j i) (seen j dirs) z e))
      ]
]

AreAmong-remove :
    (k : Key) (stack dirs : List Key)
    → seen k stack ≡ false
    → AreAmong dirs stack
    → AreAmong (remove k dirs) stack
unfolding seen
AreAmong-remove k [] dirs n a = tt
AreAmong-remove k (j ∷ stack) dirs n a = (
  seen-remove k j dirs (ground (arith, n)) a.0,
  AreAmong-remove k stack dirs (ground (arith, n)) a.1,
)

-- A stack of different directories is not longer than the list of all.
pub pigeonhole :
    (stack dirs : List Key) → AreDistinct stack → AreAmong dirs stack → length stack ≤ length dirs
pigeonhole [] dirs d a = omega arith
pigeonhole (k ∷ stack) dirs d a = omega (
  arith,
  length-remove k dirs a.0,
  pigeonhole stack (remove k dirs) d.1 (AreAmong-remove k stack dirs d.0 a.1),
)

pub popvisit_lem : (k : Key) (stack : List Key) → popvisit (k ∷ stack) ≡ stack
unfolding popvisit
popvisit_lem k stack = refl

pub pushvisit_cases :
    (k : Key) (stack : List Key)
    → (pushvisit k stack ≡ none) ⊎ ((pushvisit k stack ≡ some (k ∷ stack)) × (seen k stack ≡ false))
unfolding pushvisit
pushvisit_cases k stack = elim (Bool-cases (seen k stack)) [
  | inl y ↦ inl (if_true _ _ _ y)
  | inr y ↦ inr (if_false _ _ _ y, y)
]
