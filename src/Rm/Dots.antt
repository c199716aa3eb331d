-- ===== src/Rm/Dots.antt =====
-- Which paths isdotname finds, without its search for the last slash.
use mkrn.Prelude.{
  ℕ, zero, suc, ◌<◌, ◌≡◌, ◌≢◌, refl, arith, true, false, List, [], ◌∷◌, ◌++◌, get_or,
}
use mkrn.Path.{slash, same_text}
use mkrn.Path.Last.{after_slash-name, after_slash-plain}
use mkrn.Rm.{isdotname}

-- The path is dot or dot-dot, or one of them stands behind its last slash.
pub data EndsInDots : List ℕ → Type 0 where
  one : EndsInDots (b'.' ∷ [])
  two : EndsInDots (b'.' ∷ b'.' ∷ [])
  one_below : (dir : List ℕ) → EndsInDots (dir ++ (slash ∷ b'.' ∷ []))
  two_below : (dir : List ℕ) → EndsInDots (dir ++ (slash ∷ b'.' ∷ b'.' ∷ []))

name_one : (i : ℕ) → i < 1 → get_or (b'.' ∷ []) i 0 ≢ slash
name_one zero l e = absurd (omega (arith, e))
name_one (suc i) l e = absurd (omega arith)

name_two : (i : ℕ) → i < 2 → get_or (b'.' ∷ b'.' ∷ []) i 0 ≢ slash
name_two zero l e = absurd (omega (arith, e))
name_two (suc zero) l e = absurd (omega (arith, e))
name_two (suc (suc i)) l e = absurd (omega arith)

isdotname-EndsInDots : (q : List ℕ) → EndsInDots q → isdotname q ≡ true
unfolding isdotname same_text
isdotname-EndsInDots q one = rw (after_slash-plain (b'.' ∷ []) (λ i l e. name_one i l e)) refl
isdotname-EndsInDots q two =
    rw (after_slash-plain (b'.' ∷ b'.' ∷ []) (λ i l e. name_two i l e)) refl
isdotname-EndsInDots q (one_below dir) =
    rw (after_slash-name dir (b'.' ∷ []) (λ i l e. name_one i l e)) refl
isdotname-EndsInDots q (two_below dir) =
    rw (after_slash-name dir (b'.' ∷ b'.' ∷ []) (λ i l e. name_two i l e)) refl

pub no_dots : (q : List ℕ) → isdotname q ≡ false → ¬ (EndsInDots q)
no_dots q e d = absurd (ground (arith, e, isdotname-EndsInDots q d))
