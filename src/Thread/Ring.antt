-- ===== src/Thread/Ring.antt =====
-- The circular list of threads.
use mkrn.Prelude.{ℕ, ◌≡◌, ◌≢◌, ap, sym, ◌∙◌, List, [], ◌∷◌, ◌++◌}
use mkrn.Thread.{Thread, ready}

-- From `a` the `next` pointers lead through `xs` to `b`.
abbrev pub Chain : (ℕ → Thread) → ℕ → List ℕ → ℕ → Type 0
Chain th a [] b = (th a).next ≡ b
Chain th a (x ∷ xs) b = ((th a).next ≡ x) × Chain th x xs b

-- None of `xs` is `a`.
abbrev pub NotIn : ℕ → List ℕ → Type 0
NotIn a [] = Unit {0}
NotIn a (x ∷ xs) = (a ≢ x) × NotIn a xs

abbrev pub Distinct : List ℕ → Type 0
Distinct [] = Unit {0}
Distinct (x ∷ xs) = NotIn x xs × Distinct xs

-- Every one of `xs` is the address of a thread that waits for its turn.
abbrev pub AllReady : (ℕ → Thread) → List ℕ → Type 0
AllReady th [] = Unit {0}
AllReady th (x ∷ xs) = (x ≢ 0) × ((th x).state ≡ ready) × AllReady th xs

pub Chain-append :
    (th : ℕ → Thread) (a b c : ℕ) (xs : List ℕ)
    → Chain th a xs c
    → (th c).next ≡ b
    → Chain th a (xs ++ c ∷ []) b
Chain-append th a b c [] h e = (h, e)
Chain-append th a b c (x ∷ xs) h e = (h.0, Chain-append th x b c xs h.1 e)

pub Chain-ext :
    (th th' : ℕ → Thread) (a b : ℕ) (xs : List ℕ)
    → ((q : ℕ) → (th' q).next ≡ (th q).next)
    → Chain th a xs b
    → Chain th' a xs b
Chain-ext th th' a b [] same h = same a ∙ h
Chain-ext th th' a b (x ∷ xs) same h = (same a ∙ h.0, Chain-ext th th' x b xs same h.1)

-- The links of `xs` do not change when two other threads change; the link to its first is given.
pub Chain-away :
    (th th' : ℕ → Thread) (a b c u v : ℕ) (xs : List ℕ)
    → NotIn u xs
    → NotIn v xs
    → ((q : ℕ) → q ≢ u → q ≢ v → th' q ≡ th q)
    → (th' b).next ≡ (th a).next
    → Chain th a xs c
    → Chain th' b xs c
Chain-away th th' a b c u v [] n m same e h = e ∙ h
Chain-away th th' a b c u v (x ∷ xs) n m same e h = (
  e ∙ h.0,
  Chain-away th th' x x c u v xs n.1 m.1 same
      (ap (λ t. t.next) (same x (λ k. n.0 (sym k)) (λ k. m.0 (sym k)))) h.1,
)

NotIn-append : (a : ℕ) (xs ys : List ℕ) → NotIn a xs → NotIn a ys → NotIn a (xs ++ ys)
NotIn-append a [] ys h k = k
NotIn-append a (x ∷ xs) ys h k = (h.0, NotIn-append a xs ys h.1 k)

-- Moving the first to the end keeps a list without repetition.
pub Distinct-rotate : (c : ℕ) (xs : List ℕ) → Distinct (c ∷ xs) → Distinct (xs ++ c ∷ [])
Distinct-rotate c [] d = (tt, tt)
Distinct-rotate c (x ∷ xs) d = (
  NotIn-append x xs (c ∷ []) d.1.0 ((λ e. d.0.0 (sym e)), tt),
  Distinct-rotate c xs (d.0.1, d.1.1),
)

-- Changes of two other threads do not matter.
pub AllReady-away :
    (th th' : ℕ → Thread) (a b : ℕ) (xs : List ℕ)
    → NotIn a xs
    → NotIn b xs
    → ((q : ℕ) → q ≢ a → q ≢ b → th' q ≡ th q)
    → AllReady th xs
    → AllReady th' xs
AllReady-away th th' a b [] n m same h = tt
AllReady-away th th' a b (x ∷ xs) n m same h = (
  h.0,
  ap (λ t. t.state) (same x (λ e. n.0 (sym e)) (λ e. m.0 (sym e))) ∙ h.1,
  AllReady-away th th' a b xs n.1 m.1 same h.2,
)

pub AllReady-append :
    (th : ℕ → Thread) (xs ys : List ℕ) → AllReady th xs → AllReady th ys → AllReady th (xs ++ ys)
AllReady-append th [] ys h k = k
AllReady-append th (x ∷ xs) ys h k = (h.0, h.1, AllReady-append th xs ys h.2 k)
