-- ===== src/Ls/Format/Order.antt =====
-- entrycmp is an order that qsort() can work with, if strcoll() is one.
use mkrn.Prelude.{
  ℕ, ◌≡◌, ◌≢◌, ◌⊎◌, inl, inr, refl, ap, sym, ◌∙◌, arith, ◌&&◌, ◌||◌, not, if◌then◌else◌, Bool, true,
  false, List,
}
use mkrn.Ls.{Entry, Flags, entrytime}
use mkrn.Ls.Format.{Sign, below, same, above, flip, orelse, descending, entrycmp}

-- A comparison that is antisymmetric and transitive.
pub record IsOrder {A : Type 0} (cmp : A → A → Sign) : Type 0 where
  pub flips : (a b : A) → cmp b a ≡ flip (cmp a b)
  pub chains : (a b c : A) → cmp a b ≢ above → cmp b c ≢ above → cmp a c ≢ above

-- The order by a number, the largest first.
descending-flips : (a b : ℕ) → descending b a ≡ flip (descending a b)
unfolding descending flip
descending-flips a b = ground arith

descending-chains :
    (a b c : ℕ) → descending a b ≢ above → descending b c ≢ above → descending a c ≢ above
unfolding descending
descending-chains a b c h k = ground arith

pub descending-IsOrder : IsOrder descending
descending-IsOrder = record { flips = descending-flips; chains = descending-chains }

Sign-cases : (s : Sign) → s ≢ above → (s ≡ below) ⊎ (s ≡ same)
Sign-cases below h = inl refl
Sign-cases same h = inr refl
Sign-cases above h = absurd (h refl)

orelse-flip : (s t : Sign) → orelse (flip s) (flip t) ≡ flip (orelse s t)
unfolding orelse flip
orelse-flip below t = refl
orelse-flip same t = refl
orelse-flip above t = refl

flip-flip : (s : Sign) → flip (flip s) ≡ s
unfolding flip
flip-flip below = refl
flip-flip same = refl
flip-flip above = refl

flip-below : flip below ≡ above
unfolding flip
flip-below = refl

flip-same : flip same ≡ same
unfolding flip
flip-same = refl

module _ {A : Type 0} (cmp : A → A → Sign) (order : IsOrder cmp) where
  flipped-IsOrder : IsOrder (λ (a : A) b. flip (cmp a b))
  flipped-IsOrder = record {
    flips = λ a b. ap flip (order.flips a b);
    chains = λ a b c h k e.
        order.chains c b a (λ z. k (sym (order.flips b c) ∙ z)) (λ z. h (sym (order.flips a b) ∙ z))
          (order.flips a c ∙ e);
  }

  -- A step down makes the chain a step down.
  strict_left : (a b c : A) → cmp a b ≡ below → cmp b c ≢ above → cmp a c ≡ below
  strict_left a b c h k = elim (Sign-cases (cmp a c) (order.chains a b c (λ z. cc (sym h ∙ z)) k)) [
    | inl y ↦ y
    | inr y ↦
        let back : cmp c a ≢ above = λ z.
          let both : flip same ≡ above = sym (ap flip y) ∙ sym (order.flips a c) ∙ z in
          cc (sym flip-same ∙ both) in
        absurd (order.chains b c a k back (order.flips a b ∙ ap flip h ∙ flip-below))
  ]

  strict_right : (a b c : A) → cmp a b ≢ above → cmp b c ≡ below → cmp a c ≡ below
  strict_right a b c h k =
      elim (Sign-cases (cmp a c) (order.chains a b c h (λ z. cc (sym k ∙ z)))) [
        | inl y ↦ y
        | inr y ↦
            let back : cmp c a ≢ above = λ z.
              let both : flip same ≡ above = sym (ap flip y) ∙ sym (order.flips a c) ∙ z in
              cc (sym flip-same ∙ both) in
            absurd (order.chains c a b back h (order.flips b c ∙ ap flip k ∙ flip-below))
      ]

  same_chain : (a b c : A) → cmp a b ≡ same → cmp b c ≡ same → cmp a c ≡ same
  same_chain a b c h k =
      elim (Sign-cases (cmp a c) (order.chains a b c (λ z. cc (sym h ∙ z)) (λ z. cc (sym k ∙ z)))) [
        | inl y ↦
            let c_b : cmp c b ≡ same = order.flips b c ∙ ap flip k ∙ flip-same in
            let b_a : cmp b a ≡ same = order.flips a b ∙ ap flip h ∙ flip-same in
            absurd (
              order.chains c b a (λ z. cc (sym c_b ∙ z)) (λ z. cc (sym b_a ∙ z))
                (order.flips a c ∙ ap flip y ∙ flip-below))
        | inr y ↦ y
      ]

orelse-below : (t : Sign) → orelse below t ≢ above
unfolding orelse
orelse-below t e = cc

orelse-same : (t : Sign) → orelse same t ≡ t
unfolding orelse
orelse-same t = refl

orelse-above : (t : Sign) → orelse above t ≡ above
unfolding orelse
orelse-above t = refl

orelse-not_above : (s t : Sign) → orelse s t ≢ above → s ≢ above
unfolding orelse
orelse-not_above below t h e = cc
orelse-not_above same t h e = cc
orelse-not_above above t h e = h refl

module _ {A : Type 0} (f g : A → A → Sign) (first : IsOrder f) (second : IsOrder g) where
  -- The second comparison decides where the first finds no difference.
  lex_chains :
      (a b c : A)
      → orelse (f a b) (g a b) ≢ above
      → orelse (f b c) (g b c) ≢ above
      → orelse (f a c) (g a c) ≢ above
  lex_chains a b c h k =
      let f_ab = orelse-not_above (f a b) (g a b) h in
      let f_bc = orelse-not_above (f b c) (g b c) k in
      elim (Sign-cases (f a b) f_ab) [
        | inl y ↦ rw (strict_left f first a b c y f_bc) (orelse-below (g a c))
        | inr y ↦ elim (Sign-cases (f b c) f_bc) [
          | inl z ↦ rw (strict_right f first a b c f_ab z) (orelse-below (g a c))
          | inr z ↦ λ e.
              second.chains a b c (λ w. h (ap (λ s. orelse s (g a b)) y ∙ orelse-same (g a b) ∙ w))
                (λ w. k (ap (λ s. orelse s (g b c)) z ∙ orelse-same (g b c) ∙ w))
                (sym (orelse-same (g a c))
                  ∙ ap (λ s. orelse s (g a c)) (sym (same_chain f first a b c y z))
                  ∙ e)
        ]
      ]

  lex-IsOrder : IsOrder (λ (a : A) b. orelse (f a b) (g a b))
  lex-IsOrder = record {
    flips = λ a b.
        ap (λ s. orelse s (g b a)) (first.flips a b)
        ∙ ap (λ s. orelse (flip (f a b)) s) (second.flips a b)
        ∙ orelse-flip (f a b) (g a b);
    chains = lex_chains;
  }

  cond-IsOrder : (b : Bool) → IsOrder (λ (x : A) y. if b then f x y else g x y)
  cond-IsOrder true = record { flips = first.flips; chains = first.chains }
  cond-IsOrder false = record { flips = second.flips; chains = second.chains }

-- An order of what a function gives.
pub along-IsOrder :
    {A B : Type 0} (h : A → B) (cmp : B → B → Sign)
    → IsOrder cmp
    → IsOrder (λ (a : A) b. cmp (h a) (h b))
along-IsOrder h cmp order = record {
  flips = λ a b. order.flips (h a) (h b);
  chains = λ a b c. order.chains (h a) (h b) (h c);
}

-- The comparison that ls hands to qsort() is an order for all flags, if strcoll() is one: it is
-- antisymmetric, and what is not above a second entry that is not above a third is not above that.
pub entrycmp_lem :
    (strcoll : List ℕ → List ℕ → Sign) (nameonly : Bool) (fl : Flags)
    → IsOrder strcoll
    → IsOrder (entrycmp strcoll nameonly fl)
unfolding entrycmp
entrycmp_lem strcoll nameonly fl order =
    let names = along-IsOrder (λ (e : Entry). e.name) strcoll order in
    let sizes = along-IsOrder (λ (e : Entry). e.st.size) descending descending-IsOrder in
    let times = along-IsOrder (λ (e : Entry). entrytime fl e.st) descending descending-IsOrder in
    let by_size = lex-IsOrder _ _ sizes names in
    let by_time = lex-IsOrder _ _ times names in
    let keyed = cond-IsOrder _ _ by_size by_time fl.upper_s in
    let c = cond-IsOrder _ _ names keyed (nameonly || (not fl.upper_s && not fl.t)) in
    cond-IsOrder _ _ (flipped-IsOrder _ c) c fl.r
