-- ===== src/Pmm/Alloc.antt =====
-- pmm_alloc, on both of its results.
use mkrn.Prelude.{
  ℕ, ◌+◌, ◌-◌, ◌<◌, ◌≡◌, ◌⊎◌, ◌↔◌, inl, inr, refl, ap, sym, ◌∙◌, arith, leb, if◌then◌else◌,
}
use mkrn.Pmm.{Pmm, pmm_enomem, bit_test, alloc_loop, pmm_alloc}
use mkrn.Pmm.Invariant.{IsValid, count_free-pos, count_free-zero, count_free-le}
use mkrn.Pmm.Search.{ahead, alloc_loop_lem, Granted, Refused}

-- In a full round the cursor comes to every page.
ahead_reaches :
    (s : Pmm) (q : ℕ)
    → s.alloc_cursor < s.npages_total
    → q < s.npages_total
    → (k : ℕ) × (k < s.npages_total) × (ahead s k ≡ q)
ahead_reaches s q c h = (
  if leb s.alloc_cursor q then q - s.alloc_cursor else q + s.npages_total - s.alloc_cursor,
  ground arith,
  ground arith,
)

-- The search failed: the error value, no page free, and nothing changed.
pub record Exhausted (s : Pmm) (r : ℕ × Pmm) : Type 0 where
  pub enomem : r.0 ≡ pmm_enomem
  pub valid : IsValid r.1
  pub bits : (q : ℕ) → bit_test r.1 q ≡ bit_test s q
  pub full : (q : ℕ) → q < s.npages_total → bit_test s q ≡ 1
  pub none_free : s.npages_free ≡ 0

Exhausted-of_Refused :
    (s : Pmm)
    → IsValid s
    → s.alloc_cursor < s.npages_total
    → Refused s s.npages_total (pmm_alloc s)
    → Exhausted s (pmm_alloc s)
Exhausted-of_Refused s v c g = record {
  enomem = g.enomem;
  valid = g.valid;
  bits = g.bits;
  full = full_lem;
  none_free = v.counted ∙ count_free-zero (bit_test s) s.npages_total full_lem;
}
  where
    full_lem : (q : ℕ) → q < s.npages_total → bit_test s q ≡ 1
    full_lem q h = let (k, l, e) = ahead_reaches s q c h in ap (bit_test s) (sym e) ∙ g.full k l

Exhausted-of_empty :
    (s : Pmm) → IsValid s → s.npages_total ≡ 0 → Exhausted s (alloc_loop s s.npages_total)
Exhausted-of_empty s v z = rw (ap (alloc_loop s) z) (
    unfold alloc_loop in
    record {
      enomem = refl;
      valid = v;
      bits = λ q. refl;
      full = λ q h. absurd (omega arith);
      none_free = omega (arith, v.counted, count_free-le (bit_test s) s.npages_total);
    })

-- From a valid state pmm_alloc either hands out a page of the bitmap that was free, with that
-- page's bit set and no other changed, or it returns PMM_ENOMEM with every page busy, the free
-- counter at 0 and no bit changed. The state stays valid.
pub pmm_alloc_lem : (s : Pmm) → IsValid s → Granted s (pmm_alloc s) ⊎ Exhausted s (pmm_alloc s)
unfolding pmm_alloc
pmm_alloc_lem s v = elim v.cursor_in [
  | inl c ↦ elim (alloc_loop_lem s.npages_total s v c (omega arith)) [
    | inl g ↦ inl g
    | inr g ↦ inr (Exhausted-of_Refused s v c g)
  ]
  | inr z ↦ inr (Exhausted-of_empty s v z)
]

-- From a valid state pmm_alloc returns PMM_ENOMEM exactly when the free counter is 0.
pmm_alloc-enomem_iff : (s : Pmm) → IsValid s → ((pmm_alloc s).0 ≡ pmm_enomem) ↔ (s.npages_free ≡ 0)
pmm_alloc-enomem_iff s v = elim (pmm_alloc_lem s v) [
  | inl g ↦ (
    λ e. absurd (omega (arith, g.address, g.in_bitmap, v.total_le)),
    λ e. absurd (
        omega (
          arith,
          v.counted,
          count_free-pos (bit_test s) g.page s.npages_total g.in_bitmap g.was_free,
        )),
  )
  | inr g ↦ (λ e. g.none_free, λ e. g.enomem)
]
