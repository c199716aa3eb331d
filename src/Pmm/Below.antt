-- ===== src/Pmm/Below.antt =====
-- What a call leaves alone: the place of the bitmap, the page count, and the memory below the bitmap.
use mkrn.Prelude.{
  ℕ, zero, suc, ◌+◌, ◌-◌, ◌/◌, ◌%◌, ◌<◌, ◌≡◌, refl, ◌∙◌, arith, inl, ltb, ◌==◌, if_both, add32,
  u64_mod,
}
use mkrn.Libkern.Block.{memset-outside}
use mkrn.Pmm.{
  Pmm, page_size, page_trunc, bit_set, bit_clear, take_page, give_page, reserve_page, free_page,
  reserve_loop, free_loop, pmm_init, pmm_reserve, pmm_free_region, bit_test,
}

pub record Kept (s t : Pmm) : Type 0 where
  pub bitmap : t.bitmap ≡ s.bitmap
  pub total : t.npages_total ≡ s.npages_total
  pub below : (x : ℕ) → x < s.bitmap → t.mem x ≡ s.mem x

Kept-refl : (s : Pmm) → Kept s s
Kept-refl s = record { bitmap = refl; total = refl; below = λ x l. refl }

Kept-trans : (s t u : Pmm) → Kept s t → Kept t u → Kept s u
Kept-trans s t u a b = record {
  bitmap = b.bitmap ∙ a.bitmap;
  total = b.total ∙ a.total;
  below = λ x l. b.below x (omega (arith, l, a.bitmap)) ∙ a.below x l;
}

take_page-Kept : (s : Pmm) (p : ℕ) → Kept s (take_page s p)
unfolding take_page bit_set
take_page-Kept s p = record { bitmap = refl; total = refl; below = λ x l. ground (arith, l) }

give_page-Kept : (s : Pmm) (p : ℕ) → Kept s (give_page s p)
unfolding give_page bit_clear
give_page-Kept s p = record { bitmap = refl; total = refl; below = λ x l. ground (arith, l) }

reserve_loop-Kept : (s : Pmm) (p n : ℕ) → Kept s (reserve_loop s p n)
unfolding reserve_loop reserve_page
reserve_loop-Kept s p zero = Kept-refl s
reserve_loop-Kept s p (suc n) =
    Kept-trans s (reserve_page s p) _
      (if_both (Kept s) (bit_test s p == 0) _ _ (take_page-Kept s p) (Kept-refl s))
      (reserve_loop-Kept (reserve_page s p) (p + 1) n)

free_loop-Kept : (s : Pmm) (p n : ℕ) → Kept s (free_loop s p n)
unfolding free_loop free_page
free_loop-Kept s p zero = Kept-refl s
free_loop-Kept s p (suc n) =
    Kept-trans s (free_page s p) _
      (if_both (Kept s) (bit_test s p == 0) _ _ (Kept-refl s) (give_page-Kept s p))
      (free_loop-Kept (free_page s p) (p + 1) n)

pub pmm_reserve-Kept : (s : Pmm) (base len : ℕ) → Kept s (pmm_reserve s base len)
unfolding pmm_reserve
pmm_reserve-Kept s base len =
    if_both (Kept s) (len == 0) _ _ (Kept-refl s) (reserve_loop-Kept s _ _)

pub pmm_free_region-Kept : (s : Pmm) (base len : ℕ) → Kept s (pmm_free_region s base len)
unfolding pmm_free_region
pmm_free_region-Kept s base len = if_both (Kept s) (len == 0) _ _ (Kept-refl s) (
    if_both (Kept s) (ltb ((base + len) % u64_mod) (page_trunc ((base + page_size - 1) % u64_mod)))
      _ _ (Kept-refl s) (free_loop-Kept s _ _))

pub pmm_init-Kept :
    (s : Pmm) (at n : ℕ)
    → ((pmm_init s at n).bitmap ≡ at)
      × ((pmm_init s at n).npages_total ≡ n)
      × ((x : ℕ) → x < at → (pmm_init s at n).mem x ≡ s.mem x)
unfolding pmm_init
pmm_init-Kept s at n = (refl, refl, λ x l. memset-outside s.mem at 0xff (add32 n 7 / 8) x (inl l))
