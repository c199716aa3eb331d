-- ===== src/Pmm/Region.antt =====
-- pmm_reserve and pmm_free_region: which pages they mark, stated on byte addresses.
use mkrn.Prelude.{
  ℕ, zero, suc, ◌+◌, ◌-◌, ◌*◌, ◌/◌, ◌%◌, ◌^◌, ◌≤◌, ◌<◌, ◌≡◌, ◌∙◌, arith, ltb, leb, ◌==◌,
  if◌then◌else◌, ◌&&◌, Bool, Bool-cases, inl, inr, u32_mod, u64_mod,
}
use mkrn.Pmm.{
  Pmm, page_size, bit_test, reserve_page, free_page, reserve_loop, free_loop, page_limit,
  page_trunc, pmm_reserve, pmm_free_region,
}
use mkrn.Pmm.Invariant.{
  IsValid, bit_test-reserve_page, bit_test-free_page, reserve_page-IsValid, free_page-IsValid,
  npages_total-reserve_page, npages_total-free_page,
}

abbrev in_range : ℕ → ℕ → ℕ → Bool
in_range p n q = leb p q && ltb q (p + n)

reserve_loop-IsValid :
    (s : Pmm) (p n : ℕ) → IsValid s → p + n ≤ s.npages_total → IsValid (reserve_loop s p n)
unfolding reserve_loop
reserve_loop-IsValid s p zero v l = v
reserve_loop-IsValid s p (suc n) v l =
    reserve_loop-IsValid (reserve_page s p) (p + 1) n (reserve_page-IsValid s v p (omega arith))
      (omega (arith, npages_total-reserve_page s p))

bit_test-reserve_loop :
    (s : Pmm) (p n q : ℕ)
    → IsValid s
    → p + n ≤ s.npages_total
    → bit_test (reserve_loop s p n) q ≡ (if in_range p n q then 1 else bit_test s q)
unfolding reserve_loop
bit_test-reserve_loop s p zero q v l = ground arith
bit_test-reserve_loop s p (suc n) q v l =
    bit_test-reserve_loop (reserve_page s p) (p + 1) n q (reserve_page-IsValid s v p (omega arith))
      (omega (arith, npages_total-reserve_page s p))
    ∙ ground (arith, bit_test-reserve_page s v.bytes p q)

free_loop-IsValid :
    (s : Pmm) (p n : ℕ) → IsValid s → p + n ≤ s.npages_total → IsValid (free_loop s p n)
unfolding free_loop
free_loop-IsValid s p zero v l = v
free_loop-IsValid s p (suc n) v l =
    free_loop-IsValid (free_page s p) (p + 1) n (free_page-IsValid s v p (omega arith))
      (omega (arith, npages_total-free_page s p))

bit_test-free_loop :
    (s : Pmm) (p n q : ℕ)
    → IsValid s
    → p + n ≤ s.npages_total
    → bit_test (free_loop s p n) q ≡ (if in_range p n q then 0 else bit_test s q)
unfolding free_loop
bit_test-free_loop s p zero q v l = ground arith
bit_test-free_loop s p (suc n) q v l =
    bit_test-free_loop (free_page s p) (p + 1) n q (free_page-IsValid s v p (omega arith))
      (omega (arith, npages_total-free_page s p))
    ∙ ground (arith, bit_test-free_page s v.bytes p q)

-- The loop from `p` while below `e`, for an end `e` within the bitmap.
reserve_range-IsValid :
    (s : Pmm) (p e : ℕ) → IsValid s → e ≤ s.npages_total → IsValid (reserve_loop s p (e - p))
reserve_range-IsValid s p e v l = elim (Bool-cases (leb p e)) [
  | inl h ↦ reserve_loop-IsValid s p (e - p) v (ground arith)
  | inr h ↦ let none_left : e - p ≡ 0 = ground arith in rw none_left (unfold reserve_loop in v)
]

bit_test-reserve_range :
    (s : Pmm) (p e q : ℕ)
    → IsValid s
    → e ≤ s.npages_total
    → bit_test (reserve_loop s p (e - p)) q ≡ (if leb p q && ltb q e then 1 else bit_test s q)
bit_test-reserve_range s p e q v l = elim (Bool-cases (leb p e)) [
  | inl h ↦ bit_test-reserve_loop s p (e - p) q v (ground arith) ∙ ground arith
  | inr h ↦
      let none_left : e - p ≡ 0 = ground arith in rw none_left (unfold reserve_loop in ground arith)
]

-- The loop from `p` while below `e`, for an end `e` within the bitmap.
free_range-IsValid :
    (s : Pmm) (p e : ℕ) → IsValid s → e ≤ s.npages_total → IsValid (free_loop s p (e - p))
free_range-IsValid s p e v l = elim (Bool-cases (leb p e)) [
  | inl h ↦ free_loop-IsValid s p (e - p) v (ground arith)
  | inr h ↦ let none_left : e - p ≡ 0 = ground arith in rw none_left (unfold free_loop in v)
]

bit_test-free_range :
    (s : Pmm) (p e q : ℕ)
    → IsValid s
    → e ≤ s.npages_total
    → bit_test (free_loop s p (e - p)) q ≡ (if leb p q && ltb q e then 0 else bit_test s q)
bit_test-free_range s p e q v l = elim (Bool-cases (leb p e)) [
  | inl h ↦ bit_test-free_loop s p (e - p) q v (ground arith) ∙ ground arith
  | inr h ↦
      let none_left : e - p ≡ 0 = ground arith in rw none_left (unfold free_loop in ground arith)
]

page_limit-le : (s : Pmm) (end : ℕ) → page_limit s end ≤ s.npages_total
unfolding page_limit
page_limit-le s end = ground arith

page_limit_lem :
    (s : Pmm) (end q : ℕ)
    → q < s.npages_total
    → ltb q (page_limit s end) ≡ ltb q (end / page_size % u32_mod)
unfolding page_limit
page_limit_lem s end q h = ground arith

-- The page `q` shares a byte with the `len` bytes at `base`.
abbrev pub touches : ℕ → ℕ → ℕ → Bool
touches base len q =
    ltb 0 len && (ltb (q * page_size) (base + len) && ltb base (q * page_size + page_size))

-- The page `q` lies whole within the `len` bytes at `base`.
abbrev covers : ℕ → ℕ → ℕ → Bool
covers base len q = leb base (q * page_size) && leb (q * page_size + page_size) (base + len)

-- pmm_reserve keeps the invariant, whatever the region: its loop stays below the page count.
pub pmm_reserve-IsValid : (s : Pmm) (base len : ℕ) → IsValid s → IsValid (pmm_reserve s base len)
unfolding pmm_reserve
pmm_reserve-IsValid s base len v = elim (Bool-cases (len == 0)) [
  | inl h ↦ rw h v
  | inr h ↦ rw h (reserve_range-IsValid s _ (page_limit s _) v (page_limit-le s _))
]

-- pmm_free_region keeps the invariant, whatever the region.
pub pmm_free_region-IsValid :
    (s : Pmm) (base len : ℕ) → IsValid s → IsValid (pmm_free_region s base len)
unfolding pmm_free_region
pmm_free_region-IsValid s base len v = elim (Bool-cases (len == 0)) [
  | inl h ↦ rw h v
  | inr h ↦
      elim (Bool-cases
        (ltb ((base + len) % u64_mod) (page_trunc ((base + page_size - 1) % u64_mod)))) [
          | inl k ↦ rw (h, k) v
          | inr k ↦ rw (h, k) (free_range-IsValid s _ (page_limit s _) v (page_limit-le s _))
        ]
]

-- From a valid state and for a region that ends below 2 ^ 44 - 4096, pmm_reserve marks as busy
-- every page of the bitmap that shares a byte with the region, and leaves the bits of all other
-- pages of the bitmap as they were.
pub bit_test-pmm_reserve :
    (s : Pmm) (base len q : ℕ)
    → IsValid s
    → base + len + page_size < 2 ^ 44
    → q < s.npages_total
    → bit_test (pmm_reserve s base len) q ≡ (if touches base len q then 1 else bit_test s q)
unfolding pmm_reserve
bit_test-pmm_reserve s base len q v l h = ground (
  arith,
  bit_test-reserve_range s (page_trunc base / page_size % u32_mod)
      (page_limit s (page_trunc ((base + len + page_size - 1) % u64_mod))) q v (page_limit-le s _),
  page_limit_lem s (page_trunc ((base + len + page_size - 1) % u64_mod)) q h,
)

-- From a valid state and for a region that ends below 2 ^ 44 - 4096, pmm_free_region marks as
-- free every page of the bitmap that lies whole within the region, and leaves the bits of all
-- other pages of the bitmap as they were.
pub bit_test-pmm_free_region :
    (s : Pmm) (base len q : ℕ)
    → IsValid s
    → base + len + page_size < 2 ^ 44
    → q < s.npages_total
    → bit_test (pmm_free_region s base len) q ≡ (if covers base len q then 0 else bit_test s q)
unfolding pmm_free_region
bit_test-pmm_free_region s base len q v l h = ground (
  arith,
  bit_test-free_range s (page_trunc ((base + page_size - 1) % u64_mod) / page_size % u32_mod)
      (page_limit s (page_trunc ((base + len) % u64_mod))) q v (page_limit-le s _),
  page_limit_lem s (page_trunc ((base + len) % u64_mod)) q h,
)
