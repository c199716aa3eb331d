-- ===== src/Pmm/Free.antt =====
-- pmm_free, its round trip with pmm_alloc, and any sequence of calls.
use mkrn.Prelude.{
  ℕ, ◌/◌, ◌^◌, ◌≤◌, ◌≡◌, ◌≢◌, inl, inr, ap, ◌∙◌, arith, ltb, ◌==◌, if◌then◌else◌, ◌&&◌, Bool-cases,
  List, [], ◌∷◌,
}
use mkrn.Pmm.{
  Pmm, page_size, bit_test, pmm_alloc, pmm_free, pmm_reserve, pmm_free_region, pmm_init, pmm_nfree,
  pmm_npages,
}
use mkrn.Pmm.Bitmap.{IsBytes}
use mkrn.Pmm.Invariant.{
  IsValid, count_free, count_free-ext, npages_total-free_page, bit_test-free_page,
  free_page-IsValid,
}
use mkrn.Pmm.Init.{pmm_init-IsValid}
use mkrn.Pmm.Search.{Granted}
use mkrn.Pmm.Alloc.{pmm_alloc_lem}
use mkrn.Pmm.Region.{pmm_reserve-IsValid, pmm_free_region-IsValid}

pmm_free-IsValid : (s : Pmm) (paddr : ℕ) → IsValid s → IsValid (pmm_free s paddr)
unfolding pmm_free
pmm_free-IsValid s paddr v = elim (Bool-cases (ltb (paddr / page_size) s.npages_total)) [
  | inl e ↦ rw e (free_page-IsValid s v _ (ground arith))
  | inr e ↦ rw e v
]

npages_total-pmm_free : (s : Pmm) (paddr : ℕ) → (pmm_free s paddr).npages_total ≡ s.npages_total
unfolding pmm_free
npages_total-pmm_free s paddr = ground (arith, npages_total-free_page s (paddr / page_size))

-- From a valid state pmm_free clears the bit of the page that holds the address, if the bitmap
-- has that page, and changes no other bit.
bit_test-pmm_free :
    (s : Pmm) (paddr q : ℕ)
    → IsValid s
    → bit_test (pmm_free s paddr) q ≡ (
        if ltb (paddr / page_size) s.npages_total && (paddr / page_size == q)
        then 0
        else bit_test s q)
unfolding pmm_free
bit_test-pmm_free s paddr q v = ground (arith, bit_test-free_page s v.bytes (paddr / page_size) q)

-- From a valid state whose free counter is not 0, freeing the address that pmm_alloc has just
-- returned restores every bit and the free counter.
pmm_free-pmm_alloc :
    (s : Pmm)
    → IsValid s
    → s.npages_free ≢ 0
    → let (pa, s') = pmm_alloc s in
      ((q : ℕ) → bit_test (pmm_free s' pa) q ≡ bit_test s q)
      × ((pmm_free s' pa).npages_free ≡ s.npages_free)
pmm_free-pmm_alloc s v h = elim (pmm_alloc_lem s v) [
  | inl g ↦ (bits_lem g, count_lem g)
  | inr g ↦ absurd (h g.none_free)
]
  where
    bits_lem :
        Granted s (pmm_alloc s)
        → (q : ℕ) → bit_test (pmm_free (pmm_alloc s).1 (pmm_alloc s).0) q ≡ bit_test s q
    bits_lem g q = ground (
      arith,
      bit_test-pmm_free (pmm_alloc s).1 (pmm_alloc s).0 q g.valid,
      g.bits q,
      ap (bit_test s) {x = g.page} {y = q},
    )

    count_lem :
        Granted s (pmm_alloc s)
        → (pmm_free (pmm_alloc s).1 (pmm_alloc s).0).npages_free ≡ s.npages_free
    count_lem g = omega (
      arith,
      v.counted,
      (pmm_free-IsValid (pmm_alloc s).1 (pmm_alloc s).0 g.valid).counted,
      count_free-ext _ _ s.npages_total (λ q l. bits_lem g q),
      ap (count_free (bit_test (pmm_free (pmm_alloc s).1 (pmm_alloc s).0)))
          (npages_total-pmm_free (pmm_alloc s).1 (pmm_alloc s).0 ∙ g.total),
    )

-- The calls of the memory manager's interface that change its state.
pub data Call : Type 0 where
  reserve free_region : ℕ → ℕ → Call
  alloc : Call
  free : ℕ → Call

pub step : Pmm → Call → Pmm
step s (reserve base len) = pmm_reserve s base len
step s (free_region base len) = pmm_free_region s base len
step s alloc = (pmm_alloc s).1
step s (free paddr) = pmm_free s paddr

pub run : Pmm → List Call → Pmm
run s [] = s
run s (c ∷ cs) = run (step s c) cs

pmm_alloc-IsValid : (s : Pmm) → IsValid s → IsValid (pmm_alloc s).1
pmm_alloc-IsValid s v = elim (pmm_alloc_lem s v) [ inl g ↦ g.valid | inr g ↦ g.valid ]

step-IsValid : (s : Pmm) (c : Call) → IsValid s → IsValid (step s c)
unfolding step
step-IsValid s (reserve base len) v = pmm_reserve-IsValid s base len v
step-IsValid s (free_region base len) v = pmm_free_region-IsValid s base len v
step-IsValid s alloc v = pmm_alloc-IsValid s v
step-IsValid s (free paddr) v = pmm_free-IsValid s paddr v

run-IsValid : (t : Pmm) (cs : List Call) → IsValid t → IsValid (run t cs)
unfolding run
run-IsValid t [] v = v
run-IsValid t (c ∷ cs) v = run-IsValid (step t c) cs (step-IsValid t c v)

-- On a memory of bytes, whatever calls follow pmm_init with at most 2 ^ 20 pages, in whatever
-- order and with whatever arguments, the counter that pmm_nfree returns is the number of clear
-- bits of the bitmap.
pub pmm_nfree-run :
    (s : Pmm) (addr npages : ℕ) (cs : List Call)
    → IsBytes s.mem
    → npages ≤ 2 ^ 20
    → let t = run (pmm_init s addr npages) cs in
      pmm_nfree t ≡ count_free (bit_test t) (pmm_npages t)
unfolding pmm_nfree pmm_npages
pmm_nfree-run s addr npages cs b l =
    (run-IsValid _ cs (pmm_init-IsValid s addr npages b l).0).counted
