-- ===== src/Pmm/Tests.antt =====
-- The memory manager on a machine of twenty pages with its bitmap at 0x1000.
use mkrn.Prelude.{◌≡◌, ◌≢◌, ◌<◌, ◌⊎◌, inl, refl, arith, ◌==◌, if◌then◌else◌, List, [], ◌∷◌}
use mkrn.Libkern.{memset}
use mkrn.Pmm.{
  Pmm, pmm_init, pmm_enomem, bit_test, bit_set, bit_clear, set_bit8, clear_bit8, test_bit8,
  take_page, give_page, reserve_page, free_page, reserve_loop, free_loop, page_limit, pmm_reserve,
  pmm_free_region, alloc_loop, pmm_alloc, pmm_npages, pmm_nfree,
}
use mkrn.Pmm.Invariant.{IsValid, count_free}
use mkrn.Pmm.Init.{pmm_init-IsValid}
use mkrn.Pmm.Region.{pmm_free_region-IsValid, bit_test-pmm_reserve, bit_test-pmm_free_region}
use mkrn.Pmm.Search.{Granted}
use mkrn.Pmm.Low.{low_free, low_free-all}
use mkrn.Pmm.Alloc.{Exhausted, pmm_alloc_lem}
use mkrn.Pmm.Free.{Call, reserve, free_region, alloc, free, run, pmm_nfree-run}

abbrev pub blank : Pmm
blank = record { mem = λ _. 0; bitmap = 0; npages_total = 0; npages_free = 0; alloc_cursor = 0 }

abbrev booted : Pmm
booted = pmm_init blank 0x1000 20

-- Pages 3 to 6 are free.
abbrev pub some_free : Pmm
some_free = pmm_free_region booted 0x2800 0x4900

pub some_free-IsValid : IsValid some_free
some_free-IsValid =
    pmm_free_region-IsValid booted 0x2800 0x4900
      (pmm_init-IsValid blank 0x1000 20 (λ x. omega arith) (omega arith)).0

pub some_free_bits :
    (bit_test some_free 0 ≡ 1) × (bit_test some_free 2 ≡ 1) × (some_free.npages_free ≡ 4)
unfolding pmm_free_region page_limit free_loop free_page give_page bit_test bit_clear clear_bit8
    test_bit8 pmm_init memset
some_free_bits = (refl, refl, refl)

first_alloc : (pmm_alloc some_free).0 ≡ 0x3000
unfolding pmm_alloc alloc_loop pmm_free_region page_limit free_loop free_page give_page take_page
    bit_test bit_set bit_clear set_bit8 clear_bit8 test_bit8 pmm_init memset
first_alloc = refl

nfree_after : pmm_nfree (pmm_reserve some_free 0x3fff 2) ≡ 2
unfolding pmm_nfree pmm_reserve reserve_loop reserve_page pmm_free_region page_limit free_loop
    free_page give_page take_page bit_test bit_set bit_clear set_bit8 clear_bit8 test_bit8 pmm_init
    memset
nfree_after = refl

nothing_free : (pmm_alloc booted).0 ≡ pmm_enomem
unfolding pmm_alloc alloc_loop bit_test test_bit8 pmm_init memset
nothing_free = refl

bit_test-pmm_reserve_example : bit_test (pmm_reserve some_free 0x3fff 2) 4 ≡ 1
bit_test-pmm_reserve_example =
    bit_test-pmm_reserve some_free 0x3fff 2 4 some_free-IsValid (omega arith) four
  where
    four : 4 < some_free.npages_total
    four =
        unfold pmm_free_region page_limit free_loop free_page give_page bit_test bit_clear
          clear_bit8 test_bit8 pmm_init memset in
        omega arith

bit_test-pmm_free_region_example : bit_test (pmm_free_region booted 0x2800 0x4900) 6 ≡ 0
bit_test-pmm_free_region_example =
    bit_test-pmm_free_region booted 0x2800 0x4900 6
      (pmm_init-IsValid blank 0x1000 20 (λ x. omega arith) (omega arith)).0 (omega arith)
      (unfold pmm_init in omega arith)

pmm_alloc_lem_example :
    Granted some_free (pmm_alloc some_free) ⊎ Exhausted some_free (pmm_alloc some_free)
pmm_alloc_lem_example = pmm_alloc_lem some_free some_free-IsValid

nonzero_free : some_free.npages_free ≢ 0
unfolding pmm_free_region page_limit free_loop free_page give_page bit_test bit_clear clear_bit8
    test_bit8 pmm_init memset
nonzero_free = omega arith

abbrev history : List Call
history = free_region 0x2800 0x4900 ∷ alloc ∷ reserve 0x5000 1 ∷ free 0x3000 ∷ []

pmm_nfree-run_example :
    pmm_nfree (run booted history)
    ≡ count_free (bit_test (run booted history)) (pmm_npages (run booted history))
pmm_nfree-run_example = pmm_nfree-run blank 0x1000 20 history (λ x. omega arith) (omega arith)

-- Six hundred pages, of which pages 0 and 2 are busy.
abbrev pub roomy : Pmm
roomy = record {
  mem = λ x. if x == 0x1000 then 5 else 0;
  bitmap = 0x1000;
  npages_total = 600;
  npages_free = 598;
  alloc_cursor = 0;
}

pub roomy-IsValid : IsValid roomy
unfolding count_free bit_test test_bit8
roomy-IsValid = record {
  bytes = λ x. ground arith;
  total_le = omega arith;
  cursor_in = inl (omega arith);
  counted = refl;
}

pub roomy_bits : (bit_test roomy 0 ≡ 1) × (bit_test roomy 2 ≡ 1)
unfolding bit_test test_bit8
roomy_bits = (refl, refl)

pub roomy_low : low_free roomy 1024 ≡ 598
roomy_low = low_free-all roomy 1024 roomy-IsValid refl (omega arith)

pub some_free_low : low_free some_free 1024 ≡ 4
unfolding pmm_free_region page_limit free_loop free_page give_page bit_test bit_clear clear_bit8
    test_bit8 pmm_init memset
some_free_low = low_free-all some_free 1024 some_free-IsValid refl (omega arith)
