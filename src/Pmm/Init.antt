-- ===== src/Pmm/Init.antt =====
-- The state that pmm_init leaves.
use mkrn.Prelude.{
  ℕ, zero, suc, ◌+◌, ◌/◌, ◌%◌, ◌^◌, ◌≤◌, ◌<◌, ◌≡◌, ◌⊎◌, refl, ap, sym, ◌∙◌, arith, holds_below,
  holds_below-at, ==_iff, store, ◌==◌, Mem, add32, true,
}
use mkrn.Libkern.{memset}
use mkrn.Libkern.Block.{memset-Within}
use mkrn.Pmm.{Pmm, bit_test, pmm_init, test_bit8}
use mkrn.Pmm.Bitmap.{IsBytes}
use mkrn.Pmm.Invariant.{IsValid, count_free, count_free-zero}

memset-IsBytes : (m : Mem) (d c len : ℕ) → IsBytes m → IsBytes (memset m d c len)
unfolding memset
memset-IsBytes m d c zero b = b
memset-IsBytes m d c (suc len) b =
    memset-IsBytes (store m d (c % 256)) (d + 1) c len (λ x. ground (arith, b x))

full_table : holds_below (λ j. test_bit8 255 j == 1) 8 ≡ true
unfolding holds_below test_bit8
full_table = refl

bit_test-pmm_init :
    (s : Pmm) (addr npages p : ℕ)
    → npages ≤ 2 ^ 20
    → p < npages
    → bit_test (pmm_init s addr npages) p ≡ 1
unfolding pmm_init bit_test
bit_test-pmm_init s addr npages p l h =
    ap (λ b. test_bit8 b (p % 8))
      (memset-Within s.mem addr 0xff (add32 npages 7 / 8) (addr + p / 8) (omega arith, omega arith))
    ∙ (==_iff _ _).0 (holds_below-at _ 8 (p % 8) (omega arith) full_table)

-- On a memory of bytes and for at most 2 ^ 20 pages, pmm_init leaves a valid state in which
-- every page is marked busy and no page is counted as free.
pub pmm_init-IsValid :
    (s : Pmm) (addr npages : ℕ)
    → IsBytes s.mem
    → npages ≤ 2 ^ 20
    → IsValid (pmm_init s addr npages)
      × ((p : ℕ) → p < npages → bit_test (pmm_init s addr npages) p ≡ 1)
pmm_init-IsValid s addr npages b l = (
  record { bytes = mem_lem; total_le = total_lem l; cursor_in = cursor_lem; counted = counted_lem },
  λ p h. bit_test-pmm_init s addr npages p l h,
)
  where
    mem_lem : IsBytes (pmm_init s addr npages).mem
    mem_lem = unfold pmm_init in memset-IsBytes s.mem addr 0xff _ b

    total_lem : npages ≤ 2 ^ 20 → (pmm_init s addr npages).npages_total ≤ 2 ^ 20
    total_lem h = unfold pmm_init in h

    cursor_lem :
        ((pmm_init s addr npages).alloc_cursor < (pmm_init s addr npages).npages_total)
        ⊎ ((pmm_init s addr npages).npages_total ≡ 0)
    cursor_lem = unfold pmm_init in grind arith

    counted_lem :
        (pmm_init s addr npages).npages_free
        ≡ count_free (bit_test (pmm_init s addr npages)) (pmm_init s addr npages).npages_total
    counted_lem =
        unfold pmm_init in
        sym (
          count_free-zero (bit_test (pmm_init s addr npages)) npages
            (λ p h. bit_test-pmm_init s addr npages p l h))
