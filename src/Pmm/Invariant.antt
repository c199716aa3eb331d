-- ===== src/Pmm/Invariant.antt =====
-- The invariant of the physical memory manager, on the free counter and the bitmap.
use mkrn.Prelude.{
  ℕ, zero, suc, ◌+◌, ◌-◌, ◌^◌, ◌≤◌, ◌<◌, ◌≡◌, ◌≢◌, ◌⊎◌, inl, inr, refl, ap, ◌∙◌, arith, ◌==◌,
  if◌then◌else◌, sub32, add32, Bool-cases,
}
use mkrn.Pmm.{Pmm, bit_test, bit_set, bit_clear, take_page, give_page, reserve_page, free_page}
use mkrn.Pmm.Bitmap.{
  IsBytes, bit_test-bit_set, bit_test-bit_clear, bit_test-lt, bit_set-IsBytes, bit_clear-IsBytes,
}

-- How many of the first `n` pages have a clear bit.
unfoldable pub count_free : (ℕ → ℕ) → ℕ → ℕ
count_free f zero = 0
count_free f (suc n) = count_free f n + (1 - f n)

pub record IsValid (s : Pmm) : Type 0 where
  pub bytes : IsBytes s.mem
  pub total_le : s.npages_total ≤ 2 ^ 20
  pub cursor_in : (s.alloc_cursor < s.npages_total) ⊎ (s.npages_total ≡ 0)
  pub counted : s.npages_free ≡ count_free (bit_test s) s.npages_total

pub count_free-le : (f : ℕ → ℕ) (n : ℕ) → count_free f n ≤ n
unfolding count_free
count_free-le f zero = omega arith
count_free-le f (suc n) = omega (arith, count_free-le f n)

pub count_free-ext :
    (f g : ℕ → ℕ) (n : ℕ) → ((q : ℕ) → q < n → f q ≡ g q) → count_free f n ≡ count_free g n
unfolding count_free
count_free-ext f g zero h = refl
count_free-ext f g (suc n) h =
    omega (arith, count_free-ext f g n (λ q l. h q (omega arith)), h n (omega arith))

-- One page that is clear in `f` and set in `g`, below `n`, makes a difference of one.
pub count_free_step :
    (f g : ℕ → ℕ) (p n : ℕ)
    → p < n
    → f p ≡ 0
    → g p ≡ 1
    → ((q : ℕ) → p ≢ q → f q ≡ g q)
    → count_free f n ≡ count_free g n + 1
unfolding count_free
count_free_step f g p zero l a b h = absurd (omega arith)
count_free_step f g p (suc n) l a b h = elim (Bool-cases (p == n)) [
  | inl e ↦
      let same : count_free f n ≡ count_free g n =
        count_free-ext f g n (λ q k. h q (ground arith)) in
      ground arith
  | inr e ↦ ground (arith, count_free_step f g p n (ground arith) a b h, h n (ground arith))
]

pub count_free-pos : (f : ℕ → ℕ) (p n : ℕ) → p < n → f p ≡ 0 → 0 < count_free f n
unfolding count_free
count_free-pos f p zero l a = absurd (omega arith)
count_free-pos f p (suc n) l a = ground (arith, count_free-pos f p n, ap f {x = p} {y = n})

pub count_free-zero : (f : ℕ → ℕ) (n : ℕ) → ((q : ℕ) → q < n → f q ≡ 1) → count_free f n ≡ 0
unfolding count_free
count_free-zero f zero h = refl
count_free-zero f (suc n) h =
    omega (arith, count_free-zero f n (λ q l. h q (omega arith)), h n (omega arith))

-- A bit depends on the memory and the place of the bitmap alone.
bit_test-with_free : (s : Pmm) (k q : ℕ) → bit_test (record s { npages_free = k }) q ≡ bit_test s q
unfolding bit_test
bit_test-with_free s k q = refl

pub bit_test-with_cursor :
    (s : Pmm) (k q : ℕ) → bit_test (record s { alloc_cursor = k }) q ≡ bit_test s q
unfolding bit_test
bit_test-with_cursor s k q = refl

-- The fields of the state after a page is taken or given back.
module _ (s : Pmm) (p : ℕ) where
  pub npages_total-take_page : (take_page s p).npages_total ≡ s.npages_total
  unfolding take_page bit_set
  npages_total-take_page = refl

  pub alloc_cursor-take_page : (take_page s p).alloc_cursor ≡ s.alloc_cursor
  unfolding take_page bit_set
  alloc_cursor-take_page = refl

  npages_free-take_page : (take_page s p).npages_free ≡ sub32 s.npages_free 1
  unfolding take_page
  npages_free-take_page = refl

  npages_total-give_page : (give_page s p).npages_total ≡ s.npages_total
  unfolding give_page bit_clear
  npages_total-give_page = refl

  alloc_cursor-give_page : (give_page s p).alloc_cursor ≡ s.alloc_cursor
  unfolding give_page bit_clear
  alloc_cursor-give_page = refl

  npages_free-give_page : (give_page s p).npages_free ≡ add32 s.npages_free 1
  unfolding give_page
  npages_free-give_page = refl

module _ (s : Pmm) (bytes : IsBytes s.mem) (p : ℕ) where
  pub bit_test-take_page :
      (q : ℕ) → bit_test (take_page s p) q ≡ (if p == q then 1 else bit_test s q)
  unfolding take_page
  bit_test-take_page q = bit_test-with_free (bit_set s p) _ q ∙ bit_test-bit_set s bytes p q

  bit_test-give_page : (q : ℕ) → bit_test (give_page s p) q ≡ (if p == q then 0 else bit_test s q)
  unfolding give_page
  bit_test-give_page q = bit_test-with_free (bit_clear s p) _ q ∙ bit_test-bit_clear s bytes p q

  take_page-IsBytes : IsBytes (take_page s p).mem
  unfolding take_page
  take_page-IsBytes = bit_set-IsBytes s bytes p

  give_page-IsBytes : IsBytes (give_page s p).mem
  unfolding give_page
  give_page-IsBytes = bit_clear-IsBytes s bytes p

  pub bit_test-reserve_page :
      (q : ℕ) → bit_test (reserve_page s p) q ≡ (if p == q then 1 else bit_test s q)
  unfolding reserve_page
  bit_test-reserve_page q =
      ground (arith, bit_test-take_page q, bit_test-lt s bytes p, ap (bit_test s) {x = p} {y = q})

  pub bit_test-free_page :
      (q : ℕ) → bit_test (free_page s p) q ≡ (if p == q then 0 else bit_test s q)
  unfolding free_page
  bit_test-free_page q = ground (arith, bit_test-give_page q, ap (bit_test s) {x = p} {y = q})

module _ (s : Pmm) (v : IsValid s) (p : ℕ) (l : p < s.npages_total) where
  count_free-take_page :
      bit_test s p ≡ 0
      → count_free (bit_test s) s.npages_total
        ≡ count_free (bit_test (take_page s p)) s.npages_total + 1
  count_free-take_page clear =
      count_free_step (bit_test s) (bit_test (take_page s p)) p s.npages_total l clear
        (ground (arith, bit_test-take_page s v.bytes p p))
        λ q ne. ground (arith, bit_test-take_page s v.bytes p q)

  count_free-give_page :
      bit_test s p ≡ 1
      → count_free (bit_test (give_page s p)) s.npages_total
        ≡ count_free (bit_test s) s.npages_total + 1
  count_free-give_page busy =
      count_free_step (bit_test (give_page s p)) (bit_test s) p s.npages_total l
        (ground (arith, bit_test-give_page s v.bytes p p)) busy
        λ q ne. ground (arith, bit_test-give_page s v.bytes p q)

  pub take_page-IsValid : bit_test s p ≡ 0 → IsValid (take_page s p)
  take_page-IsValid clear = record {
    bytes = take_page-IsBytes s v.bytes p;
    total_le = rw (npages_total-take_page s p) v.total_le;
    cursor_in = rw (npages_total-take_page s p, alloc_cursor-take_page s p) v.cursor_in;
    counted = omega (
      arith,
      v.counted,
      v.total_le,
      count_free-le (bit_test s) s.npages_total,
      count_free-take_page clear,
      npages_free-take_page s p,
      ap (count_free (bit_test (take_page s p))) (npages_total-take_page s p),
    );
  }

  give_page-IsValid : bit_test s p ≡ 1 → IsValid (give_page s p)
  give_page-IsValid busy = record {
    bytes = give_page-IsBytes s v.bytes p;
    total_le = rw (npages_total-give_page s p) v.total_le;
    cursor_in = rw (npages_total-give_page s p, alloc_cursor-give_page s p) v.cursor_in;
    counted = omega (
      arith,
      v.counted,
      v.total_le,
      count_free-le (bit_test (give_page s p)) s.npages_total,
      count_free-give_page busy,
      npages_free-give_page s p,
      ap (count_free (bit_test (give_page s p))) (npages_total-give_page s p),
    );
  }

  pub reserve_page-IsValid : IsValid (reserve_page s p)
  unfolding reserve_page
  reserve_page-IsValid = elim (Bool-cases (bit_test s p == 0)) [
    | inl e ↦ rw e (take_page-IsValid (ground arith))
    | inr e ↦ rw e v
  ]

  pub free_page-IsValid : IsValid (free_page s p)
  unfolding free_page
  free_page-IsValid = elim (Bool-cases (bit_test s p == 0)) [
    | inl e ↦ rw e v
    | inr e ↦ rw e (give_page-IsValid (ground (arith, bit_test-lt s v.bytes p)))
  ]

-- The page's counter moves exactly when its bit does.
module _ (s : Pmm) (p : ℕ) where
  pub npages_total-reserve_page : (reserve_page s p).npages_total ≡ s.npages_total
  unfolding reserve_page
  npages_total-reserve_page = ground (arith, npages_total-take_page s p)

  pub npages_total-free_page : (free_page s p).npages_total ≡ s.npages_total
  unfolding free_page
  npages_total-free_page = ground (arith, npages_total-give_page s p)
