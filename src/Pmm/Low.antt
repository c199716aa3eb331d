-- ===== src/Pmm/Low.antt =====
-- pmm_alloc hands out pages in order from the cursor: how long it stays below a given page.
use mkrn.Prelude.{
  ℕ, zero, suc, ◌+◌, ◌*◌, ◌%◌, ◌≤◌, ◌<◌, ◌≡◌, ap, sym, ◌∙◌, arith, ltb, ◌==◌, if◌then◌else◌,
  Bool-cases, inl, inr, u32_mod,
}
use mkrn.Pmm.{Pmm, page_size, bit_test, take_page, alloc_loop, pmm_alloc}
use mkrn.Pmm.Bitmap.{bit_test-lt}
use mkrn.Pmm.Invariant.{
  IsValid, count_free, count_free-zero, count_free-ext, count_free_step, alloc_cursor-take_page,
}
use mkrn.Pmm.Search.{
  Granted, next, next-IsValid, next_cursor-lt, bit_test-next, alloc_loop-suc, total_next,
  alloc_cursor-next,
}
use mkrn.Pmm.Alloc.{pmm_alloc_lem}

-- 1 in front of the cursor, and the bit from there on.
abbrev ahead_bit : Pmm → ℕ → ℕ
ahead_bit w q = if ltb q w.alloc_cursor then 1 else bit_test w q

abbrev cut : Pmm → ℕ → ℕ
cut w n = if ltb n w.npages_total then n else w.npages_total

-- How many pages below page `n`, from the cursor on, are free.
abbrev pub low_free : Pmm → ℕ → ℕ
low_free w n = count_free (ahead_bit w) (cut w n)

pub free-of_count : (f : ℕ → ℕ) (n : ℕ) → 0 < count_free f n → (q : ℕ) × (q < n) × (f q ≡ 0)
unfolding count_free
free-of_count f zero l = absurd (omega arith)
free-of_count f (suc n) l = elim (Bool-cases (f n == 0)) [
  | inl e ↦ (n, omega arith, ground (arith, e))
  | inr e ↦
      let (q, below, free) = free-of_count f n (ground (arith, e)) in
      (q, omega (arith, below), free)
]

-- The page of the result `r` is the first free one from the cursor on, and not behind `q`.
record FirstFree (s : Pmm) (q : ℕ) (r : ℕ × Pmm) : Type 0 where
  page : ℕ
  address : r.0 ≡ page * page_size
  from_cursor : s.alloc_cursor ≤ page
  not_behind : page ≤ q
  skipped : (j : ℕ) → s.alloc_cursor ≤ j → j < page → bit_test s j ≡ 1
  cursor : r.1.alloc_cursor ≡ (if ltb (page + 1) s.npages_total then page + 1 else 0)

first_here :
    (s : Pmm) (v : IsValid s) (c : s.alloc_cursor < s.npages_total) (q : ℕ)
    → s.alloc_cursor ≤ q
    → FirstFree s q (s.alloc_cursor * page_size % u32_mod, take_page (next s v c) s.alloc_cursor)
first_here s v c q l = record {
  page = s.alloc_cursor;
  address = omega (arith, v.total_le);
  from_cursor = omega arith;
  not_behind = l;
  skipped = λ j a b. absurd (omega arith);
  cursor =
      alloc_cursor-take_page (next s v c) s.alloc_cursor
      ∙ ground (arith, v.total_le, alloc_cursor-next s v c);
}

first_later :
    (s : Pmm) (v : IsValid s) (c : s.alloc_cursor < s.npages_total) (q : ℕ) (r : ℕ × Pmm)
    → bit_test s s.alloc_cursor ≡ 1
    → s.alloc_cursor + 1 < s.npages_total
    → FirstFree (next s v c) q r
    → FirstFree s q r
first_later s v c q r busy l f =
    let at : (next s v c).alloc_cursor ≡ s.alloc_cursor + 1 =
      ground (arith, v.total_le, alloc_cursor-next s v c) in
    record {
      page = f.page;
      address = f.address;
      from_cursor = omega (arith, f.from_cursor, at);
      not_behind = f.not_behind;
      skipped = λ j a b. elim (Bool-cases (j == s.alloc_cursor)) [
        | inl e ↦ ground (arith, busy, ap (bit_test s) {x = j} {y = s.alloc_cursor}, e)
        | inr e ↦ sym (bit_test-next s v c j) ∙ f.skipped j (ground (arith, e, at)) b
      ];
      cursor = f.cursor ∙ ap (λ t. if ltb (f.page + 1) t then f.page + 1 else 0) (total_next s v c);
    }

-- With a free page `q` from the cursor on, the loop finds the first such page.
first_lem :
    (k : ℕ) (s : Pmm) (q : ℕ)
    → IsValid s
    → s.alloc_cursor < s.npages_total
    → s.alloc_cursor ≤ q
    → q < s.npages_total
    → bit_test s q ≡ 0
    → q < s.alloc_cursor + k
    → FirstFree s q (alloc_loop s k)
first_lem zero s q v c a b free k = absurd (omega arith)
first_lem (suc n) s q v c a b free k =
    elim (Bool-cases (bit_test (next s v c) s.alloc_cursor == 0)) [
      | inl e ↦ rw (alloc_loop-suc s v c n, e) (first_here s v c q a)
      | inr e ↦
          let busy : bit_test s s.alloc_cursor ≡ 1 =
            ground (
              arith,
              bit_test-next s v c s.alloc_cursor,
              bit_test-lt s v.bytes s.alloc_cursor,
              e,
            ) in
          let behind : s.alloc_cursor < q =
            ground (arith, busy, free, ap (bit_test s) {x = q} {y = s.alloc_cursor}) in
          let at : (next s v c).alloc_cursor ≡ s.alloc_cursor + 1 =
            ground (arith, v.total_le, alloc_cursor-next s v c) in
          rw (alloc_loop-suc s v c n, e)
            (first_later s v c q _ busy (omega (arith, behind)) (
              first_lem n (next s v c) q (next-IsValid s v c) (next_cursor-lt s v c)
                (omega (arith, at, behind)) (omega (arith, total_next s v c))
                (bit_test-next s v c q ∙ free) (omega (arith, at, k))))
    ]

-- While a page below `n` is free from the cursor on, pmm_alloc hands out one of them.
pub pmm_alloc-low :
    (w : Pmm) (n : ℕ)
    → IsValid w
    → 0 < low_free w n
    → Granted w (pmm_alloc w)
      × ((pmm_alloc w).0 + page_size ≤ n * page_size)
      × (low_free w n ≤ low_free (pmm_alloc w).1 n + 1)
unfolding pmm_alloc
pmm_alloc-low w n v l =
    let (q, below, free) = free-of_count (ahead_bit w) (cut w n) l in
    let from : w.alloc_cursor ≤ q = ground (arith, free) in
    let inside : q < w.npages_total = ground (arith, below) in
    let is_free : bit_test w q ≡ 0 = ground (arith, free) in
    let f =
      first_lem w.npages_total w q v (omega (arith, from, inside)) from inside is_free
        (omega (arith, inside)) in
    elim (pmm_alloc_lem w v) [
      | inr x ↦ absurd (omega (arith, x.full q inside, is_free))
      | inl g ↦
          let same : g.page ≡ f.page = omega (arith, g.address, f.address) in
          let in_cut : g.page < cut w n = omega (arith, same, f.not_behind, below) in
          (
            g,
            ground (arith, g.address, in_cut),
            fewer w n (alloc_loop w w.npages_total) g.page in_cut g.in_bitmap g.was_free g.total
                g.bits (omega (arith, same, f.from_cursor))
                (λ j a b. f.skipped j a (omega (arith, same, b)))
                (f.cursor ∙ ap (λ p. if ltb (p + 1) w.npages_total then p + 1 else 0) (sym same)),
          )
    ]
  where
    fewer :
        (w : Pmm) (n : ℕ) (r : ℕ × Pmm) (p : ℕ)
        → p < cut w n
        → p < w.npages_total
        → bit_test w p ≡ 0
        → r.1.npages_total ≡ w.npages_total
        → ((q : ℕ) → bit_test r.1 q ≡ (if p == q then 1 else bit_test w q))
        → w.alloc_cursor ≤ p
        → ((j : ℕ) → w.alloc_cursor ≤ j → j < p → bit_test w j ≡ 1)
        → r.1.alloc_cursor ≡ (if ltb (p + 1) w.npages_total then p + 1 else 0)
        → low_free w n ≤ low_free r.1 n + 1
    fewer w n r p l k was_free total bits from skipped cursor =
        let same : cut r.1 n ≡ cut w n = ap (λ t. if ltb n t then n else t) total in
        let g : ℕ → ℕ = λ q. if p == q then 1 else ahead_bit w q in
        let step : count_free (ahead_bit w) (cut w n) ≡ count_free g (cut w n) + 1 =
          count_free_step (ahead_bit w) g p (cut w n) l (ground (arith, was_free)) (ground arith)
            (λ q e. ground (arith, e)) in
        elim (Bool-cases (ltb (p + 1) w.npages_total)) [
          | inl y ↦
              let less : count_free g (cut w n) ≡ count_free (ahead_bit r.1) (cut w n) =
                count_free-ext g (ahead_bit r.1) (cut w n)
                  (λ q b. ground (arith, bits q, cursor, y, skipped q)) in
              omega (arith, step, less, ap (count_free (ahead_bit r.1)) same)
          | inr y ↦
              let none : count_free g (cut w n) ≡ 0 =
                count_free-zero g (cut w n) (λ q b. ground (arith, y, b, skipped q)) in
              omega (arith, step, none)
        ]

-- With the cursor at the start and no page behind `n`, all free pages are counted.
pub low_free-all :
    (w : Pmm) (n : ℕ)
    → IsValid w
    → w.alloc_cursor ≡ 0
    → w.npages_total ≤ n
    → low_free w n ≡ w.npages_free
low_free-all w n v start l =
    let all : cut w n ≡ w.npages_total = ground (arith, l) in
    ap (count_free (ahead_bit w)) all
    ∙ count_free-ext (ahead_bit w) (bit_test w) w.npages_total (λ q k. ground (arith, start))
    ∙ sym v.counted
