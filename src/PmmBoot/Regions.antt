-- ===== src/PmmBoot/Regions.antt =====
-- The state of the page allocator during the boot: valid, and with the boot loader's blob unread
-- bytes as they were, since all of it stands below the bitmap.
use mkrn.Prelude.{
  ℕ, zero, suc, ◌+◌, ◌^◌, ◌≤◌, ◌<◌, ◌≡◌, refl, ap, ap₂, sym, ◌∙◌, arith, ltb, ◌==◌, if◌then◌else◌,
  if_true, if_false, if_both, Bool-cases, true, inl, inr, List, Mem, load32, Outcome, done,
}
use mkrn.Pmm.{Pmm, page_size, bit_test, pmm_reserve}
use mkrn.Pmm.Invariant.{IsValid}
use mkrn.Pmm.Region.{touches, pmm_reserve-IsValid, pmm_free_region-IsValid, bit_test-pmm_reserve}
use mkrn.Pmm.Below.{Kept, pmm_reserve-Kept, pmm_free_region-Kept}
use mkrn.PmmBoot.{
  tag_end, tag_type, tag_first, next_tag, memory_available, each_entry, entry_type, free_entry,
  find_tag_loop, mb2_find_tag, total_size,
}
use mkrn.PmmBoot.Blob.{Tags, Tags-bound}

-- `n` pages and the bitmap at `b`, over the memory `m`.
pub record Sound (m : Mem) (b n : ℕ) (t : Pmm) : Type 0 where
  pub valid : IsValid t
  pub place : t.bitmap ≡ b
  pub total : t.npages_total ≡ n
  pub below : (x : ℕ) → x < b → t.mem x ≡ m x

-- Every page that shares a byte with the region is marked as busy.
abbrev pub Busy : Pmm → ℕ → ℕ → Type 0
Busy t base len = (q : ℕ) → q < t.npages_total → touches base len q ≡ true → bit_test t q ≡ 1

-- What is busy stays busy.
abbrev pub Grows : Pmm → Pmm → Type 0
Grows s t = (base len : ℕ) → Busy s base len → Busy t base len

Kept-Sound : (m : Mem) (b n : ℕ) (s t : Pmm) → Sound m b n s → Kept s t → IsValid t → Sound m b n t
Kept-Sound m b n s t h k v = record {
  valid = v;
  place = k.bitmap ∙ h.place;
  total = k.total ∙ h.total;
  below = λ x l. k.below x (omega (arith, l, h.place)) ∙ h.below x l;
}

word_below :
    (m m' : Mem) (b p : ℕ) → ((x : ℕ) → x < b → m' x ≡ m x) → p + 4 ≤ b → load32 m' p ≡ load32 m p
word_below m m' b p same l = omega (
  arith,
  same p (omega (arith, l)),
  same (p + 1) (omega (arith, l)),
  same (p + 2) (omega (arith, l)),
  same (p + 3) (omega (arith, l)),
)

module _ (m : Mem) (b n : ℕ) where
  pub Sound-load32 : (t : Pmm) (p : ℕ) → Sound m b n t → p + 4 ≤ b → load32 t.mem p ≡ load32 m p
  Sound-load32 t p h l = word_below m t.mem b p h.below l

  pub reserve-Sound :
      (t : Pmm) (base len : ℕ)
      → Sound m b n t
      → base + len + page_size < 2 ^ 44
      → Sound m b n (pmm_reserve t base len)
        × Busy (pmm_reserve t base len) base len
        × Grows t (pmm_reserve t base len)
  reserve-Sound t base len h l =
      let k : Kept t (pmm_reserve t base len) = pmm_reserve-Kept t base len in
      (
        Kept-Sound m b n t _ h k (pmm_reserve-IsValid t base len h.valid),
        (λ q lq e.
            bit_test-pmm_reserve t base len q h.valid l (omega (arith, lq, k.total))
            ∙ if_true (touches base len q) 1 _ e),
        (λ base' len' busy q lq e.
            bit_test-pmm_reserve t base len q h.valid l (omega (arith, lq, k.total))
            ∙ if_both (λ x. x ≡ 1) (touches base len q) _ _ refl
                (busy q (omega (arith, lq, k.total)) e)),
      )

  pub free_entry-Sound : (t : Pmm) (p : ℕ) → Sound m b n t → Sound m b n (free_entry t p)
  unfolding free_entry
  free_entry-Sound t p h =
      if_both (Sound m b n) (entry_type t.mem p == memory_available) _ _
        (Kept-Sound m b n t _ h (pmm_free_region-Kept t _ _)
          (pmm_free_region-IsValid t _ _ h.valid))
        h

-- A loop over the entries of a memory map ends, whatever they are, and keeps what its body keeps.
pub each_entry-keeps :
    {A : Type 0} (mem : A → Mem) (body : A → ℕ → A) (P : A → Type 0) (mmap end : ℕ)
    → ((a : A) → P a → 0 < tag_first (mem a) mmap)
    → ((a : A) (p : ℕ) → P a → P (body a p))
    → (fuel p : ℕ) (a : A) → P a
    → 0 < fuel
    → end < p + fuel
    → (r : A) × (each_entry mem body fuel mmap end p a ≡ done r) × P r
unfolding each_entry
each_entry-keeps mem body P mmap end steps keeps zero p a h l e = absurd (omega arith)
each_entry-keeps mem body P mmap end steps keeps (suc fuel) p a h l e =
    elim (Bool-cases (ltb p end)) [
      | inl y ↦
          let a' = body a p in
          let step = steps a' (keeps a p h) in
          let (r, run, q) =
            each_entry-keeps mem body P mmap end steps keeps fuel (p + tag_first (mem a') mmap) a'
              (keeps a p h) (ground (arith, y, e)) (omega (arith, e, step)) in
          (r, if_true (ltb p end) _ _ y ∙ run, q)
      | inr y ↦ (a, if_false (ltb p end) _ _ y, h)
    ]

-- mb2_find_tag finds the same in every memory that has the bytes of the blob.
find_tag_loop-below :
    (m m' : Mem) (b type : ℕ) (fuel : ℕ) {stop p : ℕ} {ts : List ℕ}
    → ((x : ℕ) → x < b → m' x ≡ m x)
    → Tags m stop p ts
    → stop ≤ b
    → find_tag_loop fuel m' p type ≡ find_tag_loop fuel m p type
unfolding find_tag_loop
find_tag_loop-below m m' b type zero same t k = refl
find_tag_loop-below m m' b type (suc fuel) {p = p} same (Tags.last a e) k =
    let word = word_below m m' b p same (omega (arith, a, k)) in
    if_true (tag_type m' p == tag_end) _ _ (ground (arith, e, word))
    ∙ sym (if_true (tag_type m p == tag_end) _ _ (ground (arith, e)))
find_tag_loop-below m m' b type (suc fuel) {p = p} same (Tags.more e a t) k =
    let inside = Tags-bound t in
    let word = word_below m m' b p same (omega (arith, a, k, inside)) in
    let next : next_tag m' p ≡ next_tag m p =
      omega (arith, word_below m m' b (p + 4) same (omega (arith, a, k, inside))) in
    ap₂
      (λ (x : ℕ) (r : Outcome ℕ). if x == tag_end then done 0 else if x == type then done p else r)
      word
      (ap (λ x. find_tag_loop fuel m' x type) next ∙ find_tag_loop-below m m' b type fuel same t k)

pub mb2_find_tag-below :
    (m m' : Mem) (b type mbi : ℕ) {ts : List ℕ}
    → ((x : ℕ) → x < b → m' x ≡ m x)
    → Tags m (mbi + total_size m mbi) (mbi + 8) ts
    → mbi + total_size m mbi ≤ b
    → mb2_find_tag m' mbi type ≡ mb2_find_tag m mbi type
unfolding mb2_find_tag
mb2_find_tag-below m m' b type mbi same t k =
    ap (λ n. find_tag_loop (n + 1) m' (mbi + 8) type)
      (word_below m m' b mbi same (omega (arith, Tags-bound t, k)))
    ∙ find_tag_loop-below m m' b type (total_size m mbi + 1) same t k
