-- ===== src/Pmm/Search.antt =====
-- The search loop of pmm_alloc, from the cursor.
use mkrn.Prelude.{
  ℕ, zero, suc, ◌+◌, ◌-◌, ◌*◌, ◌%◌, ◌≤◌, ◌<◌, ◌≡◌, ◌⊎◌, inl, inr, refl, ap, sym, ◌∙◌, arith, ltb,
  ◌==◌, if◌then◌else◌, Bool-cases, false, u32_mod,
}
use mkrn.Pmm.{Pmm, page_size, pmm_enomem, bit_test, take_page, next_cursor, alloc_loop}
use mkrn.Pmm.Bitmap.{bit_test-lt}
use mkrn.Pmm.Invariant.{
  IsValid, bit_test-with_cursor, bit_test-take_page, take_page-IsValid, npages_total-take_page,
}

-- The cursor after `k` rounds, and the state with the cursor there.
abbrev pub ahead : Pmm → ℕ → ℕ
ahead s k =
    if ltb (s.alloc_cursor + k) s.npages_total
    then s.alloc_cursor + k
    else s.alloc_cursor + k - s.npages_total

with_cursor : Pmm → ℕ → Pmm
with_cursor s c = record s { alloc_cursor = c }

with_cursor-IsValid : (s : Pmm) (c : ℕ) → IsValid s → c < s.npages_total → IsValid (with_cursor s c)
unfolding with_cursor bit_test
with_cursor-IsValid s c v h = record {
  bytes = v.bytes;
  total_le = v.total_le;
  cursor_in = inl h;
  counted = v.counted;
}

-- A page that was free is handed out: its address, and the state after.
pub record Granted (s : Pmm) (r : ℕ × Pmm) : Type 0 where
  pub page : ℕ
  pub in_bitmap : page < s.npages_total
  pub was_free : bit_test s page ≡ 0
  pub address : r.0 ≡ page * page_size
  pub valid : IsValid r.1
  pub bits : (q : ℕ) → bit_test r.1 q ≡ (if page == q then 1 else bit_test s q)
  pub total : r.1.npages_total ≡ s.npages_total

-- No page is free among the first `n` that the search visits.
pub record Refused (s : Pmm) (n : ℕ) (r : ℕ × Pmm) : Type 0 where
  pub enomem : r.0 ≡ pmm_enomem
  pub valid : IsValid r.1
  pub bits : (q : ℕ) → bit_test r.1 q ≡ bit_test s q
  pub full : (k : ℕ) → k < n → bit_test s (ahead s k) ≡ 1
  pub total : r.1.npages_total ≡ s.npages_total

module _ (s : Pmm) (v : IsValid s) (c : s.alloc_cursor < s.npages_total) where
  pub next : Pmm
  next = with_cursor s (next_cursor s)

  pub alloc_cursor-next : next.alloc_cursor ≡ next_cursor s
  unfolding next with_cursor
  alloc_cursor-next = refl

  pub next-IsValid : IsValid next
  unfolding next
  next-IsValid = with_cursor-IsValid s (next_cursor s) v (ground (arith, v.total_le))

  pub next_cursor-lt : next.alloc_cursor < next.npages_total
  unfolding next with_cursor
  next_cursor-lt = ground (arith, v.total_le)

  pub bit_test-next : (q : ℕ) → bit_test next q ≡ bit_test s q
  unfolding next with_cursor
  bit_test-next q = bit_test-with_cursor s (next_cursor s) q

  pub alloc_loop-suc :
      (n : ℕ)
      → alloc_loop s (suc n) ≡ (
          if bit_test next s.alloc_cursor == 0
          then (s.alloc_cursor * page_size % u32_mod, take_page next s.alloc_cursor)
          else alloc_loop next n)
  unfolding alloc_loop next with_cursor
  alloc_loop-suc n = refl

  grant_here :
      bit_test next s.alloc_cursor ≡ 0
      → Granted s (s.alloc_cursor * page_size % u32_mod, take_page next s.alloc_cursor)
  grant_here clear = record {
    page = s.alloc_cursor;
    in_bitmap = c;
    was_free = sym (bit_test-next s.alloc_cursor) ∙ clear;
    address = omega (arith, v.total_le);
    valid = take_page-IsValid next next-IsValid s.alloc_cursor in_next clear;
    bits = λ q.
        ground
          (arith, bit_test-take_page next next-IsValid.bytes s.alloc_cursor q, bit_test-next q);
    total = npages_total-take_page next s.alloc_cursor ∙ total_next;
  }
    where
      total_next : next.npages_total ≡ s.npages_total
      total_next = unfold next with_cursor in refl

      in_next : s.alloc_cursor < next.npages_total
      in_next = omega (arith, total_next)

  pub total_next : next.npages_total ≡ s.npages_total
  unfolding next with_cursor
  total_next = refl

  ahead_next : (k : ℕ) → suc k < s.npages_total → ahead next k ≡ ahead s (suc k)
  unfolding next with_cursor
  ahead_next k h = ground (arith, v.total_le)

  grant_later : (r : ℕ × Pmm) → Granted next r → Granted s r
  grant_later r g = record {
    page = g.page;
    in_bitmap = omega (arith, g.in_bitmap, total_next);
    was_free = sym (bit_test-next g.page) ∙ g.was_free;
    address = g.address;
    valid = g.valid;
    bits = λ q. ground (arith, g.bits q, bit_test-next q);
    total = g.total ∙ total_next;
  }

  refuse_later :
      (n : ℕ) (r : ℕ × Pmm)
      → n < s.npages_total
      → bit_test next s.alloc_cursor ≡ 1
      → Refused next n r
      → Refused s (suc n) r
  refuse_later n r l busy g = record {
    enomem = g.enomem;
    valid = g.valid;
    bits = λ q. g.bits q ∙ bit_test-next q;
    full = full_lem;
    total = g.total ∙ total_next;
  }
    where
      full_lem : (k : ℕ) → k < suc n → bit_test s (ahead s k) ≡ 1
      full_lem zero h =
          ap (bit_test s) {x = ahead s 0} {y = s.alloc_cursor} (ground arith)
          ∙ sym (bit_test-next s.alloc_cursor)
          ∙ busy
      full_lem (suc k) h =
          ap (bit_test s) (sym (ahead_next k (omega arith)))
          ∙ sym (bit_test-next (ahead next k))
          ∙ g.full k (omega arith)

pub alloc_loop_lem :
    (n : ℕ) (s : Pmm)
    → IsValid s
    → s.alloc_cursor < s.npages_total
    → n ≤ s.npages_total
    → Granted s (alloc_loop s n) ⊎ Refused s n (alloc_loop s n)
alloc_loop_lem zero s v c l =
    unfold alloc_loop in
    inr (record {
      enomem = refl;
      valid = v;
      bits = λ q. refl;
      full = λ k h. absurd (omega arith);
      total = refl;
    })
alloc_loop_lem (suc n) s v c l = elim (Bool-cases (bit_test (next s v c) s.alloc_cursor == 0)) [
  | inl e ↦ rw (alloc_loop-suc s v c n, e) (inl (grant_here s v c (ground arith)))
  | inr e ↦
      rw (alloc_loop-suc s v c n, e)
        (later
          (alloc_loop_lem n (next s v c) (next-IsValid s v c) (next_cursor-lt s v c)
            (omega (arith, total_next s v c)))
          e)
]
  where
    later :
        Granted (next s v c) (alloc_loop (next s v c) n)
          ⊎ Refused (next s v c) n (alloc_loop (next s v c) n)
        → (bit_test (next s v c) s.alloc_cursor == 0) ≡ false
        → Granted s (alloc_loop (next s v c) n) ⊎ Refused s (suc n) (alloc_loop (next s v c) n)
    later (inl g) e = inl (grant_later s v c _ g)
    later (inr g) e = inr (
        refuse_later s v c n _ (omega arith)
          (ground (arith, bit_test-lt (next s v c) (next-IsValid s v c).bytes s.alloc_cursor)) g)
