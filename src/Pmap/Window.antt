-- ===== src/Pmap/Window.antt =====
-- Runs of pages that are mapped to a run of physical pages.
use mkrn.Prelude.{
  ℕ, ◌+◌, ◌*◌, ◌/◌, ◌%◌, ◌≤◌, ◌≡◌, refl, ◌∙◌, arith, ltb, leb, ◌==◌, ◌&&◌, if◌then◌else◌, if_true,
  Bool, Bool-cases, true, false, inl, inr,
}
use mkrn.Pmap.{pte_addr, page_offset}

-- The page of `v` is one of those from `va` on that start below `end`.
abbrev pub in_pages : ℕ → ℕ → ℕ → Bool
in_pages va end v = leb va (v / 4096 * 4096) && ltb (v / 4096 * 4096) end

-- The first page, where `pa` is mapped at `va`, with the pages behind it; `base` is the distance
-- between the runs, and `t` the place of `v`.
pub one_page :
    (base va pa end v t before after : ℕ)
    → va % 4096 ≡ 0
    → base % 4096 ≡ 0
    → pa + base ≡ va
    → (base ≤ v → t + base ≡ v)
    → ltb va end ≡ true
    → after ≡ (if v / 4096 == va / 4096 then pte_addr pa + page_offset v else before)
    → (if in_pages (va + 4096) end v then t else after) ≡ (if in_pages va end v then t else before)
one_page base va pa end v t before after a b at place go e =
    elim (Bool-cases (v / 4096 == va / 4096)) [
      | inl here ↦
          let above : base ≤ v = ground (arith, here) in
          let same : pte_addr pa + page_offset v ≡ t = ground (arith, here, place above) in
          let first : in_pages va end v ≡ true = ground (arith, here, go) in
          let later : in_pages (va + 4096) end v ≡ false = ground (arith, here) in
          rw (first, later) (e ∙ (if_true _ _ _ here ∙ same))
      | inr there ↦
          let rest : in_pages (va + 4096) end v ≡ in_pages va end v = ground (arith, there) in
          rw (rest, e, there) refl
    ]
