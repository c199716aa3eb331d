-- ===== src/Pmap/Places.antt =====
-- vmm_map over the page allocator: what the tables give afterwards, and which pages they take.
use mkrn.Prelude.{
  Outcome, Bool, ℕ, ◌+◌, ◌*◌, ◌/◌, ◌^◌, ◌≤◌, ◌<◌, ◌≡◌, refl, ap, sym, subst, ◌⊎◌, ◌∙◌, arith, ◌==◌,
  if◌then◌else◌, if_false, Bool-cases, true, false, inl, inr, done,
}
use mkrn.Pmm.{Pmm, page_size, pmm_enomem, bit_test, pmm_alloc}
use mkrn.Pmm.Invariant.{IsValid}
use mkrn.Pmm.Search.{Granted}
use mkrn.Pmm.Low.{low_free}
use mkrn.Pmap.{
  Tables, is_reached, pde_index, pte_index, pte_addr, is_present, pte_of, pde_of, put_word, pde,
  add_table, pt_for, pmap_map, pte_flags, page_offset, vmm_map,
}
use mkrn.Pmap.Entry.{window-add_table, entry, pgdir-add_table, pde-add_table, pde-write, pde_made}
use mkrn.Pmap.Map.{address, pmap_map_lem}
use mkrn.Pmm.Bitmap.{bit_test-lt}
use mkrn.Pmap.Pages.{
  IsPaged, Fresh-of_Granted, missing, HasRoom-of_free, add_table-IsPaged, write-IsPaged, room,
  pmm_alloc-room,
}

-- No busy page becomes free, and each table is an old one or stands in a page that was free.
pub record Grew (w : Pmm) (s : Tables) (r : Pmm × Tables) : Type 0 where
  pub busy : (q : ℕ) → bit_test w q ≡ 1 → bit_test r.0 q ≡ 1
  pub tables :
      (i : ℕ)
      → i < 1024
      → is_present (pde r.1 i) ≡ true
      → ((is_present (pde s i) ≡ true) × (pde r.1 i ≡ pde s i))
        ⊎ (bit_test w (pte_addr (pde r.1 i) / 4096) ≡ 0)

pub Grew-refl : (w : Pmm) (s : Tables) → Grew w s (w, s)
Grew-refl w s = record { busy = λ q e. e; tables = λ i l p. inl (p, refl) }

pub Grew-trans :
    (w : Pmm) (s : Tables) (r t : Pmm × Tables)
    → IsValid w
    → Grew w s r
    → Grew r.0 r.1 t
    → Grew w s t
Grew-trans w s r t v a b = record {
  busy = λ q e. b.busy q (a.busy q e);
  tables = λ i l p. elim (b.tables i l p) [
    | inr free ↦
        let q : ℕ = pte_addr (pde t.1 i) / 4096 in
        inr (ground (arith, bit_test-lt w v.bytes q, a.busy q, free))
    | inl old ↦
        subst
          (λ e.
            ((is_present (pde s i) ≡ true) × (e ≡ pde s i)) ⊎ (bit_test w (pte_addr e / 4096) ≡ 0))
          (sym old.1) (a.tables i l old.0)
  ];
}

-- The tables after a new one.
made_table :
    (w : Pmm) (s : Tables) (i j k e : ℕ)
    → IsPaged w s
    → (g : Granted w (pmm_alloc w)) → (pmm_alloc w).0 + 4096 ≤ s.window
    → i < 1024
    → j < 1024
    → k < 1024
    → is_present (pde (put_word (add_table s i (pmm_alloc w).0) ((pmm_alloc w).0 + 4 * k) e) j)
      ≡ true
    → ((is_present (pde s j) ≡ true)
        × (pde (put_word (add_table s i (pmm_alloc w).0) ((pmm_alloc w).0 + 4 * k) e) j ≡ pde s j))
      ⊎ (bit_test w (
            pte_addr (pde (put_word (add_table s i (pmm_alloc w).0) ((pmm_alloc w).0 + 4 * k) e) j)
            / 4096)
          ≡ 0)
made_table w s i j k e h g reached li lj lk =
    let p : ℕ = (pmm_alloc w).0 in
    let s1 : Tables = add_table s i p in
    let f = Fresh-of_Granted w s h g reached in
    let made = pde_made s i p h.tables f li in
    let same : pde (put_word s1 (p + 4 * k) e) j ≡ pde s1 j =
      subst (λ a. pde (put_word s1 (a + 4 * k) e) j ≡ pde s1 j) made.1
        (pde-write s1 i k j e (add_table-IsPaged w s i h g reached li).tables made.0 li lk lj) in
    subst
      (λ x.
        is_present x ≡ true
        → ((is_present (pde s j) ≡ true) × (x ≡ pde s j)) ⊎ (bit_test w (pte_addr x / 4096) ≡ 0))
      (sym (same ∙ pde-add_table s i p j h.tables f lj))
      (λ here. elim (Bool-cases (j == i)) [
        | inl y ↦
            let at : pte_addr (if j == i then pde_of p else pde s j) / 4096 ≡ g.page =
              ground (arith, y, g.address) in
            inr (ap (bit_test w) at ∙ g.was_free)
        | inr y ↦ inl (ground (arith, here, y), if_false (j == i) _ _ y)
      ])

-- With a page left in the window for a table where there is none, pmap_map does not panic, takes no
-- other page, and no table stands in a page that the allocator may hand out.
pmap_map-IsPaged :
    (w : Pmm) (s : Tables) (va pa flags : ℕ)
    → IsPaged w s
    → missing s va ≤ room w s
    → (r : Pmm × Tables) × (pmap_map pmm_alloc w s va pa flags ≡ done r)
      × IsPaged r.0 r.1
      × (r.1.window ≡ s.window)
      × (room w s ≤ room r.0 r.1 + missing s va)
      × (missing r.1 va ≡ 0)
      × Grew w s r
unfolding pmap_map pt_for
pmap_map-IsPaged w s va pa flags h l =
    let i : ℕ = pde_index va in
    let k : ℕ = pte_index va in
    let e : ℕ = pte_of pa flags in
    elim (Bool-cases (is_present (pde s i))) [
      | inl p ↦ (
        (w, put_word s (pte_addr (pde s i) + 4 * k) e),
        rw p refl,
        write-IsPaged w s i k e (pte_addr (pde s i)) h p refl (omega arith) (omega arith),
        refl,
        ground (arith, p),
        ground (arith, pde-write s i k i e h.tables p (omega arith) (omega arith) (omega arith), p),
        record {
          busy = λ q b. b;
          tables = λ j lj q.
              let same = pde-write s i k j e h.tables p (omega arith) (omega arith) lj in
              inl (ap is_present (sym same) ∙ q, same);
        },
      )
      | inr p ↦
          let (g, reached, one) = pmm_alloc-room w s h.valid (ground (arith, p)) in
          let f = Fresh-of_Granted w s h g reached in
          let end = window-add_table s i (pmm_alloc w).0 in
          let within : is_reached s (pmm_alloc w).0 ≡ true = ground (arith, reached) in
          let made = pde_made s i (pmm_alloc w).0 h.tables f (omega arith) in
          let some_page : ((pmm_alloc w).0 == pmm_enomem) ≡ false = ground (arith, f.page) in
          (
            ((pmm_alloc w).1, put_word (add_table s i (pmm_alloc w).0) ((pmm_alloc w).0 + 4 * k) e),
            rw (p, some_page, within) refl,
            write-IsPaged (pmm_alloc w).1 (add_table s i (pmm_alloc w).0) i k e (pmm_alloc w).0
                (add_table-IsPaged w s i h g reached (omega arith)) made.0 made.1 (omega arith)
                (omega arith),
            end,
            ground (arith, p, one, ap (λ x. low_free (pmm_alloc w).1 (x / page_size)) end),
            ground (
              arith,
              made,
              pde-write (add_table s i (pmm_alloc w).0) i k i e
                  (add_table-IsPaged w s i h g reached (omega arith)).tables made.0 (omega arith)
                  (omega arith) (omega arith),
            ),
            record {
              busy = λ q b. ground (arith, g.bits q, b);
              tables =
                  λ j lj q. made_table w s i j k e h g reached (omega arith) lj (omega arith) q;
            },
          )
    ]

-- The physical address that the tables give, 0 if there is none.
abbrev pub place : Tables → ℕ → ℕ
place s v = address (entry s v) v

address-made :
    (b : Bool) (pa flags old v : ℕ)
    → address (if b then pte_of pa flags else old) v
      ≡ (if b then pte_addr pa + page_offset v else address old v)
address-made true pa flags old v = ground arith
address-made false pa flags old v = refl

-- The same, with the places that the tables then give.
pub place-pmap_map :
    (w : Pmm) (s : Tables) (va pa flags : ℕ)
    → IsPaged w s
    → missing s va ≤ room w s
    → va < 2 ^ 32
    → (r : Pmm × Tables) × (pmap_map pmm_alloc w s va pa flags ≡ done r)
      × IsPaged r.0 r.1
      × (r.1.window ≡ s.window)
      × (room w s ≤ room r.0 r.1 + missing s va)
      × (missing r.1 va ≡ 0)
      × Grew w s r
      × ((v : ℕ)
          → v < 2 ^ 32
          → place r.1 v
            ≡ (if v / 4096 == va / 4096 then pte_addr pa + page_offset v else place s v))
place-pmap_map w s va pa flags h l lv =
    let (r, e, paged, end, few, full, kept) = pmap_map-IsPaged w s va pa flags h l in
    let (r', e', valid, entries) =
      pmap_map_lem pmm_alloc w s va pa flags h.tables (HasRoom-of_free w s va h l) lv in
    let same : r' ≡ r = cc in
    (
      r,
      e,
      paged,
      end,
      few,
      full,
      kept,
      λ v k.
          ap (λ (q : Pmm × Tables). place q.1 v) (sym same)
          ∙ (ap (λ d. address d v) (entries v k)
              ∙ address-made (v / 4096 == va / 4096) pa flags (entry s v) v),
    )

pub place-vmm_map :
    (w : Pmm) (s : Tables) (va pa flags : ℕ)
    → IsPaged w s
    → missing s va ≤ room w s
    → va < 2 ^ 32
    → (r : Pmm × Tables) × (vmm_map pmm_alloc w s va pa flags ≡ done r)
      × IsPaged r.0 r.1
      × (r.1.window ≡ s.window)
      × (room w s ≤ room r.0 r.1 + missing s va)
      × (missing r.1 va ≡ 0)
      × Grew w s r
      × ((v : ℕ)
          → v < 2 ^ 32
          → place r.1 v
            ≡ (if v / 4096 == va / 4096 then pte_addr pa + page_offset v else place s v))
unfolding vmm_map
place-vmm_map w s va pa flags h l lv = place-pmap_map w s va pa (pte_flags flags) h l lv

pub pgdir-pmap_map :
    (w : Pmm) (s : Tables) (va pa flags : ℕ) (r : Pmm × Tables)
    → pmap_map pmm_alloc w s va pa flags ≡ done r
    → r.1.pgdir ≡ s.pgdir
unfolding pmap_map pt_for
pgdir-pmap_map w s va pa flags r e =
    ground (arith, pgdir-add_table s (pde_index va) (pmm_alloc w).0)

pub done_if :
    (b : Bool) (x y : ℕ) (q : Outcome ℕ)
    → q ≡ done y
    → done (if b then x else y) ≡ (if b then done x else q)
done_if true x y q e = refl
done_if false x y q e = sym e
