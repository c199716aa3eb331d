-- ===== src/Pmap/Run.antt =====
-- The loops of pmap_init: a run of pages that is mapped to a run of physical pages.
use mkrn.Prelude.{
  ℕ, zero, suc, ◌+◌, ◌-◌, ◌*◌, ◌/◌, ◌%◌, ◌^◌, ◌≤◌, ◌<◌, ◌≡◌, refl, ap, sym, subst, ◌∙◌, arith,
  add32, if◌then◌else◌, done,
}
use mkrn.Pmm.{Pmm, page_size, pmm_alloc}
use mkrn.Pmap.{Tables, pte_rw, pmap_map, map_pages}
use mkrn.Pmap.Pages.{IsPaged, room, missing, missing-next}
use mkrn.Pmap.Places.{Grew, Grew-refl, Grew-trans, pgdir-pmap_map, place, place-pmap_map}
use mkrn.Pmap.Window.{in_pages, one_page}

map_pages-step :
    (base n : ℕ) (w : Pmm) (s : Tables) (addr : ℕ) (r : Pmm × Tables)
    → pmap_map pmm_alloc w s (add32 base addr) addr pte_rw ≡ done r
    → map_pages pmm_alloc base w s addr (suc n)
      ≡ map_pages pmm_alloc base r.0 r.1 (add32 addr page_size) n
unfolding map_pages
map_pages-step base n w s addr r run = rw run refl

map_pages-end :
    (base : ℕ) (w : Pmm) (s : Tables) (addr : ℕ) → map_pages pmm_alloc base w s addr 0 ≡ done (w, s)
unfolding map_pages
map_pages-end base w s addr = refl

-- A run of pages from `addr` on, seen from `base + addr` on.
pub map_pages_lem :
    (n base : ℕ) (w : Pmm) (s : Tables) (addr : ℕ)
    → IsPaged w s
    → addr % 4096 ≡ 0
    → base % 4096 ≡ 0
    → base + addr + n * 4096 ≤ 2 ^ 32 - 4096
    → missing s (base + addr) + (base + addr + n * 4096) / 2 ^ 22
      ≤ room w s + (base + addr) / 2 ^ 22
    → (r : Pmm × Tables) × (map_pages pmm_alloc base w s addr n ≡ done r)
      × IsPaged r.0 r.1
      × (room w s + (base + addr) / 2 ^ 22
          ≤ room r.0 r.1 + missing s (base + addr) + (base + addr + n * 4096) / 2 ^ 22)
      × Grew w s r
      × (r.1.pgdir ≡ s.pgdir)
      × ((v : ℕ)
          → v < 2 ^ 32
          → place r.1 v
            ≡ (if in_pages (base + addr) (base + addr + n * 4096) v then v - base else place s v))
map_pages_lem zero base w s addr h a b top l =
    ((w, s), map_pages-end base w s addr, h, omega arith, Grew-refl w s, refl, λ v k. ground arith)
map_pages_lem (suc n) base w s addr h a b top l =
    let at : add32 base addr ≡ base + addr = omega arith in
    let (r, run, h', end_kept, few, full, grew, sees) =
      place-pmap_map w s (base + addr) addr pte_rw h (omega arith) (omega arith) in
    let next : add32 addr page_size ≡ addr + 4096 = omega arith in
    let start : base + (addr + 4096) ≡ base + addr + 4096 = omega arith in
    let need : missing r.1 (base + (addr + 4096)) + (base + addr) / 2 ^ 22
        ≤ (base + addr + 4096) / 2 ^ 22 =
      subst (λ x. missing r.1 x + (base + addr) / 2 ^ 22 ≤ (base + addr + 4096) / 2 ^ 22)
        (sym start) (missing-next r.1 (base + addr) (omega arith) (omega arith) full) in
    let (t, run', h'', few', grew', dir, sees') =
      map_pages_lem n base r.0 r.1 (addr + 4096) h' (omega arith) b (omega arith)
        (omega (arith, few, need)) in
    let end : base + (addr + 4096) + n * 4096 ≡ base + addr + suc n * 4096 = omega arith in
    (
      t,
      map_pages-step base n w s addr r (ap (λ x. pmap_map pmm_alloc w s x addr pte_rw) at ∙ run)
          ∙ (ap (λ x. map_pages pmm_alloc base r.0 r.1 x n) next ∙ run'),
      h'',
      omega (arith, few, few', need),
      Grew-trans w s r t h.valid grew grew',
      dir ∙ pgdir-pmap_map w s (base + addr) addr pte_rw r run,
      λ v k.
          sees' v k
          ∙ (ap (λ e. if in_pages (base + (addr + 4096)) e v then v - base else place r.1 v) end
              ∙ (ap
                    (λ x.
                      if in_pages x (base + addr + suc n * 4096) v then v - base else place r.1 v)
                    start
                  ∙ one_page base (base + addr) addr (base + addr + suc n * 4096) v (v - base)
                      (place s v) (place r.1 v) (omega arith) b (omega arith) (λ e. omega arith)
                      (ground arith) (sees v k))),
    )
