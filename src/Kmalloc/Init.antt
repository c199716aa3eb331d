-- ===== src/Kmalloc/Init.antt =====
-- kheap_init over the page allocator of Pmm and the page tables of Pmap.
use mkrn.Prelude.{
  ℕ, zero, suc, ◌+◌, ◌*◌, ◌/◌, ◌%◌, ◌^◌, ◌≤◌, ◌<◌, ◌≡◌, refl, ap, sym, subst, ◌-◌, ◌⊎◌, ◌∙◌, arith,
  add32, ◌==◌, if◌then◌else◌, if_true, if_false, Bool, Bool-cases, true, false, inl, inr, [], ◌∷◌,
  Outcome, done, ◌>>=◌,
}
use mkrn.Pmm.{Pmm, page_size, pmm_enomem, bit_test, pmm_alloc}
use mkrn.Pmap.{Tables, vmm_map, vmm_extract}
use mkrn.Pmap.Map.{vmm_extract-address}
use mkrn.Pmap.Pages.{IsPaged, room, missing, missing-≤, missing-next, pmm_alloc-IsPaged}
use mkrn.Pmap.Places.{place, place-vmm_map}
use mkrn.Kmalloc.{Kheap, heap_base, heap_size, hdr_size, heap_page, init_head, map_heap, kheap_init}
use mkrn.Kmalloc.Tiles.{block, heap_end}
use mkrn.Kmalloc.Good.{IsGood}
use mkrn.Kmalloc.Client.{Holds, init_head-IsGood}

-- pmm_alloc and vmm_map on the state of both.
abbrev pub alloc_page : Pmm × Tables → ℕ × (Pmm × Tables)
alloc_page m = ((pmm_alloc m.0).0, ((pmm_alloc m.0).1, m.1))

abbrev pub map_page : Pmm × Tables → ℕ → ℕ → ℕ → Outcome (Bool × (Pmm × Tables))
map_page m va pa flags = vmm_map pmm_alloc m.0 m.1 va pa flags >>= (λ r. done (true, r))

-- Each address from `lo` on and below `hi` has a place of its own, in a page that is not free.
record IsBacked (w : Pmm) (f : ℕ → ℕ) (lo hi : ℕ) : Type 0 where
  mapped : (v : ℕ) → lo ≤ v → v < hi → 0 < f v / 4096
  busy : (v : ℕ) → lo ≤ v → v < hi → bit_test w (f v / 4096) ≡ 1
  apart : (u v : ℕ) → lo ≤ u → u < hi → lo ≤ v → v < hi → f u ≡ f v → u ≡ v

-- One more page, which was free.
one_more :
    (w w' : Pmm) (f g : ℕ → ℕ) (lo va page : ℕ)
    → IsBacked w f lo va
    → va % 4096 ≡ 0
    → bit_test w page ≡ 0
    → 0 < page
    → ((q : ℕ) → bit_test w q ≡ 1 → bit_test w' q ≡ 1)
    → bit_test w' page ≡ 1
    → ((v : ℕ)
        → v < va + 4096
        → g v ≡ (if v / 4096 == va / 4096 then page * 4096 + v % 4096 else f v))
    → IsBacked w' g lo (va + 4096)
one_more w w' f g lo va page b aligned was_free pos kept taken sees = record {
  mapped = λ v low high. elim (Bool-cases (v / 4096 == va / 4096)) [
    | inl here ↦ omega (arith, sees v high ∙ if_true _ _ _ here, pos)
    | inr there ↦
        let old : g v ≡ f v = sees v high ∙ if_false _ _ _ there in
        rw old (b.mapped v low (ground (arith, there, high)))
  ];
  busy = λ v low high. elim (Bool-cases (v / 4096 == va / 4096)) [
    | inl here ↦
        let at : g v / 4096 ≡ page = omega (arith, sees v high ∙ if_true _ _ _ here) in rw at taken
    | inr there ↦
        let old : g v ≡ f v = sees v high ∙ if_false _ _ _ there in
        rw old (kept (f v / 4096) (b.busy v low (ground (arith, there, high))))
  ];
  apart = λ u v lu hu lv hv e. elim (Bool-cases (u / 4096 == va / 4096)) [
    | inl here ↦
        let first : g u ≡ page * 4096 + u % 4096 = sees u hu ∙ if_true _ _ _ here in
        elim (Bool-cases (v / 4096 == va / 4096)) [
          | inl here' ↦ ground (arith, first, sees v hv ∙ if_true _ _ _ here', here, here', e)
          | inr there ↦
              absurd (
                other u v first (sees v hv ∙ if_false _ _ _ there) lv (ground (arith, there, hv)) e)
        ]
    | inr there ↦
        let old : g u ≡ f u = sees u hu ∙ if_false _ _ _ there in
        elim (Bool-cases (v / 4096 == va / 4096)) [
          | inl here ↦ absurd (
              other v u (sees v hv ∙ if_true _ _ _ here) old lu (ground (arith, there, hu)) (sym e))
          | inr there' ↦
              b.apart u v lu (ground (arith, there, hu)) lv (ground (arith, there', hv))
                (sym old ∙ (e ∙ (sees v hv ∙ if_false _ _ _ there')))
        ]
  ];
}
  where
    -- The new page is none of the old ones.
    other : (u v : ℕ) → g u ≡ page * 4096 + u % 4096 → g v ≡ f v → lo ≤ v → v < va → g u ≡ g v → ⊥
    other u v first old low high e =
        let at : f v / 4096 ≡ page = omega (arith, first, old, e) in
        ground (arith, b.busy v low high, ap (bit_test w) at, was_free)

map_heap_end :
    (w : Pmm) (s : Tables) (va : ℕ) → map_heap alloc_page map_page (w, s) va 0 ≡ done (w, s)
unfolding map_heap
map_heap_end w s va = refl

map_heap_step :
    (n : ℕ) (w : Pmm) (s : Tables) (va : ℕ) (r : Pmm × Tables)
    → ((pmm_alloc w).0 == pmm_enomem) ≡ false
    → vmm_map pmm_alloc (pmm_alloc w).1 s va (pmm_alloc w).0 heap_page ≡ done r
    → map_heap alloc_page map_page (w, s) va (suc n)
      ≡ map_heap alloc_page map_page r (add32 va page_size) n
unfolding map_heap
map_heap_step n w s va r some_page run = rw (some_page, run) refl

map_heap_loop :
    (n : ℕ) (w : Pmm) (s : Tables) (lo va : ℕ)
    → IsPaged w s
    → IsBacked w (place s) lo va
    → va % 4096 ≡ 0
    → va + n * 4096 ≤ 2 ^ 32 - 4096
    → n + missing s va + (va + n * 4096) / 2 ^ 22 ≤ room w s + va / 2 ^ 22
    → (m : Pmm × Tables) × (map_heap alloc_page map_page (w, s) va n ≡ done m)
      × IsPaged m.0 m.1
      × IsBacked m.0 (place m.1) lo (va + n * 4096)
      × ((v : ℕ) → v < 2 ^ 32 → (v < va) ⊎ (va + n * 4096 ≤ v) → place m.1 v ≡ place s v)
map_heap_loop zero w s lo va h b a top l = (
  (w, s),
  map_heap_end w s va,
  h,
  subst (IsBacked w (place s) lo) {x = va} (omega arith) b,
  λ v k out. refl,
)
map_heap_loop (suc n) w s lo va h b a top l =
    let (g, h1, one) = pmm_alloc-IsPaged w s h (omega arith) in
    let w1 : Pmm = (pmm_alloc w).1 in
    let (r, run, h2, end_kept, few, full, grew, sees) =
      place-vmm_map w1 s va (pmm_alloc w).0 heap_page h1 (omega (arith, one)) (omega arith) in
    let need = missing-next r.1 va a (omega arith) full in
    let some_page : ((pmm_alloc w).0 == pmm_enomem) ≡ false = ground (arith, g.address) in
    let next : add32 va page_size ≡ va + 4096 = omega arith in
    let kept' : (q : ℕ) → bit_test w q ≡ 1 → bit_test r.0 q ≡ 1 =
      λ q e. grew.busy q (ground (arith, g.bits q, e)) in
    let taken : bit_test r.0 g.page ≡ 1 = grew.busy g.page (ground (arith, g.bits g.page)) in
    let pos : 0 < g.page =
      ground (arith, g.was_free, h.null, ap (bit_test w) {x = g.page} {y = 0}) in
    let b2 : IsBacked r.0 (place r.1) lo (va + 4096) =
      one_more w r.0 (place s) (place r.1) lo va g.page b a g.was_free pos kept' taken
        (λ v low. ground (arith, sees v (omega (arith, low, top)), g.address)) in
    let (m, run', h3, b3, same) =
      map_heap_loop n r.0 r.1 lo (va + 4096) h2 b2 (omega arith) (omega arith)
        (omega (arith, few, one, need)) in
    (
      m,
      map_heap_step n w s va r some_page run
          ∙ (ap (λ a. map_heap alloc_page map_page r a n) next ∙ run'),
      h3,
      subst (IsBacked m.0 (place m.1) lo) {x = va + 4096 + n * 4096} (omega arith) b3,
      λ v k out.
          same v k (ground (arith, out))
          ∙ (sees v k ∙ if_false (v / 4096 == va / 4096) _ _ (ground (arith, out))),
    )

-- On page tables whose pages the allocator holds as busy, and where from the cursor on there is a
-- free page in the window for each of the heap's and one more, kheap_init returns without a panic or
-- a fault. The heap is one with nothing in use and no two free neighbours. Each address of the heap
-- then has a physical address, in a page that is not page 0 and that pmm_alloc does not hand out
-- again, and no two addresses have the same. Outside of the heap vmm_extract gives what it gave
-- before, and the pages of the tables are busy still.
pub kheap_init_lem :
    (w : Pmm) (s : Tables) (heap : Kheap)
    → IsPaged w s
    → 257 ≤ room w s
    → (m : Pmm × Tables) × (t : Kheap) × (kheap_init alloc_page map_page (w, s) heap ≡ done (m, t))
      × Holds t []
      × IsGood t (block (heap_size - hdr_size) true ∷ [])
      × IsPaged m.0 m.1
      × ((v : ℕ)
          → heap_base ≤ v
          → v < heap_end
          → (a : ℕ) × (vmm_extract pmm_alloc m.0 m.1 v ≡ done a)
            × (0 < a / 4096)
            × (bit_test m.0 (a / 4096) ≡ 1))
      × ((u v : ℕ)
          → heap_base ≤ u
          → u < heap_end
          → heap_base ≤ v
          → v < heap_end
          → vmm_extract pmm_alloc m.0 m.1 u ≡ vmm_extract pmm_alloc m.0 m.1 v
          → u ≡ v)
      × ((v : ℕ)
          → v < 2 ^ 32
          → (v < heap_base) ⊎ (heap_end ≤ v)
          → vmm_extract pmm_alloc m.0 m.1 v ≡ vmm_extract pmm_alloc w s v)
unfolding kheap_init
kheap_init_lem w s heap h l =
    let nothing : IsBacked w (place s) heap_base heap_base = record {
      mapped = λ v low high. absurd (omega arith);
      busy = λ v low high. absurd (omega arith);
      apart = λ u v lu hu lv hv e. absurd (omega arith);
    } in
    let (m, run, paged, backed, same) =
      map_heap_loop 256 w s heap_base heap_base h nothing refl (omega arith)
        (omega (arith, missing-≤ s heap_base)) in
    let at : (v : ℕ) → vmm_extract pmm_alloc m.0 m.1 v ≡ done (place m.1 v) =
      λ v. vmm_extract-address pmm_alloc m.0 m.1 v paged.tables in
    (
      m,
      init_head heap,
      ap (λ r. r >>= (λ q. done (q, init_head heap))) run,
      record {
        blocks = block (heap_size - hdr_size) true ∷ [];
        heap = (init_head-IsGood heap).heap;
        used = refl;
      },
      init_head-IsGood heap,
      paged,
      λ v low high. (place m.1 v, at v, backed.mapped v low high, backed.busy v low high),
      λ u v lu hu lv hv e. backed.apart u v lu hu lv hv (ground (arith, at u, at v, e)),
      λ v k out.
          at v ∙ (ap done (same v k out) ∙ sym (vmm_extract-address pmm_alloc w s v h.tables)),
    )
