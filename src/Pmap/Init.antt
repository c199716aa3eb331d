-- ===== src/Pmap/Init.antt =====
-- pmap_init over the page allocator of src/kern/subr_pmm.c.
use mkrn.Prelude.{
  ℕ, ◌+◌, ◌-◌, ◌*◌, ◌/◌, ◌%◌, ◌^◌, ◌≤◌, ◌<◌, ◌≡◌, refl, ap, sym, ◌∙◌, arith, ltb, ◌==◌,
  if◌then◌else◌, true, false, inl, inr, done,
}
use mkrn.Pmm.{Pmm, page_size, pmm_enomem, bit_test, pmm_alloc}
use mkrn.Pmm.Invariant.{IsValid}
use mkrn.Pmm.Search.{Granted}
use mkrn.Pmap.{
  Tables, kernbase, pmap_low_end, clear_page, pages_below, pmap_init, pde, pte_addr, is_present,
  is_reached, vmm_extract,
}
use mkrn.Pmap.Map.{vmm_extract-address}
use mkrn.Pmap.Pages.{IsPaged, room, missing, missing-≤, pmm_alloc-room}
use mkrn.Pmap.Places.{Grew, Grew-trans, place}
use mkrn.Pmap.Run.{map_pages_lem}
use mkrn.Pmm.Bitmap.{bit_test-lt}
use mkrn.Pmap.Window.{in_pages}

-- The pages that pmap_init takes were free, and no busy one becomes free.
pub record Took (w : Pmm) (m : Pmm × Tables) : Type 0 where
  pub directory : bit_test w (m.1.pgdir / 4096) ≡ 0
  pub tables :
      (i : ℕ)
      → i < 1024
      → is_present (pde m.1 i) ≡ true
      → bit_test w (pte_addr (pde m.1 i) / 4096) ≡ 0
  pub busy : (q : ℕ) → bit_test w q ≡ 1 → bit_test m.0 q ≡ 1

module _ (w : Pmm) (s : Tables) (g : Granted w (pmm_alloc w)) where
  -- The directory in its page, with no entry yet.
  abbrev no_entries : Tables
  no_entries = clear_page (record s { pgdir = (pmm_alloc w).0 }) (pmm_alloc w).0

  pde-no_entries : (i : ℕ) → i < 1024 → pde no_entries i ≡ 0
  pde-no_entries i l = ground arith

  no_entries-IsPaged : bit_test w 0 ≡ 1 → IsPaged (pmm_alloc w).1 no_entries
  no_entries-IsPaged null = record {
    valid = g.valid;
    tables = record {
      aligned = omega (arith, g.address);
      not_null = λ i l p. absurd (ground (arith, pde-no_entries i l, p));
      off_directory = λ i l p. absurd (ground (arith, pde-no_entries i l, p));
      apart = λ i j li lj n p q. absurd (ground (arith, pde-no_entries i li, p));
    };
    null = ground (arith, g.bits 0, null);
    directory = ground (
      arith,
      g.bits g.page,
      g.address,
      ap (bit_test (pmm_alloc w).1) {x = (pmm_alloc w).0 / 4096} {y = g.page},
    );
    busy = λ i l p. absurd (ground (arith, pde-no_entries i l, p));
  }

  took :
      (m : Pmm × Tables)
      → IsValid w
      → m.1.pgdir ≡ (pmm_alloc w).0
      → Grew (pmm_alloc w).1 no_entries m
      → Took w m
  took m v dir grew = record {
    directory =
        let at : m.1.pgdir / 4096 ≡ g.page = omega (arith, dir, g.address) in
        ap (bit_test w) at ∙ g.was_free;
    tables = λ i l p. elim (grew.tables i l p) [
      | inl old ↦ absurd (ground (arith, pde-no_entries i l, old.0))
      | inr free ↦ was_free (pte_addr (pde m.1 i) / 4096) free
    ];
    busy = λ q e. grew.busy q (ground (arith, g.bits q, e));
  }
    where
      was_free : (q : ℕ) → bit_test (pmm_alloc w).1 q ≡ 0 → bit_test w q ≡ 0
      was_free q e = ground (arith, g.bits q, e, bit_test-lt w v.bytes q)

  place-no_entries : (v : ℕ) → place no_entries v ≡ 0
  place-no_entries v = ground (arith, pde-no_entries (v / 2 ^ 22 % 1024))

-- The first byte behind the low pages that are mapped 1:1, by the pages of the machine.
abbrev pub low_end : ℕ → ℕ
low_end npages = if ltb (npages * page_size) pmap_low_end then npages * page_size else pmap_low_end

IsPaged-loaded :
    (w : Pmm) (s : Tables) (c e : ℕ) → IsPaged w s → IsPaged w (record s { cr3 = c; window = e })
IsPaged-loaded w s c e h = record {
  valid = h.valid;
  tables = record {
    aligned = h.tables.aligned;
    not_null = h.tables.not_null;
    off_directory = h.tables.off_directory;
    apart = h.tables.apart;
  };
  null = h.null;
  directory = h.directory;
  busy = h.busy;
}

Took-loaded :
    (w : Pmm) (m : Pmm × Tables) (c e : ℕ)
    → Took w m
    → Took w (m.0, record (m.1) { cr3 = c; window = e })
Took-loaded w m c e h = record { directory = h.directory; tables = h.tables; busy = h.busy }

-- The two runs, with the ends that the loops test instead of their numbers of pages.
windows :
    (npages kernel_start kernel_end v p : ℕ)
    → kernel_start % 4096 ≡ 0
    → kernel_start ≤ kernel_end
    → p ≡ (
        if in_pages page_size (page_size + pages_below page_size (low_end npages) * 4096) v
        then v - 0
        else 0)
    → (if in_pages
          (kernbase + kernel_start)
          (kernbase + kernel_start + pages_below kernel_start kernel_end * 4096)
          v
        then v - kernbase
        else p)
      ≡ (if in_pages (kernbase + kernel_start) (kernbase + kernel_end) v
          then v - kernbase
          else if in_pages page_size (low_end npages) v
          then v
          else 0)
windows npages kernel_start kernel_end v p aligned order e = ground (arith, e)

pages_below_lem : (a b : ℕ) → a ≤ b → pages_below a b * 4096 ≤ b - a + 4095
pages_below_lem a b l = ground arith

-- The low pages lie in the first two tables.
low_pages : (npages : ℕ) → (page_size + pages_below page_size (low_end npages) * 4096) / 2 ^ 22 ≤ 2
low_pages npages = ground arith

low_room :
    (w : Pmm) (s : Tables) (npages : ℕ)
    → 3 ≤ room w s
    → missing s page_size + (page_size + pages_below page_size (low_end npages) * 4096) / 2 ^ 22
      ≤ room w s + page_size / 2 ^ 22
low_room w s npages l = omega (arith, missing-≤ s page_size, low_pages npages)

-- From a valid allocator that holds page 0 as busy, and where from its cursor on six pages and one
-- for each whole 4 MiB of the kernel's pages are free that can be cleared at their physical
-- addresses, below the end of the window of the tables in use: pmap_init returns without a panic or
-- a fault, where the kernel starts on a page and its window at KERNBASE ends at least two pages below
-- 4 GiB. Then cr3 holds the new directory, the pages of the tables are busy and were free before, and
-- no busy page has become free. Of the virtual addresses, those from the second page up to the end of
-- memory or 8 MiB stand for themselves, those of the kernel's pages at KERNBASE for the address
-- without KERNBASE, and all others have no physical address.
pub pmap_init_lem :
    (npages kernel_start kernel_end : ℕ) (w : Pmm) (s : Tables)
    → IsValid w
    → bit_test w 0 ≡ 1
    → kernel_start % 4096 ≡ 0
    → kernel_start ≤ kernel_end
    → kernbase + kernel_end + 8192 ≤ 2 ^ 32
    → 6 + (kernel_end - kernel_start + 4095) / 2 ^ 22 ≤ room w s
    → (m : Pmm × Tables) × (pmap_init pmm_alloc npages kernel_start kernel_end w s ≡ done m)
      × IsPaged m.0 m.1
      × Took w m
      × (m.1.cr3 ≡ m.1.pgdir)
      × ((v : ℕ)
          → v < 2 ^ 32
          → vmm_extract pmm_alloc m.0 m.1 v
            ≡ done (
                if in_pages (kernbase + kernel_start) (kernbase + kernel_end) v
                then v - kernbase
                else if in_pages page_size (low_end npages) v
                then v
                else 0))
unfolding pmap_init
pmap_init_lem npages kernel_start kernel_end w s valid null aligned order top enough =
    let (g, reached, one) = pmm_alloc-room w s valid (omega (arith, enough)) in
    let w0 : Pmm = (pmm_alloc w).1 in
    let s0 : Tables = no_entries w s g in
    let low : ℕ = pages_below page_size (low_end npages) in
    let high : ℕ = pages_below kernel_start kernel_end in
    let some_page : ((pmm_alloc w).0 == pmm_enomem) ≡ false = ground (arith, g.address) in
    let within : is_reached s (pmm_alloc w).0 ≡ true = ground (arith, reached) in
    let (m1, run1, h1, few1, grew1, dir1, sees1) =
      map_pages_lem low 0 w0 s0 page_size (no_entries-IsPaged w s g null) refl refl (ground arith)
        (low_room w0 s0 npages (omega (arith, one))) in
    let (m2, run2, h2, few2, grew2, dir2, sees2) =
      map_pages_lem high kernbase m1.0 m1.1 kernel_start h1 aligned refl (omega arith) (
        omega (
          arith,
          one,
          few1,
          low_pages npages,
          missing-≤ s0 page_size,
          missing-≤ m1.1 (kernbase + kernel_start),
          pages_below_lem kernel_start kernel_end order,
        )) in
    let t : Tables = record (m2.1) { cr3 = (pmm_alloc w).0; window = low_end npages } in
    let paged : IsPaged m2.0 t = IsPaged-loaded m2.0 m2.1 (pmm_alloc w).0 (low_end npages) h2 in
    (
      (m2.0, t),
      rw (some_page, within, run1, run2) refl,
      paged,
      Took-loaded w m2 (pmm_alloc w).0 (low_end npages)
          (took w s g m2 valid (dir2 ∙ dir1) (Grew-trans w0 s0 m1 m2 g.valid grew1 grew2)),
      sym (dir2 ∙ dir1),
      λ v k.
          vmm_extract-address pmm_alloc m2.0 t v paged.tables
          ∙ ap done (
              sees2 v k
              ∙ windows npages kernel_start kernel_end v (place m1.1 v) aligned order (
                  sees1 v k
                  ∙ ap (λ z. if in_pages page_size (page_size + low * 4096) v then v - 0 else z)
                      (place-no_entries w s g v))),
    )
