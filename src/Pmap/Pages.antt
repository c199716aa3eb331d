-- ===== src/Pmap/Pages.antt =====
-- vmm_map over the page allocator of src/kern/subr_pmm.c: where the tables get their pages.
use mkrn.Prelude.{
  ℕ, ◌+◌, ◌*◌, ◌/◌, ◌%◌, ◌^◌, ◌≤◌, ◌<◌, ◌≡◌, ap, sym, subst, ◌∙◌, arith, ◌==◌, if◌then◌else◌,
  Bool-cases, true, inl, inr,
}
use mkrn.Pmm.{Pmm, page_size, bit_test, pmm_alloc}
use mkrn.Pmm.Invariant.{IsValid}
use mkrn.Pmm.Search.{Granted}
use mkrn.Pmm.Low.{low_free, pmm_alloc-low}
use mkrn.Pmap.{Tables, pde_index, pte_addr, is_present, put_word, pde, add_table}
use mkrn.Pmap.Entry.{
  IsTables, Fresh, pgdir-add_table, pde-add_table, pde-write, write-IsTables, add_table-IsTables,
}
use mkrn.Pmap.Map.{HasRoom}

-- The allocator holds the pages of the directory and of the tables as busy, and page 0.
pub record IsPaged (w : Pmm) (s : Tables) : Type 0 where
  pub valid : IsValid w
  pub tables : IsTables s
  pub null : bit_test w 0 ≡ 1
  pub directory : bit_test w (s.pgdir / 4096) ≡ 1
  pub busy :
      (i : ℕ) → i < 1024 → is_present (pde s i) ≡ true → bit_test w (pte_addr (pde s i) / 4096) ≡ 1

-- How many pages the allocator hands out one after another that can be cleared.
abbrev pub room : Pmm → Tables → ℕ
room w s = low_free w (s.window / page_size)

-- A page that the allocator hands out below the window's end is none of the tables.
pub Fresh-of_Granted :
    (w : Pmm) (s : Tables)
    → IsPaged w s
    → Granted w (pmm_alloc w)
    → (pmm_alloc w).0 + 4096 ≤ s.window
    → Fresh s (pmm_alloc w).0
Fresh-of_Granted w s h g reached = record {
  reached = reached;
  page = omega (arith, g.address);
  not_null = λ e.
      absurd (ground (arith, g.address, g.was_free, h.null, ap (bit_test w) {x = g.page} {y = 0}));
  off_directory = λ e. absurd (
      ground (
        arith,
        g.address,
        g.was_free,
        h.directory,
        ap (bit_test w) {x = g.page} {y = s.pgdir / 4096},
      ));
  no_table = λ i l p e. absurd (
      ground (
        arith,
        g.address,
        g.was_free,
        h.busy i l p,
        ap (bit_test w) {x = g.page} {y = pte_addr (pde s i) / 4096},
      ));
}

-- How many pages a table for `va` takes.
abbrev pub missing : Tables → ℕ → ℕ
missing s va = if is_present (pde s (pde_index va)) then 0 else 1

pub missing-≤ : (s : Tables) (u : ℕ) → missing s u ≤ 1
missing-≤ s u = ground arith

-- The next page needs a table only behind the end of the present one.
pub missing-next :
    (s : Tables) (u : ℕ)
    → u % 4096 ≡ 0
    → u + 4096 < 2 ^ 32
    → missing s u ≡ 0
    → missing s (u + 4096) + u / 2 ^ 22 ≤ (u + 4096) / 2 ^ 22
missing-next s u a top full = elim (Bool-cases ((u + 4096) / 2 ^ 22 == u / 2 ^ 22)) [
  | inl same ↦
      let there : pde_index (u + 4096) ≡ pde_index u = ground (arith, same) in
      let none : missing s (u + 4096) ≡ 0 =
        ap (λ i. if is_present (pde s i) then 0 else 1) there ∙ full in
      ground (arith, same, none)
  | inr other ↦ ground (arith, other)
]

pub pmm_alloc-room :
    (w : Pmm) (s : Tables)
    → IsValid w
    → 0 < room w s
    → Granted w (pmm_alloc w)
      × ((pmm_alloc w).0 + 4096 ≤ s.window)
      × (room w s ≤ room (pmm_alloc w).1 s + 1)
pmm_alloc-room w s v l =
    let (g, low, one) = pmm_alloc-low w (s.window / page_size) v l in (g, omega (arith, low), one)

pub HasRoom-of_free :
    (w : Pmm) (s : Tables) (va : ℕ)
    → IsPaged w s
    → missing s va ≤ room w s
    → HasRoom pmm_alloc w s va
HasRoom-of_free w s va h l = elim (Bool-cases (is_present (pde s (pde_index va)))) [
  | inl p ↦ inl p
  | inr p ↦
      let (g, reached, _) = pmm_alloc-room w s h.valid (ground (arith, p)) in
      inr (Fresh-of_Granted w s h g reached)
]

pub add_table-IsPaged :
    (w : Pmm) (s : Tables) (i : ℕ)
    → IsPaged w s
    → Granted w (pmm_alloc w)
    → (pmm_alloc w).0 + 4096 ≤ s.window
    → i < 1024
    → IsPaged (pmm_alloc w).1 (add_table s i (pmm_alloc w).0)
add_table-IsPaged w s i h g reached l =
    let f = Fresh-of_Granted w s h g reached in
    let p = (pmm_alloc w).0 in
    record {
      valid = g.valid;
      tables = add_table-IsTables s i p h.tables f l;
      null = ground (arith, g.bits 0, h.null);
      directory =
          ap (λ a. bit_test (pmm_alloc w).1 (a / 4096)) (pgdir-add_table s i p)
          ∙ ground (arith, g.bits (s.pgdir / 4096), h.directory);
      busy = λ j lj e. ground (
        arith,
        pde-add_table s i p j h.tables f lj,
        g.bits (pte_addr (pde (add_table s i p) j) / 4096),
        h.busy j lj,
        g.address,
      );
    }

pub write-IsPaged :
    (w : Pmm) (s : Tables) (i k e table : ℕ)
    → IsPaged w s
    → is_present (pde s i) ≡ true
    → pte_addr (pde s i) ≡ table
    → i < 1024
    → k < 1024
    → IsPaged w (put_word s (table + 4 * k) e)
write-IsPaged w s i k e table h p at li lk =
    subst (λ a. IsPaged w (put_word s (a + 4 * k) e)) at
      (record {
        valid = h.valid;
        tables = write-IsTables s i k e h.tables p li lk;
        null = h.null;
        directory = h.directory;
        busy = λ j lj q.
            let same = pde-write s i k j e h.tables p li lk lj in
            ap (λ a. bit_test w (pte_addr a / 4096)) same
            ∙ h.busy j lj (ap is_present (sym same) ∙ q);
      })

-- pmm_alloc with a page left in the window: the page was free, and no busy one becomes free.
pub pmm_alloc-IsPaged :
    (w : Pmm) (s : Tables)
    → IsPaged w s
    → 0 < room w s
    → Granted w (pmm_alloc w) × IsPaged (pmm_alloc w).1 s × (room w s ≤ room (pmm_alloc w).1 s + 1)
pmm_alloc-IsPaged w s h l =
    let (g, reached, one) = pmm_alloc-room w s h.valid l in
    (
      g,
      record {
        valid = g.valid;
        tables = h.tables;
        null = ground (arith, g.bits 0, h.null);
        directory = ground (arith, g.bits (s.pgdir / 4096), h.directory);
        busy = λ i li p. ground (arith, g.bits (pte_addr (pde s i) / 4096), h.busy i li p);
      },
      one,
    )
