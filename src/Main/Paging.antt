-- ===== src/Main/Paging.antt =====
-- kmain from the boot loader's blob to the page tables: pmm_bootstrap and then pmap_init.
use mkrn.Prelude.{
  ℕ, ◌+◌, ◌*◌, ◌-◌, ◌/◌, ◌%◌, ◌^◌, ◌≤◌, ◌<◌, ◌≡◌, ◌⊎◌, refl, ap, ◌∙◌, arith, ltb, if◌then◌else◌,
  Bool-cases, inl, inr, List, Mem, done, panic, pmm_no_room, ◌>>=◌,
}
use mkrn.Pmm.{Pmm, page_size, bit_test, pmm_alloc, pmm_npages}
use mkrn.Pmm.Low.{low_free, free-of_count}
use mkrn.PmmBoot.{bitmap_pages, pmm_bootstrap}
use mkrn.PmmBoot.Bootstrap.{EndsBelow, IsBoot, IsSafe, pmm_bootstrap-IsSafe}
use mkrn.Pmap.{Tables, kernbase, pmap_init, vmm_extract}
use mkrn.Pmap.Pages.{IsPaged}
use mkrn.Pmap.Window.{in_pages}
use mkrn.Pmap.Init.{Took, low_end, pmap_init_lem}
use mkrn.Main.{init_paging}

module _ (m : Mem) (kernel_start kernel_end mbi mmap : ℕ) (ts : List ℕ)
    (boot : IsBoot m kernel_start kernel_end mbi mmap ts) where
  -- With a page left, page 0 is one of the machine, and lies in the first MiB.
  null_busy :
      (t : Pmm) (n : ℕ)
      → IsSafe m kernel_start kernel_end mbi ts t
      → 0 < low_free t n
      → bit_test t 0 ≡ 1
  null_busy t n safe l =
      let (q, below, free) = free-of_count _ _ l in safe.low 0 (ground (arith, below)) refl

  bitmap_reached :
      (t : Pmm) (e window : ℕ)
      → IsSafe m kernel_start kernel_end mbi ts t
      → EndsBelow m kernel_end mbi ts e
      → e + 0x21000 ≤ window
      → t.bitmap + bitmap_pages t.npages_total * page_size ≤ window
  bitmap_reached t e window safe ends l = omega (arith, safe.place e ends, safe.valid.total_le, l)

  -- With a memory map in a sound blob, with a kernel that starts on a page and whose window at
  -- KERNBASE ends at least two pages below 4 GiB, and with the kernel, the blob and the modules in
  -- front of the last page of the address space and so far below the end of the window of the tables
  -- in use, which are those of amd64/boot.S, that 132 KiB are left: the first calls of kmain either
  -- panic for want of room for the bitmap, or pmm_bootstrap returns with the bitmap within the window
  -- and every page busy that shares a byte with the first MiB, the kernel, the bitmap, the blob or a
  -- module. In that case either fewer pages than six and one for each whole 4 MiB of the kernel's
  -- pages are free, from the cursor on, in that window, or pmap_init returns as well, without a fault:
  -- its tables stand in pages that were free and are now busy, no busy page has become free, the low
  -- pages stand for themselves, the kernel's at KERNBASE for the address without KERNBASE, and no
  -- other address has a physical one.
  pub init_paging_lem :
      (w : Pmm) (s : Tables) (e : ℕ)
      → w.mem ≡ m
      → EndsBelow m kernel_end mbi ts e
      → e + 0x21000 ≤ s.window
      → kernel_start % 4096 ≡ 0
      → kernbase + kernel_end + 8192 ≤ 2 ^ 32
      → (init_paging kernel_start kernel_end mbi w s ≡ panic pmm_no_room)
        ⊎ ((t : Pmm) × (pmm_bootstrap kernel_start kernel_end w mbi ≡ done t)
            × IsSafe m kernel_start kernel_end mbi ts t
            × (t.bitmap + bitmap_pages t.npages_total * page_size ≤ s.window)
            × ((low_free t (s.window / page_size) < 6 + (kernel_end - kernel_start + 4095) / 2 ^ 22)
                ⊎ ((r : Pmm × Tables) × (init_paging kernel_start kernel_end mbi w s ≡ done r)
                    × IsPaged r.0 r.1
                    × Took t r
                    × (r.1.cr3 ≡ r.1.pgdir)
                    × ((v : ℕ)
                        → v < 2 ^ 32
                        → vmm_extract pmm_alloc r.0 r.1 v
                          ≡ done (
                              if in_pages (kernbase + kernel_start) (kernbase + kernel_end) v
                              then v - kernbase
                              else if in_pages page_size (low_end (pmm_npages t)) v
                              then v
                              else 0)))))
  unfolding init_paging
  init_paging_lem w s e here ends below aligned top =
      elim (pmm_bootstrap-IsSafe m kernel_start kernel_end mbi mmap ts boot w here) [
        | inl no_room ↦ inl (rw no_room refl)
        | inr (t, run, safe) ↦
            let need : ℕ = 6 + (kernel_end - kernel_start + 4095) / 2 ^ 22 in
            inr (
              t,
              run,
              safe,
              bitmap_reached t e s.window safe ends below,
              elim (Bool-cases (ltb (low_free t (s.window / page_size)) need)) [
                | inl few ↦ inl (ground (arith, few))
                | inr room ↦
                    let enough : need ≤ low_free t (s.window / page_size) = ground (arith, room) in
                    let (r, init, paged, took, cr3, sees) =
                      pmap_init_lem (pmm_npages t) kernel_start kernel_end t s safe.valid
                        (null_busy t (s.window / page_size) safe (omega (arith, enough))) aligned
                        boot.kernel top enough in
                    inr (
                      r,
                      ap
                            (λ o. o >>= (λ w'.
                              pmap_init pmm_alloc (pmm_npages w') kernel_start kernel_end w' s))
                            run
                          ∙ init,
                      paged,
                      took,
                      cr3,
                      sees,
                    )
              ],
            )
      ]
