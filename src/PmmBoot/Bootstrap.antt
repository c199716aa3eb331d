-- ===== src/PmmBoot/Bootstrap.antt =====
-- pmm_bootstrap as a whole: the regions that must not be handed out are busy at its end.
use mkrn.Prelude.{
  ℕ, ◌+◌, ◌-◌, ◌*◌, ◌/◌, ◌%◌, ◌^◌, ◌≤◌, ◌<◌, ◌≡◌, ◌≢◌, ◌⊎◌, refl, ap, sym, subst, ◌∙◌, arith, ltb,
  ◌==◌, Bool-cases, false, inl, inr, List, Mem, sub32, u64_mod, u32_mod, done, panic, pmm_no_room,
  ◌>>=◌,
}
use mathlib.Core.List.{Memᴰ}
use mkrn.Pmm.{Pmm, page_size, pmm_init, pmm_reserve}
use mkrn.Pmm.Bitmap.{IsBytes}
use mkrn.Pmm.Invariant.{IsValid}
use mkrn.Pmm.Init.{pmm_init-IsValid}
use mkrn.Pmm.Below.{pmm_init-Kept}
use mkrn.PmmBoot.{
  tag_module, tag_mmap, total_size, tag_type, tag_size, tag_first, tag_second, mb2_find_tag,
  align_up, max_entry, mmap_max_available, free_entry, mmap_free_available, boot_data_end,
  reserve_module, each_tag, reserve_boot_data, bitmap_pages, bootstrap_at, pmm_bootstrap,
}
use mkrn.PmmBoot.Blob.{Tags, Tags-bound, boot_data_end_lem}
use mkrn.PmmBoot.Regions.{
  Sound, Busy, Grows, Sound-load32, reserve-Sound, free_entry-Sound, each_entry-keeps,
  mb2_find_tag-below,
}
use mkrn.PmmBoot.Safety.{AllModules, ModuleBusy, modules_lem}

-- A blob with a memory map, from a boot loader that leaves the last page of the address space.
pub record IsBoot (m : Mem) (kernel_start kernel_end mbi mmap : ℕ) (ts : List ℕ) : Type 0 where
  pub bytes : IsBytes m
  pub tags : Tags m (mbi + total_size m mbi) (mbi + 8) ts
  pub modules : AllModules m ts
  pub map : mb2_find_tag m mbi tag_mmap ≡ done mmap
  pub map_here : mmap ≢ 0
  pub map_steps : 0 < tag_first m mmap
  pub map_inside : mmap + 16 ≤ mbi + total_size m mbi
  pub kernel : kernel_start ≤ kernel_end
  pub kernel_top : kernel_end + page_size ≤ 2 ^ 32
  pub blob_top : mbi + total_size m mbi + page_size ≤ 2 ^ 32
  pub module_top :
      (p : ℕ) → Memᴰ p ts → tag_type m p ≡ tag_module → tag_second m p + page_size ≤ 2 ^ 32

-- The kernel, the blob and the modules end at `e` or below.
pub record EndsBelow (m : Mem) (kernel_end mbi : ℕ) (ts : List ℕ) (e : ℕ) : Type 0 where
  pub kernel : kernel_end ≤ e
  pub blob : mbi + total_size m mbi ≤ e
  pub modules : (p : ℕ) → Memᴰ p ts → tag_type m p ≡ tag_module → tag_second m p ≤ e

-- Not more than a page behind all of them.
abbrev pub IsNext : Mem → ℕ → ℕ → List ℕ → ℕ → Type 0
IsNext m kernel_end mbi ts b = (e : ℕ) → EndsBelow m kernel_end mbi ts e → b < e + page_size

-- The state is valid, and everything in use is busy: the first MiB, the kernel, the bitmap, the
-- blob and the modules. The bitmap stands right behind the others.
pub record IsSafe (m : Mem) (kernel_start kernel_end mbi : ℕ) (ts : List ℕ) (t : Pmm) : Type 0 where
  pub valid : IsValid t
  pub low : Busy t 0 0x100000
  pub kernel : Busy t kernel_start (kernel_end - kernel_start)
  pub bitmap : Busy t t.bitmap (bitmap_pages t.npages_total * page_size)
  pub blob : Busy t mbi (total_size m mbi)
  pub modules : (p : ℕ) → Memᴰ p ts → ModuleBusy m t p
  pub place : IsNext m kernel_end mbi ts t.bitmap

align_up-above : (end low : ℕ) → end + page_size ≤ 2 ^ 32 → low ≤ end → low ≤ align_up end page_size
unfolding align_up
align_up-above end low t l = omega (arith, t, l)

align_up-below :
    (end e : ℕ) → end + page_size ≤ 2 ^ 32 → end ≤ e → align_up end page_size < e + page_size
unfolding align_up
align_up-below end e t l = omega (arith, t, l)

module _ (m : Mem) (kernel_start kernel_end mbi mmap : ℕ) (ts : List ℕ)
    (h : IsBoot m kernel_start kernel_end mbi mmap ts) where
  max_available-le : (a : ℕ) × (mmap_max_available m mbi ≡ done a) × (a ≤ 2 ^ 32)
  unfolding mmap_max_available max_entry
  max_available-le =
      let there : (mmap == 0) ≡ false = ground (arith, h.map_here) in
      let (a, run, le) =
        each_entry-keeps (λ _. m) (max_entry m) (λ a. a ≤ 2 ^ 32) mmap (mmap + tag_size m mmap)
          (λ a l. h.map_steps) (λ a p l. ground (arith, l)) (tag_size m mmap + 1) (mmap + 16) 0
          (omega arith) (omega arith) (omega arith) in
      (a, rw (h.map, there) run, le)

  module _ (b n : ℕ) (above : mbi + total_size m mbi ≤ b) where
    free_available-Sound :
        (t : Pmm) → Sound m b n t → (u : Pmm) × (mmap_free_available t mbi ≡ done u) × Sound m b n u
    unfolding mmap_free_available
    free_available-Sound t s =
        let there : (mmap == 0) ≡ false = ground (arith, h.map_here) in
        let found = mb2_find_tag-below m t.mem b tag_mmap mbi s.below h.tags above ∙ h.map in
        let (u, run, v) =
          each_entry-keeps (λ t. t.mem) free_entry (Sound m b n) mmap (mmap + tag_size t.mem mmap)
            (λ a k. omega (
              arith,
              h.map_steps,
              Sound-load32 m b n a (mmap + 8) k (omega (arith, h.map_inside, above)),
            ))
            (λ a p k. free_entry-Sound m b n a p k) (tag_size t.mem mmap + 1) (mmap + 16) t s
            (omega arith) (omega arith) in
        (u, rw (found, there) run, v)

    reserve_boot_data-Sound :
        (t : Pmm)
        → Sound m b n t
        → (u : Pmm) × (reserve_boot_data t mbi ≡ done u)
          × Sound m b n u
          × Grows t u
          × Busy u mbi (total_size m mbi)
          × ((p : ℕ) → Memᴰ p ts → ModuleBusy m u p)
    unfolding reserve_boot_data
    reserve_boot_data-Sound t s =
        let inside = Tags-bound h.tags in
        let size : total_size t.mem mbi ≡ total_size m mbi =
          Sound-load32 m b n t mbi s (omega (arith, inside, above)) in
        let (s', busy, grows) =
          reserve-Sound m b n t mbi (total_size m mbi) s (omega (arith, h.blob_top)) in
        let (u, run, v, more, modules) =
          modules_lem m h.bytes b n (total_size m mbi + 1) (pmm_reserve t mbi (total_size m mbi))
            h.tags (omega arith) above h.modules s' in
        (
          u,
          ap (λ k. each_tag (λ t. t.mem) reserve_module (k + 1) (mbi + 8) (pmm_reserve t mbi k))
                size
              ∙ run,
          v,
          (λ base len x. more base len (grows base len x)),
          more mbi (total_size m mbi) busy,
          modules,
        )

    bootstrap_at-IsSafe :
        (s : Pmm)
        → s.mem ≡ m
        → n ≤ 2 ^ 20
        → b + bitmap_pages n * page_size ≤ 2 ^ 32
        → IsNext m kernel_end mbi ts b
        → (t : Pmm) × (bootstrap_at kernel_start kernel_end s mbi n b ≡ done t)
          × IsSafe m kernel_start kernel_end mbi ts t
    unfolding bootstrap_at
    bootstrap_at-IsSafe s e l k near =
        let bits : ℕ = bitmap_pages n * page_size in
        let init = pmm_init-Kept s b n in
        let s0 : Sound m b n (pmm_init s b n) = record {
          valid = (pmm_init-IsValid s b n (subst IsBytes (sym e) h.bytes) l).0;
          place = init.0;
          total = init.1;
          below = λ x lx. init.2 x lx ∙ ap (λ f. f x) e;
        } in
        let (t1, run1, s1) = free_available-Sound (pmm_init s b n) s0 in
        let (s2, low, _) = reserve-Sound m b n t1 0 0x100000 s1 (omega arith) in
        let t2 : Pmm = pmm_reserve t1 0 0x100000 in
        let size : sub32 kernel_end kernel_start ≡ kernel_end - kernel_start =
          omega (arith, h.kernel, h.kernel_top) in
        let (s3, kernel, grows3) =
          reserve-Sound m b n t2 kernel_start (kernel_end - kernel_start) s2
            (omega (arith, h.kernel, h.kernel_top)) in
        let t3 : Pmm = pmm_reserve t2 kernel_start (kernel_end - kernel_start) in
        let (s4, bitmap, grows4) = reserve-Sound m b n t3 b bits s3 (omega (arith, k)) in
        let t4 : Pmm = pmm_reserve t3 b bits in
        let (t, run, s5, grows5, blob, modules) = reserve_boot_data-Sound t4 s4 in
        (
          t,
          ap
                (λ o. o >>= (λ t.
                  reserve_boot_data
                    (pmm_reserve
                      (pmm_reserve (pmm_reserve t 0 0x100000) kernel_start
                        (sub32 kernel_end kernel_start))
                      b bits)
                    mbi))
                run1
              ∙ (ap
                    (λ x.
                      reserve_boot_data (pmm_reserve (pmm_reserve t2 kernel_start x) b bits) mbi)
                    size
                  ∙ run),
          record {
            valid = s5.valid;
            low = grows5 0 0x100000 (grows4 0 0x100000 (grows3 0 0x100000 low));
            kernel =
                grows5 kernel_start (kernel_end - kernel_start)
                  (grows4 kernel_start (kernel_end - kernel_start) kernel);
            bitmap =
                subst (λ x. Busy t x (bitmap_pages t.npages_total * page_size)) (sym s5.place)
                  (subst (λ x. Busy t b (bitmap_pages x * page_size)) (sym s5.total)
                    (grows5 b bits bitmap));
            blob = blob;
            modules = modules;
            place = subst (IsNext m kernel_end mbi ts) (sym s5.place) near;
          },
        )

  -- With a memory map in a sound blob, and with the kernel, the blob and the modules in front of
  -- the last page of the address space, pmm_bootstrap either panics for want of room for the
  -- bitmap, or leaves a valid allocator in which every page is busy that shares a byte with the
  -- first MiB, the kernel, the bitmap, the blob or a module; the bitmap starts less than a page
  -- behind the last of the kernel, the blob and the modules.
  pub pmm_bootstrap-IsSafe :
      (s : Pmm)
      → s.mem ≡ m
      → (pmm_bootstrap kernel_start kernel_end s mbi ≡ panic pmm_no_room)
        ⊎ ((t : Pmm) × (pmm_bootstrap kernel_start kernel_end s mbi ≡ done t)
            × IsSafe m kernel_start kernel_end mbi ts t)
  unfolding pmm_bootstrap
  pmm_bootstrap-IsSafe s e =
      let (max, run1, small) = max_available-le in
      let (end, run2, _, blob, _, least) = boot_data_end_lem m kernel_end mbi ts h.tags in
      let top : end + page_size ≤ 2 ^ 32 = omega (
        arith,
        least (2 ^ 32 - page_size) (omega (arith, h.kernel_top)) (omega (arith, h.blob_top))
            (λ p i k. omega (arith, h.module_top p i k)),
      ) in
      let n : ℕ = (max + page_size - 1) % u64_mod / page_size % u32_mod in
      let b : ℕ = align_up end page_size in
      let above : mbi + total_size m mbi ≤ b =
        align_up-above end (mbi + total_size m mbi) top (omega (arith, blob, h.blob_top)) in
      let same1 = ap (λ f. mmap_max_available f mbi) e ∙ run1 in
      let same2 = ap (λ f. boot_data_end f kernel_end mbi) e ∙ run2 in
      elim (Bool-cases (ltb max (b + bitmap_pages n * page_size))) [
        | inl y ↦ inl (rw (same1, same2, y) refl)
        | inr y ↦
            let (t, run, safe) =
              bootstrap_at-IsSafe b n above s e (omega (arith, small)) (ground (arith, y, small))
                (λ x k.
                  align_up-below end x top
                    (least x k.kernel (omega (arith, k.blob, h.blob_top)) k.modules)) in
            inr (t, rw (same1, same2, y) run, safe)
      ]
