-- ===== src/PmmBoot/Tests.antt =====
-- A blob at 0x100 with one module, from 0x2000 to 0x3000.
use mkrn.Prelude.{
  ℕ, ◌+◌, ◌^◌, ◌≤◌, ◌<◌, ◌≡◌, ◌⊎◌, inl, inr, refl, ap, sym, subst, ◌∙◌, arith, [], ◌∷◌, Mem, store,
  done, panic, pmm_no_room,
}
use mathlib.Core.List.{Memᴰ}
use mathlib.Core.List.Memᴰ
use mkrn.Pmm.{Pmm, page_size}
use mkrn.Pmm.Bitmap.{IsBytes}
use mkrn.PmmBoot.{
  tag_end, tag_module, total_size, tag_type, tag_first, tag_second, next_tag, mb2_find_tag,
  boot_data_end, pmm_bootstrap,
}
use mkrn.PmmBoot.Safety.{IsModule}
use mkrn.PmmBoot.Bootstrap.{EndsBelow, IsBoot, IsSafe, pmm_bootstrap-IsSafe}
use mkrn.PmmBoot.Blob.{Tags}

abbrev blob : Mem
blob =
    store
      (store (store (store (store (store (λ x. 0) 0x100 32) 0x108 3) 0x10c 16) 0x111 0x20) 0x115
        0x30)
      0x11c 8

blob-Tags : Tags blob 0x120 0x108 (0x108 ∷ [])
blob-Tags = Tags.more (ground arith) (omega arith) (Tags.last (omega arith) refl)

boot_run : boot_data_end blob 0x1800 0x100 ≡ done 0x3000
unfolding boot_data_end mkrn.PmmBoot.each_tag mkrn.PmmBoot.max_module
boot_run = refl

-- A blob at 0x9000 with one module and 32 MiB of memory.
abbrev pub map_blob : Mem
map_blob =
    store
      (store
        (store
          (store
            (store
              (store
                (store
                  (store
                    (store (store (store (store (λ x. 0) 0x9000 72) 0x9008 3) 0x900c 16) 0x9012
                      0x20)
                    0x9015 0x10)
                  0x9016 0x20)
                0x9018 6)
              0x901c 40)
            0x9020 24)
          0x9033 2)
        0x9038 1)
      0x9044 8

store-IsBytes : (m : Mem) (a v : ℕ) → IsBytes m → v < 256 → IsBytes (store m a v)
store-IsBytes m a v h l x = ground (arith, h x, l)

map_blob-IsBytes : IsBytes map_blob
map_blob-IsBytes x = ground arith

map_blob-Tags : Tags map_blob 0x9048 0x9008 (0x9008 ∷ 0x9018 ∷ [])
map_blob-Tags =
    Tags.more (ground arith) (omega arith)
      (Tags.more (ground arith) (omega arith) (Tags.last (omega arith) refl))

-- The only module is the first tag.
one_module : (p : ℕ) → Memᴰ p (0x9008 ∷ 0x9018 ∷ []) → tag_type map_blob p ≡ tag_module → p ≡ 0x9008
one_module p i e = elim (Memᴰ.cases_cons i) [
  | inl first ↦ first
  | inr j ↦ absurd (omega (arith, sym (ap (tag_type map_blob) (Memᴰ.eq_of_singleton j)) ∙ e))
]

pub map_blob-IsBoot : IsBoot map_blob 0x100000 0x180000 0x9000 0x9018 (0x9008 ∷ 0x9018 ∷ [])
unfolding mb2_find_tag mkrn.PmmBoot.find_tag_loop
map_blob-IsBoot = record {
  bytes = map_blob-IsBytes;
  tags = map_blob-Tags;
  modules = λ p i e. subst (IsModule map_blob) (sym (one_module p i e)) (omega arith, omega arith);
  map = refl;
  map_here = omega arith;
  map_steps = omega arith;
  map_inside = omega arith;
  kernel = omega arith;
  kernel_top = omega arith;
  blob_top = omega arith;
  module_top = λ p i e.
      subst (λ q. tag_second map_blob q + page_size ≤ 2 ^ 32) (sym (one_module p i e))
        (omega arith);
}

pub map_blob-EndsBelow : EndsBelow map_blob 0x180000 0x9000 (0x9008 ∷ 0x9018 ∷ []) 0x300000
map_blob-EndsBelow = record {
  kernel = omega arith;
  blob = omega arith;
  modules =
      λ p i e. subst (λ q. tag_second map_blob q ≤ 0x300000) (sym (one_module p i e)) (omega arith);
}

abbrev pub at_boot : Pmm
at_boot = record { mem = map_blob; bitmap = 0; npages_total = 0; npages_free = 0; alloc_cursor = 0 }

pmm_bootstrap-IsSafe_example :
    (pmm_bootstrap 0x100000 0x180000 at_boot 0x9000 ≡ panic pmm_no_room)
    ⊎ ((t : Pmm) × (pmm_bootstrap 0x100000 0x180000 at_boot 0x9000 ≡ done t)
        × IsSafe map_blob 0x100000 0x180000 0x9000 (0x9008 ∷ 0x9018 ∷ []) t)
pmm_bootstrap-IsSafe_example =
    pmm_bootstrap-IsSafe map_blob 0x100000 0x180000 0x9000 0x9018 (0x9008 ∷ 0x9018 ∷ [])
      map_blob-IsBoot at_boot refl
