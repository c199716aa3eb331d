-- ===== src/Main/Tests.antt =====
-- A framebuffer over two pages, with a directory in page 2 of a machine that has four pages free,
-- and the start on a machine with 32 MiB.
use mkrn.Prelude.{
  panic, pmm_no_room, ◌⊎◌, [], ◌∷◌, ◌-◌, ℕ, ◌+◌, ◌*◌, ◌/◌, ◌^◌, ◌≤◌, ◌<◌, ◌≡◌, refl, arith, some,
  if◌then◌else◌, done,
}
use mkrn.Pmm.Low.{low_free}
use mkrn.Pmm.{Pmm, page_size, pmm_alloc, pmm_npages}
use mkrn.PmmBoot.{bitmap_pages, pmm_bootstrap}
use mkrn.PmmBoot.Bootstrap.{IsSafe}
use mkrn.PmmBoot.Tests.{map_blob, map_blob-IsBoot, map_blob-EndsBelow, at_boot}
use mkrn.Pmap.Init.{Took, low_end}
use mkrn.Main.Paging.{init_paging_lem}
use mkrn.Pmm.Tests.{some_free, some_free-IsValid, some_free_bits, some_free_low}
use mkrn.Pmap.{Tables, kernbase, vmm_extract}
use mkrn.Pmap.Pages.{IsPaged}
use mkrn.Console.{cons_fb_init}
use mkrn.Log.Tests.{quiet_log}
use mkrn.Main.{FbTag, cons_fb_of, init_framebuffer, init_paging}
use mkrn.Main.Framebuffer.{init_framebuffer_lem}
use mkrn.Pmap.Window.{in_pages}

abbrev empty : Tables
empty = record { word = λ x. 0; pgdir = 0x2000; cr3 = 0x2000; window = 0x400000 }

empty-IsPaged : IsPaged some_free empty
empty-IsPaged = record {
  valid = some_free-IsValid;
  tables = record {
    aligned = refl;
    not_null = λ i l p. cc;
    off_directory = λ i l p. cc;
    apart = λ i j li lj n p q. cc;
  };
  null = some_free_bits.0;
  directory = some_free_bits.1;
  busy = λ i l p. cc;
}

abbrev screen : FbTag
screen = record {
  addr = 0xfd000800;
  pitch = 64;
  width = 16;
  height = 48;
  bpp = 32;
  fb_type = 1;
  red_pos = 16;
  red_size = 8;
  green_pos = 8;
  green_size = 8;
  blue_pos = 0;
  blue_size = 8;
}

init_framebuffer_lem_example :
    (r : Pmm × Tables) × (init_framebuffer pmm_alloc 3 (some screen) some_free empty quiet_log.cons
      ≡ done (r.0, r.1, (cons_fb_init quiet_log.cons (cons_fb_of screen)).1))
    × IsPaged r.0 r.1
    × ((v : ℕ) → 0xfd000800 ≤ v → v < 0xfd000800 + 3072 → vmm_extract pmm_alloc r.0 r.1 v ≡ done v)
    × ((v : ℕ)
        → v < 2 ^ 32
        → vmm_extract pmm_alloc r.0 r.1 v ≡ (
            if in_pages (0xfd000800 / 4096 * 4096) (0xfd000800 + 3072) v
            then done v
            else vmm_extract pmm_alloc some_free empty v))
init_framebuffer_lem_example =
    init_framebuffer_lem 3 screen some_free empty quiet_log.cons 0xfd000800 3072 empty-IsPaged refl
      refl refl (omega arith) (omega (arith, some_free_low)) (omega arith)

init_paging_lem_example :
    (init_paging 0x100000 0x180000 0x9000 at_boot empty ≡ panic pmm_no_room)
    ⊎ ((t : Pmm) × (pmm_bootstrap 0x100000 0x180000 at_boot 0x9000 ≡ done t)
        × IsSafe map_blob 0x100000 0x180000 0x9000 (0x9008 ∷ 0x9018 ∷ []) t
        × (t.bitmap + bitmap_pages t.npages_total * page_size ≤ empty.window)
        × ((low_free t (empty.window / page_size) < 6 + (0x180000 - 0x100000 + 4095) / 2 ^ 22)
            ⊎ ((r : Pmm × Tables) × (init_paging 0x100000 0x180000 0x9000 at_boot empty ≡ done r)
                × IsPaged r.0 r.1
                × Took t r
                × (r.1.cr3 ≡ r.1.pgdir)
                × ((v : ℕ)
                    → v < 2 ^ 32
                    → vmm_extract pmm_alloc r.0 r.1 v
                      ≡ done (
                          if in_pages (kernbase + 0x100000) (kernbase + 0x180000) v
                          then v - kernbase
                          else if in_pages page_size (low_end (pmm_npages t)) v
                          then v
                          else 0)))))
init_paging_lem_example =
    init_paging_lem map_blob 0x100000 0x180000 0x9000 0x9018 (0x9008 ∷ 0x9018 ∷ []) map_blob-IsBoot
      at_boot empty 0x300000 refl map_blob-EndsBelow (omega arith) refl (omega arith)
