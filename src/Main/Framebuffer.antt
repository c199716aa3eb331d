-- ===== src/Main/Framebuffer.antt =====
-- The loop that maps the framebuffer, over the page tables and the page allocator.
use mkrn.Prelude.{
  ℕ, zero, suc, ◌+◌, ◌-◌, ◌*◌, ◌/◌, ◌%◌, ◌^◌, ◌≤◌, ◌<◌, ◌≡◌, refl, ap, ◌∙◌, arith, add32, ltb,
  if◌then◌else◌, if_true, Bool-cases, true, inl, inr, some, u32_mod, done,
}
use mkrn.Pmm.{Pmm, page_size, pmm_alloc}
use mkrn.Pmap.{Tables, pages_below, vmm_extract}
use mkrn.Pmap.Map.{vmm_extract-address}
use mkrn.Pmap.Pages.{IsPaged, room, missing, missing-≤, missing-next}
use mkrn.Pmap.Places.{done_if, place, place-vmm_map}
use mkrn.Pmap.Window.{in_pages, one_page}
use mkrn.Console.{Console, cons_fb_init}
use mkrn.Main.{
  FbTag, fb_page, is_linear_rgb, cons_fb_of, map_framebuffer, open_framebuffer, init_framebuffer,
}

map_framebuffer_loop :
    (fuel n : ℕ) (w : Pmm) (s : Tables) (addr end : ℕ)
    → IsPaged w s
    → addr % 4096 ≡ 0
    → end + 4096 ≤ 2 ^ 32
    → end ≤ addr + n * 4096
    → missing s addr + (addr + n * 4096) / 2 ^ 22 ≤ room w s + addr / 2 ^ 22
    → n < fuel
    → (r : Pmm × Tables) × (map_framebuffer pmm_alloc fuel w s addr end ≡ done r)
      × IsPaged r.0 r.1
      × ((v : ℕ) → v < 2 ^ 32 → place r.1 v ≡ (if in_pages addr end v then v else place s v))
unfolding map_framebuffer
map_framebuffer_loop zero n w s addr end h a top e l f = absurd (omega arith)
map_framebuffer_loop (suc fuel) n w s addr end h a top e l f = elim (Bool-cases (ltb addr end)) [
  | inr stop ↦ ((w, s), rw stop, h, λ v k. ground (arith, stop))
  | inl go ↦
      let (r, run, paged, end_kept, few, full, grew, sees) =
        place-vmm_map w s addr addr fb_page h (ground (arith, go)) (ground (arith, go)) in
      let need = missing-next r.1 addr a (ground (arith, go)) full in
      let next : add32 addr page_size ≡ addr + 4096 = ground (arith, go) in
      let (t, run', paged', sees') =
        map_framebuffer_loop fuel (n - 1) r.0 r.1 (addr + 4096) end paged (omega arith) top
          (ground (arith, go)) (ground (arith, go, few, need)) (ground (arith, go)) in
      (
        t,
        rw (go, run) (ap (λ a. map_framebuffer pmm_alloc fuel r.0 r.1 a end) next ∙ run'),
        paged',
        λ v k.
            sees' v k
            ∙ one_page 0 addr addr end v v (place s v) (place r.1 v) a refl (omega arith)
                (λ l. omega arith) go (sees v k),
      )
]

-- For a linear RGB framebuffer that ends below the last page of the address space, where from the
-- cursor on two pages and one for each whole 4 MiB of its length and of up to 4095 bytes more are free
-- in the window, and with more fuel than it has pages, kmain maps it without a panic or a fault: every
-- address of it has itself as physical address, and so has the rest of its pages; outside of them no
-- address changes. No table stands in a page that the allocator may hand out. The console is the one
-- that cons_fb_init makes of the tag.
pub init_framebuffer_lem :
    {W : Type 0} (fuel : ℕ) (tag : FbTag) (w : Pmm) (s : Tables) (cons : Console W) (base len : ℕ)
    → IsPaged w s
    → is_linear_rgb tag ≡ true
    → tag.addr ≡ base
    → tag.pitch * tag.height ≡ len
    → base + len + 4096 ≤ 2 ^ 32
    → 2 + (len + 4095) / 2 ^ 22 ≤ room w s
    → pages_below (base / 4096 * 4096) (base + len) < fuel
    → (r : Pmm × Tables) × (init_framebuffer pmm_alloc fuel (some tag) w s cons
        ≡ done (r.0, r.1, (cons_fb_init cons (cons_fb_of tag)).1))
      × IsPaged r.0 r.1
      × ((v : ℕ) → base ≤ v → v < base + len → vmm_extract pmm_alloc r.0 r.1 v ≡ done v)
      × ((v : ℕ)
          → v < 2 ^ 32
          → vmm_extract pmm_alloc r.0 r.1 v ≡ (
              if in_pages (base / 4096 * 4096) (base + len) v
              then done v
              else vmm_extract pmm_alloc w s v))
unfolding init_framebuffer open_framebuffer
init_framebuffer_lem fuel tag w s cons base len h rgb at size top room enough =
    let (r, run, paged, sees) =
      map_framebuffer_loop fuel (pages_below (base / 4096 * 4096) (base + len)) w s
        (base / 4096 * 4096) (base + len) h (omega arith) (omega arith) (omega arith)
        (omega (arith, room, missing-≤ s (base / 4096 * 4096))) enough in
    let start : tag.addr % u32_mod ≡ base = omega (arith, at) in
    let bytes : tag.pitch * tag.height % u32_mod ≡ len = omega (arith, size) in
    let end : add32 base len ≡ base + len = omega arith in
    let view : (v : ℕ)
        → v < 2 ^ 32
        → vmm_extract pmm_alloc r.0 r.1 v ≡ (
            if in_pages (base / 4096 * 4096) (base + len) v
            then done v
            else vmm_extract pmm_alloc w s v) =
      λ v k.
        vmm_extract-address pmm_alloc r.0 r.1 v paged.tables
        ∙ (ap done (sees v k)
            ∙ done_if (in_pages (base / 4096 * 4096) (base + len) v) v (place s v) _
                (vmm_extract-address pmm_alloc w s v h.tables)) in
    (
      r,
      rw (rgb, start, bytes, end, run),
      paged,
      λ v lo hi.
          view v (omega arith)
          ∙ if_true (in_pages (base / 4096 * 4096) (base + len) v) _ _ (ground (arith, lo, hi)),
      view,
    )
