-- ===== src/Main.antt =====
-- src/kern/main.c: how kmain sets up the page allocator and the page tables, maps the framebuffer
-- that the boot loader reports, and hands it to the console. The log lines are left out.
pub mod Paging
pub mod Framebuffer
pub mod Tests
use mkrn.Prelude.{
  ℕ, zero, suc, ◌*◌, ◌/◌, ◌%◌, ◌^◌, u32_mod, add32, ltb, leb, ◌==◌, ◌&&◌, if◌then◌else◌, Bool,
  false, Option, none, some, Outcome, done, out_of_fuel, ◌>>=◌,
}
use mkrn.Pmm.{Pmm, page_size, pmm_alloc, pmm_npages}
use mkrn.PmmBoot.{pmm_bootstrap}
use mkrn.Pmap.{Tables, pmap_init, vmm_map}
use mkrn.Fb.{ConsFb}
use mkrn.Console.{Console, cons_fb_init}

-- The calls of pmm_bootstrap and pmap_init; `kernel_start` and `kernel_end` are the addresses of the
-- linker's symbols.
pub init_paging : ℕ → ℕ → ℕ → Pmm → Tables → Outcome (Pmm × Tables)
init_paging kernel_start kernel_end mbi w s = do
  w' ← pmm_bootstrap kernel_start kernel_end w mbi
  pmap_init pmm_alloc (pmm_npages w') kernel_start kernel_end w' s

-- `struct mb2_tag_framebuffer` of machine/multiboot.h
pub record FbTag : Type 0 where
  pub addr : ℕ
  pub pitch : ℕ
  pub width : ℕ
  pub height : ℕ
  pub bpp : ℕ
  pub fb_type : ℕ
  pub red_pos : ℕ
  pub red_size : ℕ
  pub green_pos : ℕ
  pub green_size : ℕ
  pub blue_pos : ℕ
  pub blue_size : ℕ

-- PAGE_PRESENT | PAGE_WRITE
abbrev pub fb_page : ℕ
fb_page = 3

-- `fbtag->fb_type == MB2_FB_TYPE_RGB && fbtag->addr <= 0xffffffffULL`
abbrev pub is_linear_rgb : FbTag → Bool
is_linear_rgb tag = tag.fb_type == 1 && leb tag.addr 0xffffffff

pub cons_fb_of : FbTag → ConsFb
cons_fb_of tag = record {
  addr = tag.addr % u32_mod;
  pitch = tag.pitch;
  width = tag.width;
  height = tag.height;
  bpp = tag.bpp;
  red_pos = tag.red_pos;
  red_size = tag.red_size;
  green_pos = tag.green_pos;
  green_size = tag.green_size;
  blue_pos = tag.blue_pos;
  blue_size = tag.blue_size;
}

-- `pmm_alloc` is the allocator that vmm_map calls, and `fuel` bounds the rounds.
module _ {A : Type 0} (pmm_alloc : A → ℕ × A) where
  -- The loop `for (; addr < end; addr += PAGE_SIZE)`.
  pub map_framebuffer : ℕ → A → Tables → ℕ → ℕ → Outcome (A × Tables)
  map_framebuffer zero w s addr end = out_of_fuel
  map_framebuffer (suc fuel) w s addr end =
      let mapped : Outcome (A × Tables) =
        vmm_map pmm_alloc w s addr addr fb_page
        >>= (λ r. map_framebuffer fuel r.0 r.1 (add32 addr page_size) end) in
      if ltb addr end then mapped else done (w, s)

  module _ {W : Type 0} where
    -- The branch for a framebuffer that is linear and has colours.
    pub open_framebuffer : ℕ → FbTag → A → Tables → Console W → Outcome (A × Tables × Console W)
    open_framebuffer fuel tag w s cons = do
      let base : ℕ = tag.addr % u32_mod
      let len : ℕ = tag.pitch * tag.height % u32_mod
      (w', s') ← map_framebuffer fuel w s (base / page_size * page_size) (add32 base len)
      done (w', s', (cons_fb_init cons (cons_fb_of tag)).1)

    pub init_framebuffer :
        ℕ → Option FbTag → A → Tables → Console W → Outcome (A × Tables × Console W)
    init_framebuffer fuel none w s cons = done (w, s, cons)
    init_framebuffer fuel (some tag) w s cons =
        if is_linear_rgb tag then open_framebuffer fuel tag w s cons else done (w, s, cons)
