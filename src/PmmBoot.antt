-- ===== src/PmmBoot.antt =====
-- src/kern/amd64/pmm_boot.c and machine/multiboot.h: from the boot loader's blob to the page
-- allocator. The blob is bytes of the memory in which the bitmap stands as well, and is read from
-- the state at hand. A blob does not reach round the end of the address space, so pointers into it
-- are added as they are. That the blob and the bitmap lie in the memory that amd64/boot.S maps is not
-- part of the state; Main.Paging shows it of the bitmap. klog() lines are left out.
pub mod Blob
pub mod Regions
pub mod Safety
pub mod Bootstrap
pub mod Tests
use mkrn.Prelude.{
  ℕ, zero, suc, ◌+◌, ◌-◌, ◌*◌, ◌/◌, ◌%◌, ◌^◌, u32_mod, u64_mod, add32, sub32, ltb, leb, ◌==◌,
  if◌then◌else◌, not, Bool, Mem, load32, load64, Outcome, done, panic, out_of_fuel, ◌>>=◌,
  pmm_no_room,
}
use mkrn.Pmm.{Pmm, page_size, pmm_init, pmm_reserve, pmm_free_region}

-- MB2_TAG_END, MB2_TAG_MODULE, MB2_TAG_BASIC_MEMINFO and MB2_TAG_MMAP
abbrev pub tag_end : ℕ
tag_end = 0

abbrev pub tag_module : ℕ
tag_module = 3

abbrev tag_meminfo : ℕ
tag_meminfo = 4

abbrev pub tag_mmap : ℕ
tag_mmap = 6

-- MB2_MEMORY_AVAILABLE
abbrev pub memory_available : ℕ
memory_available = 1

abbrev pub total_size : Mem → ℕ → ℕ
total_size m mbi = load32 m mbi

-- `type`, `size`, and the two words that follow in a tag: `mod_start` and `mod_end`, `mem_lower`
-- and `mem_upper`, or `entry_size` and `entry_version`
abbrev pub tag_type : Mem → ℕ → ℕ
tag_type m p = load32 m p

abbrev pub tag_size : Mem → ℕ → ℕ
tag_size m p = load32 m (p + 4)

abbrev pub tag_first : Mem → ℕ → ℕ
tag_first m p = load32 m (p + 8)

abbrev pub tag_second : Mem → ℕ → ℕ
tag_second m p = load32 m (p + 12)

-- `tag + ((tag->size + 7) & ~7)`
abbrev pub next_tag : Mem → ℕ → ℕ
next_tag m p = p + add32 (tag_size m p) 7 / 8 * 8

-- The loop of mb2_find_tag; 0 is NULL.
pub find_tag_loop : ℕ → Mem → ℕ → ℕ → Outcome ℕ
find_tag_loop zero m p type = out_of_fuel
find_tag_loop (suc fuel) m p type =
    let rest : Outcome ℕ = find_tag_loop fuel m (next_tag m p) type in
    if tag_type m p == tag_end then done 0 else if tag_type m p == type then done p else rest

-- A tag takes at least 8 bytes of the blob.
pub mb2_find_tag : Mem → ℕ → ℕ → Outcome ℕ
mb2_find_tag m mbi type = find_tag_loop (total_size m mbi + 1) m (mbi + 8) type

module _ {A : Type 0} (mem : A → Mem) (body : A → ℕ → A) where
  -- The loops over all tags, from the tag at `p`.
  pub each_tag : ℕ → ℕ → A → Outcome A
  each_tag zero p a = out_of_fuel
  each_tag (suc fuel) p a =
      let rest : Outcome A = each_tag fuel (next_tag (mem (body a p)) p) (body a p) in
      if tag_type (mem a) p == tag_end then done a else rest

  -- The loops over the entries of the memory map at `mmap`, from the entry at `p`.
  pub each_entry : ℕ → ℕ → ℕ → ℕ → A → Outcome A
  each_entry zero mmap end p a = out_of_fuel
  each_entry (suc fuel) mmap end p a =
      let rest : Outcome A =
        each_entry fuel mmap end (p + tag_first (mem (body a p)) mmap) (body a p) in
      if ltb p end then rest else done a

-- `ent->addr`, `ent->len` and `ent->type`
abbrev entry_addr : Mem → ℕ → ℕ
entry_addr m p = load64 m p

abbrev entry_len : Mem → ℕ → ℕ
entry_len m p = load64 m (p + 8)

abbrev pub entry_type : Mem → ℕ → ℕ
entry_type m p = load32 m (p + 16)

pub align_up : ℕ → ℕ → ℕ
align_up addr align = sub32 (add32 addr align) 1 / align * align

pub max_entry : Mem → ℕ → ℕ → ℕ
max_entry m max_addr p =
    let e : ℕ = (entry_addr m p + entry_len m p) % u64_mod in
    let cut : ℕ = if ltb 0x100000000 e then 0x100000000 else e in
    if not (entry_type m p == memory_available)
    then max_addr
    else if ltb max_addr cut
    then cut
    else max_addr

pub mmap_max_available : Mem → ℕ → Outcome ℕ
mmap_max_available m mbi = do
  mmap ← mb2_find_tag m mbi tag_mmap
  if mmap == 0
      then mb2_find_tag m mbi tag_meminfo
        >>= (λ mi. done (if mi == 0 then 0 else 0x100000 + tag_second m mi * 1024))
      else each_entry (λ _. m) (max_entry m) (tag_size m mmap + 1) mmap (mmap + tag_size m mmap)
          (mmap + 16) 0

pub free_entry : Pmm → ℕ → Pmm
free_entry s p =
    if entry_type s.mem p == memory_available
    then pmm_free_region s (entry_addr s.mem p) (entry_len s.mem p)
    else s

-- The two calls where there is no memory map.
free_meminfo : Pmm → ℕ → Pmm
free_meminfo s mi =
    let s' : Pmm = pmm_free_region s 0 (tag_first s.mem mi * 1024) in
    if mi == 0 then s else pmm_free_region s' 0x100000 (tag_second s'.mem mi * 1024)

pub mmap_free_available : Pmm → ℕ → Outcome Pmm
mmap_free_available s mbi = do
  mmap ← mb2_find_tag s.mem mbi tag_mmap
  if mmap == 0
      then mb2_find_tag s.mem mbi tag_meminfo >>= (λ mi. done (free_meminfo s mi))
      else each_entry (λ t. t.mem) free_entry (tag_size s.mem mmap + 1) mmap
          (mmap + tag_size s.mem mmap) (mmap + 16) s

pub max_module : Mem → ℕ → ℕ → ℕ
max_module m end p =
    if tag_type m p == tag_module
    then if ltb end (tag_second m p) then tag_second m p else end
    else end

pub boot_data_end : Mem → ℕ → ℕ → Outcome ℕ
boot_data_end m kernel_end mbi =
    let v : ℕ = add32 mbi (total_size m mbi) in
    each_tag (λ _. m) (max_module m) (total_size m mbi + 1) (mbi + 8)
      (if ltb kernel_end v then v else kernel_end)

pub reserve_module : Pmm → ℕ → Pmm
reserve_module s p =
    if tag_type s.mem p == tag_module
    then pmm_reserve s (tag_first s.mem p) (sub32 (tag_second s.mem p) (tag_first s.mem p))
    else s

pub reserve_boot_data : Pmm → ℕ → Outcome Pmm
reserve_boot_data s mbi =
    let s' : Pmm = pmm_reserve s mbi (total_size s.mem mbi) in
    each_tag (λ t. t.mem) reserve_module (total_size s.mem mbi + 1) (mbi + 8) s'

abbrev pub bitmap_pages : ℕ → ℕ
bitmap_pages total_pages = (add32 total_pages 7 / 8 + page_size - 1) / page_size

-- pmm_bootstrap once the bitmap has its place.
pub bootstrap_at : ℕ → ℕ → Pmm → ℕ → ℕ → ℕ → Outcome Pmm
bootstrap_at kernel_start kernel_end s mbi total_pages bitmap_phys = do
  s1 ← mmap_free_available (pmm_init s bitmap_phys total_pages) mbi
  let s2 = pmm_reserve s1 0 0x100000
  let s3 = pmm_reserve s2 kernel_start (sub32 kernel_end kernel_start)
  let s4 = pmm_reserve s3 bitmap_phys (bitmap_pages total_pages * page_size)
  reserve_boot_data s4 mbi

-- `kernel_start` and `kernel_end` are the addresses of the linker's symbols.
pub pmm_bootstrap : ℕ → ℕ → Pmm → ℕ → Outcome Pmm
pmm_bootstrap kernel_start kernel_end s mbi = do
  max_addr ← mmap_max_available s.mem mbi
  end ← boot_data_end s.mem kernel_end mbi
  let total_pages = (max_addr + page_size - 1) % u64_mod / page_size % u32_mod
  let bitmap_phys = align_up end page_size
  if ltb max_addr (bitmap_phys + bitmap_pages total_pages * page_size)
      then panic pmm_no_room
      else bootstrap_at kernel_start kernel_end s mbi total_pages bitmap_phys
