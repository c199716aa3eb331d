-- ===== src/Pmap.antt =====
-- src/kern/amd64/pmap.c and subr_vmm.c: the two-level page tables.
-- `word` gives the 32-bit word at an address. The tables are read and written in aligned words
-- only, so that two of these never overlap in part. invlpg() drops a cached translation and
-- changes none of this state. pmm_alloc() and pmm_npages() of the page allocator are parameters.
-- An int result that is always 0 is left out. Words are those of physical memory. A page is cleared
-- at its physical address, which faults behind `window`, the end of the memory that the loaded tables
-- map to itself; a fault ends in the panic of trap.c. Tables and directory that have been cleared in
-- this way are then read and written at their physical addresses: no caller maps or unmaps a page of
-- the window, and page 0 is never handed out.
pub mod Entry
pub mod Map
pub mod Pages
pub mod Places
pub mod Run
pub mod Window
pub mod Init
pub mod Tests
use mkrn.Prelude.{
  ℕ, zero, suc, ◌+◌, ◌-◌, ◌*◌, ◌/◌, ◌%◌, ◌^◌, add32, u32_mod, ltb, leb, ◌==◌, if◌then◌else◌, not,
  ◌&&◌, ◌||◌, Bool, true, false, Outcome, done, panic, pmap_no_table, pmap_no_directory, page_fault,
  ◌>>=◌,
}
use mkrn.Pmm.{page_size, pmm_enomem}

pub record Tables : Type 0 where
  pub word : ℕ → ℕ
  pub pgdir : ℕ
  pub cr3 : ℕ
  pub window : ℕ

-- PTE_RW
abbrev pte_rw : ℕ
pte_rw = 2

abbrev pub kernbase : ℕ
kernbase = 0xc0000000

abbrev pmap_low_end : ℕ
pmap_low_end = 0x800000

abbrev pub pde_index : ℕ → ℕ
pde_index va = va / 2 ^ 22 % 1024

abbrev pub pte_index : ℕ → ℕ
pte_index va = va / 2 ^ 12 % 1024

abbrev pub page_offset : ℕ → ℕ
page_offset va = va % 4096

abbrev pub pte_addr : ℕ → ℕ
pte_addr pte = pte / 4096 * 4096

-- `pte & PTE_PRESENT`, the lowest bit
abbrev pub is_present : ℕ → Bool
is_present pte = pte % 2 == 1

-- `PTE_ADDR(pa) | (flags & 0xfff) | PTE_PRESENT`: the parts have no bit in common but the lowest.
abbrev pub pte_of : ℕ → ℕ → ℕ
pte_of pa flags = pte_addr pa + (flags % 4096 / 2 * 2 + 1)

-- `pt_phys | PTE_PRESENT | PTE_RW | PTE_USER` sets the three lowest bits.
abbrev pub pde_of : ℕ → ℕ
pde_of pt_phys = pt_phys / 8 * 8 + 7

abbrev pub put_word : Tables → ℕ → ℕ → Tables
put_word s a v = record s { word = λ x. if x == a then v else s.word x }

-- memset() of a page with 0
abbrev clear_page : Tables → ℕ → Tables
clear_page s p = record s { word = λ x. if leb p x && ltb x (p + page_size) then 0 else s.word x }

-- The whole page can be written at its physical address: below the 4 MiB of amd64/boot.S until
-- pmap_init loads cr3, then below `low_end`.
abbrev pub is_reached : Tables → ℕ → Bool
is_reached s p = leb (p + page_size) s.window

-- `pgdir[pde_index]`
abbrev pub pde : Tables → ℕ → ℕ
pde s i = s.word (s.pgdir + 4 * i)

pub add_table : Tables → ℕ → ℕ → Tables
add_table s i pt_phys = put_word (clear_page s pt_phys) (s.pgdir + 4 * i) (pde_of pt_phys)

-- The pages whose addresses a loop from `a` goes through while below `b`.
abbrev pub pages_below : ℕ → ℕ → ℕ
pages_below a b = (b - a + page_size - 1) / page_size

-- subr_vmm.c: PAGE_WRITE and PAGE_USER as PTE_RW and PTE_USER
pub pte_flags : ℕ → ℕ
pte_flags flags = (if flags / 2 % 2 == 1 then 2 else 0) + (if flags / 4 % 2 == 1 then 4 else 0)

module _ {W : Type 0} (pmm_alloc : W → ℕ × W) where
  pub pt_for : W → Tables → ℕ → Bool → Outcome (ℕ × W × Tables)
  pt_for w s i create =
      let (pt_phys, w') = pmm_alloc w in
      if is_present (pde s i)
      then done (pte_addr (pde s i), w, s)
      else if not create
      then done (0, w, s)
      else if pt_phys == pmm_enomem
      then panic pmap_no_table
      else if not (is_reached s pt_phys)
      then panic page_fault
      else done (pt_phys, w', add_table s i pt_phys)

  pub pmap_map : W → Tables → ℕ → ℕ → ℕ → Outcome (W × Tables)
  pmap_map w s va pa flags = do
    (pt, w', s') ← pt_for w s (pde_index va) true
    done (w', put_word s' (pt + 4 * pte_index va) (pte_of pa flags))

  pub pmap_unmap : W → Tables → ℕ → Outcome (W × Tables)
  pmap_unmap w s va = do
    (pt, w', s') ← pt_for w s (pde_index va) false
    done (w', if pt == 0 then s' else put_word s' (pt + 4 * pte_index va) 0)

  pub pmap_extract : W → Tables → ℕ → Outcome ℕ
  pmap_extract w s va = do
    (pt, w', s') ← pt_for w s (pde_index va) false
    let pte = s'.word (pt + 4 * pte_index va)
    done (if pt == 0 || not (is_present pte) then 0 else pte_addr pte + page_offset va)

  -- The `n` rounds left of a loop of pmap_init: pages from `addr` on, seen from `base + addr`.
  pub map_pages : ℕ → W → Tables → ℕ → ℕ → Outcome (W × Tables)
  map_pages base w s addr zero = done (w, s)
  map_pages base w s addr (suc n) = do
    (w', s') ← pmap_map w s (add32 base addr) addr pte_rw
    map_pages base w' s' (add32 addr page_size) n

  -- `npages` is the result of pmm_npages(); klog() is left out.
  pub pmap_init : ℕ → ℕ → ℕ → W → Tables → Outcome (W × Tables)
  pmap_init npages kernel_start kernel_end w s =
      let (pd_phys, w') = pmm_alloc w in
      let ram_bytes : ℕ = npages * page_size in
      let low_end : ℕ = if ltb ram_bytes pmap_low_end then ram_bytes else pmap_low_end in
      if pd_phys == pmm_enomem
      then panic pmap_no_directory
      else if not (is_reached s pd_phys)
      then panic page_fault
      else do
        (u, t) ←
            map_pages 0 w' (clear_page (record s { pgdir = pd_phys }) pd_phys) page_size
              (pages_below page_size low_end)
        (u', t') ← map_pages kernbase u t kernel_start (pages_below kernel_start kernel_end)
        done (u', record t' { cr3 = pd_phys; window = low_end })

  pub vmm_map : W → Tables → ℕ → ℕ → ℕ → Outcome (W × Tables)
  vmm_map w s va pa flags = pmap_map w s va pa (pte_flags flags)

  pub vmm_unmap : W → Tables → ℕ → Outcome (W × Tables)
  vmm_unmap w s va = pmap_unmap w s va

  pub vmm_extract : W → Tables → ℕ → Outcome ℕ
  vmm_extract w s va = pmap_extract w s va
