-- ===== src/Pmm.antt =====
-- src/kern/subr_pmm.c and sys/pmm.h: the physical memory manager, a bitmap with one bit per page.
-- The static variables are the fields of `Pmm`; the bitmap is bytes of memory at `bitmap`.
-- `unsigned long` has 32 bits on the target (i386), `uint64_t` has 64.
pub mod Bitmap
pub mod Invariant
pub mod Init
pub mod Region
pub mod Below
pub mod Search
pub mod Alloc
pub mod Low
pub mod Free
pub mod Tests
use mkrn.Prelude.{
  ℕ, zero, suc, ◌+◌, ◌-◌, ◌*◌, ◌/◌, ◌%◌, ◌^◌, bit_and, bit_or, Mem, store, u32_mod, u64_mod, add32,
  sub32, ltb, ◌==◌, if◌then◌else◌,
}
use mkrn.Libkern.{memset}

abbrev pub page_size : ℕ
page_size = 4096

-- `(uint32_t)-1`
abbrev pub pmm_enomem : ℕ
pmm_enomem = 2 ^ 32 - 1

pub record Pmm : Type 0 where
  pub mem : Mem
  pub bitmap : ℕ
  pub npages_total : ℕ
  pub npages_free : ℕ
  pub alloc_cursor : ℕ

-- `b | (uint8_t)(1 << i)`, `b & (uint8_t)~(1 << i)` and `(b >> i) & 1`, for a byte `b` and `i < 8`
pub set_bit8 : ℕ → ℕ → ℕ
set_bit8 b i = bit_or b (2 ^ i % 256)

pub clear_bit8 : ℕ → ℕ → ℕ
clear_bit8 b i = bit_and b (255 - 2 ^ i % 256)

pub test_bit8 : ℕ → ℕ → ℕ
test_bit8 b i = bit_and (b / 2 ^ i) 1

-- `page >> 3` picks the byte and `page & 7` the bit.
pub bit_set : Pmm → ℕ → Pmm
bit_set s page = record s { mem = store s.mem at (set_bit8 (s.mem at) (page % 8)) }
  where
    at : ℕ
    at = s.bitmap + page / 8

pub bit_clear : Pmm → ℕ → Pmm
bit_clear s page = record s { mem = store s.mem at (clear_bit8 (s.mem at) (page % 8)) }
  where
    at : ℕ
    at = s.bitmap + page / 8

pub bit_test : Pmm → ℕ → ℕ
bit_test s page = test_bit8 (s.mem (s.bitmap + page / 8)) (page % 8)

pub pmm_init : Pmm → ℕ → ℕ → Pmm
pmm_init s bitmap_addr npages = record {
  mem = memset s.mem bitmap_addr 0xff (add32 npages 7 / 8);
  bitmap = bitmap_addr;
  npages_total = npages;
  npages_free = 0;
  alloc_cursor = 0;
}

-- `x & ~((uint64_t)PAGE_SIZE - 1)`
abbrev pub page_trunc : ℕ → ℕ
page_trunc x = x / page_size * page_size

-- `bit_set(p); npages_free--;` and `bit_clear(p); npages_free++;`
pub take_page : Pmm → ℕ → Pmm
take_page s p = record (bit_set s p) { npages_free = sub32 s.npages_free 1 }

pub give_page : Pmm → ℕ → Pmm
give_page s p = record (bit_clear s p) { npages_free = add32 s.npages_free 1 }

pub reserve_page : Pmm → ℕ → Pmm
reserve_page s p = if bit_test s p == 0 then take_page s p else s

-- The rounds `p`, `p + 1`, ... of the loop of `pmm_reserve`.
pub reserve_loop : Pmm → ℕ → ℕ → Pmm
reserve_loop s p zero = s
reserve_loop s p (suc n) = reserve_loop (reserve_page s p) (p + 1) n

-- `plast`: the end of a region in pages, truncated to 32 bits and cut at the last page.
pub page_limit : Pmm → ℕ → ℕ
page_limit s end =
    let plast : ℕ = end / page_size % u32_mod in
    if ltb s.npages_total plast then s.npages_total else plast

pub pmm_reserve : Pmm → ℕ → ℕ → Pmm
pmm_reserve s base len = if len == 0 then s else reserve_loop s first (page_limit s end - first)
  where
    first : ℕ
    first = page_trunc base / page_size % u32_mod

    end : ℕ
    end = page_trunc ((base + len + page_size - 1) % u64_mod)

pub free_page : Pmm → ℕ → Pmm
free_page s p = if bit_test s p == 0 then s else give_page s p

pub free_loop : Pmm → ℕ → ℕ → Pmm
free_loop s p zero = s
free_loop s p (suc n) = free_loop (free_page s p) (p + 1) n

pub pmm_free_region : Pmm → ℕ → ℕ → Pmm
pmm_free_region s base len =
    if len == 0
    then s
    else if ltb ((base + len) % u64_mod) start
    then s
    else free_loop s first (page_limit s end - first)
  where
    start : ℕ
    start = page_trunc ((base + page_size - 1) % u64_mod)

    first : ℕ
    first = start / page_size % u32_mod

    end : ℕ
    end = page_trunc ((base + len) % u64_mod)

abbrev pub next_cursor : Pmm → ℕ
next_cursor s = if ltb (add32 s.alloc_cursor 1) s.npages_total then add32 s.alloc_cursor 1 else 0

-- The `n` rounds that are left of the loop of `pmm_alloc`, with the result.
pub alloc_loop : Pmm → ℕ → ℕ × Pmm
alloc_loop s zero = (pmm_enomem, s)
alloc_loop s (suc n) =
    let moved : Pmm = record s { alloc_cursor = next_cursor s } in
    let rest : ℕ × Pmm = alloc_loop moved n in
    if bit_test moved s.alloc_cursor == 0
    then (s.alloc_cursor * page_size % u32_mod, take_page moved s.alloc_cursor)
    else rest

pub pmm_alloc : Pmm → ℕ × Pmm
pmm_alloc s = alloc_loop s s.npages_total

pub pmm_free : Pmm → ℕ → Pmm
pmm_free s paddr =
    let p : ℕ = paddr / page_size in if ltb p s.npages_total then free_page s p else s

pub pmm_npages : Pmm → ℕ
pmm_npages s = s.npages_total

pub pmm_nfree : Pmm → ℕ
pmm_nfree s = s.npages_free
