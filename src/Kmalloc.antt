-- ===== src/Kmalloc.antt =====
-- src/kern/subr_kmalloc.c: the kernel heap, a first-fit allocator over a list of block headers.
-- `hdr` gives the header that stands at an address. Headers take 16 bytes and stand at multiples
-- of 16, so two of them never overlap in part; what the users of the blocks write between the
-- headers is not part of the state. `interrupts` is the IF bit of eflags, which cli_save() and
-- sti_restore() save, clear and put back.
pub mod Tiles
pub mod Carve
pub mod Alloc
pub mod Merge
pub mod Free
pub mod Coalesce
pub mod Good
pub mod Live
pub mod Client
pub mod Init
pub mod Tests
use mkrn.Prelude.{
  ℕ, zero, suc, ◌+◌, ◌-◌, ◌*◌, ◌/◌, ◌%◌, ◌^◌, u32_mod, add32, sub32, ltb, leb, ◌==◌, if◌then◌else◌,
  Bool, true, false, not, ◌&&◌, ◌||◌, Option, none, some, Outcome, done, panic, out_of_fuel, ◌>>=◌,
  kfree_invalid, kfree_double, kheap_no_page, kheap_map,
}
use mkrn.Pmm.{page_size, pmm_enomem}

abbrev pub heap_base : ℕ
heap_base = 0xd1000000

-- HEAP_PAGES * PAGE_SIZE
abbrev pub heap_size : ℕ
heap_size = 256 * 4096

-- sizeof(struct kmalloc_hdr)
abbrev pub hdr_size : ℕ
hdr_size = 16

abbrev pub hdr_magic : ℕ
hdr_magic = 0x6b6d616c

abbrev pub heap_align : ℕ
heap_align = 16

-- ALIGN_UP(x, HEAP_ALIGN)
abbrev pub align_up : ℕ → ℕ
align_up x = add32 x (heap_align - 1) / heap_align * heap_align

-- `free` is an int that holds 0 or 1.
pub record Hdr : Type 0 where
  pub magic : ℕ
  pub size : ℕ
  pub free : Bool
  pub next : ℕ

pub record Kheap : Type 0 where
  pub hdr : ℕ → Hdr
  pub heap_head : ℕ
  pub interrupts : Bool

-- cpufunc.h: cli_save() returns the flags and disables interrupts; sti_restore() puts them back.
unfoldable pub cli_save : Kheap → Bool × Kheap
cli_save s = (s.interrupts, record s { interrupts = false })

unfoldable pub sti_restore : Kheap → Bool → Kheap
sti_restore s flags = record s { interrupts = flags }

abbrev pub put : (ℕ → Hdr) → ℕ → Hdr → ℕ → Hdr
put h a v x = if x == a then v else h x

-- The header part of kheap_init: one free block that covers the heap.
pub init_head : Kheap → Kheap
init_head s = record s {
  hdr =
      put s.hdr heap_base
        (record { magic = hdr_magic; size = heap_size - hdr_size; free = true; next = 0 });
  heap_head = heap_base;
}

-- PAGE_PRESENT | PAGE_WRITE
abbrev heap_page : ℕ
heap_page = 3

-- `pmm_alloc` and `vmm_map` are the functions of these names, on a state `W` of their own; the
-- Boolean is true for the return value 0.
module _ {W : Type 0} (pmm_alloc : W → ℕ × W) (vmm_map : W → ℕ → ℕ → ℕ → Outcome (Bool × W)) where
  -- The `n` rounds left of the loop of kheap_init, from the page at `va`.
  map_heap : W → ℕ → ℕ → Outcome W
  map_heap w va zero = done w
  map_heap w va (suc n) =
      let (pa, w') = pmm_alloc w in
      if pa == pmm_enomem then panic kheap_no_page else do
        (ok, w'') ← vmm_map w' va pa heap_page
        if ok then map_heap w'' (add32 va page_size) n else panic kheap_map

  pub kheap_init : W → Kheap → Outcome (W × Kheap)
  kheap_init w s = do w' ← map_heap w heap_base (heap_size / page_size); done (w', init_head s)

-- Rounds for a walk over the blocks: the heap holds fewer than heap_size / 16 of them.
pub heap_fuel : ℕ
heap_fuel = 65537

-- The loop of kmalloc up to the block that fits; 0 is NULL, the end of the list.
pub find_fit : ℕ → (ℕ → Hdr) → ℕ → ℕ → Option ℕ
find_fit zero h b n = none
find_fit (suc fuel) h b n =
    let rest : Option ℕ = find_fit fuel h (h b).next n in
    if b == 0 then some 0 else if not (h b).free || ltb (h b).size n then rest else some b

-- The address of the header that splits `n` bytes off the block at `b`.
abbrev pub rest_addr : ℕ → ℕ → ℕ
rest_addr b n = add32 (add32 b hdr_size) n

pub split : (ℕ → Hdr) → ℕ → ℕ → ℕ → Hdr
split h b n =
    put
      (put h (rest_addr b n) (record {
        magic = hdr_magic;
        size = sub32 (sub32 (h b).size n) hdr_size;
        free = true;
        next = (h b).next;
      }))
      b (record (h b) { size = n; next = rest_addr b n })

-- The body of the loop of kmalloc at the block that fits: split it if enough is left, and take it.
pub take_block : (ℕ → Hdr) → ℕ → ℕ → ℕ → Hdr
take_block h b n =
    let h' : ℕ → Hdr =
      if leb (add32 (add32 n hdr_size) heap_align) (h b).size then split h b n else h in
    put h' b (record (h' b) { free = false })

-- The part of kmalloc between cli_save() and sti_restore(). The result is the pointer, 0 for NULL.
pub alloc_block : Kheap → ℕ → Outcome (ℕ × Kheap)
alloc_block s n = elim (find_fit heap_fuel s.hdr s.heap_head n) [
  | none ↦ out_of_fuel
  | some b ↦
      if b == 0
      then done (0, s)
      else done (add32 b hdr_size, record s { hdr = take_block s.hdr b n })
]

pub kmalloc : Kheap → ℕ → Outcome (ℕ × Kheap)
kmalloc s size =
    if size == 0
    then done (0, s)
    else if ltb (heap_size - hdr_size) size
    then done (0, s)
    else locked
  where
    locked : Outcome (ℕ × Kheap)
    locked = do
      let (flags, off) = cli_save s
      (ptr, s') ← alloc_block off (align_up size)
      done (ptr, sti_restore s' flags)

-- Merging the block at `a` with the block at `c` that follows it.
pub absorb : (ℕ → Hdr) → ℕ → ℕ → ℕ → Hdr
absorb h a c =
    let h' : ℕ → Hdr =
      put h a
        (record (h a) { size = add32 (h a).size (add32 hdr_size (h c).size); next = (h c).next }) in
    put h' c (record (h' c) { magic = 0 })

-- `b->free = 1`, and the merge with the next block if that is free.
pub release_next : (ℕ → Hdr) → ℕ → ℕ → Hdr
release_next h b =
    let h' : ℕ → Hdr = put h b (record (h b) { free = true }) in
    if not ((h' b).next == 0) && (h' (h' b).next).free then absorb h' b (h' b).next else h'

-- The walk from `p` to the block before `b`; the result is `prev`.
pub find_prev : ℕ → (ℕ → Hdr) → ℕ → ℕ → ℕ → Option ℕ
find_prev zero h prev p b = none
find_prev (suc fuel) h prev p b =
    let rest : Option ℕ = find_prev fuel h p (h p).next b in
    if p == 0 || p == b then some prev else rest

pub release_prev : (ℕ → Hdr) → ℕ → ℕ → ℕ → Hdr
release_prev h prev b = if not (prev == 0) && (h prev).free then absorb h prev b else h

-- The part of kfree behind the test for a double free.
pub free_block : Kheap → ℕ → Outcome Kheap
free_block s b =
    let h : ℕ → Hdr = release_next s.hdr b in
    elim (find_prev heap_fuel h 0 s.heap_head b) [
      | none ↦ out_of_fuel
      | some prev ↦ done (record s { hdr = release_prev h prev b })
    ]

pub kfree : Kheap → ℕ → Outcome Kheap
kfree s ptr =
    if ptr == 0
    then done s
    else if not ((s.hdr b).magic == hdr_magic)
    then panic kfree_invalid
    else locked
  where
    b : ℕ
    b = sub32 ptr hdr_size

    locked : Outcome Kheap
    locked = do
      let (flags, off) = cli_save s
      s' ← (if (off.hdr b).free then panic kfree_double else free_block off b)
      done (sti_restore s' flags)
