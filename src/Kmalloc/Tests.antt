-- ===== src/Kmalloc/Tests.antt =====
-- The heap as kheap_init leaves it, and two calls of kmalloc on it.
use mkrn.Prelude.{
  ℕ, ◌-◌, ◌/◌, ◌^◌, ◌<◌, ◌≡◌, ◌≤◌, ◌⊎◌, refl, arith, true, false, List, [], ◌∷◌, ◌++◌, done,
}
use mkrn.Kmalloc.{
  Kheap, init_head, heap_base, heap_size, hdr_size, align_up, split, take_block, find_fit,
  heap_fuel, kheap_init, alloc_block, kmalloc, kfree, cli_save, sti_restore,
}
use mkrn.Kmalloc.Tiles.{Block, block, heap_end, IsHeap}
use mkrn.Kmalloc.Alloc.{Allocated, Refuses, kmalloc_lem}
use mkrn.Kmalloc.Good.{IsGood, kfree-kmalloc}
use mkrn.Kmalloc.Live.{live, Apart, kmalloc_fresh, kfree_live}
use mkrn.Kmalloc.Client.{Holds, init_head-IsGood}
use mkrn.Kmalloc.Init.{alloc_page, map_page, kheap_init_lem}
use mkrn.Pmm.{Pmm, bit_test, pmm_alloc}
use mkrn.Pmm.Tests.{roomy, roomy-IsValid, roomy_bits, roomy_low}
use mkrn.Pmap.{Tables, vmm_extract}
use mkrn.Pmap.Pages.{IsPaged}

abbrev pub blank : Kheap
blank = record {
  hdr = λ _. record { size = 0; magic = 0; free = false; next = 0 };
  heap_head = 0;
  interrupts = true;
}

abbrev pub fresh_heap : Kheap
fresh_heap = init_head blank

abbrev whole : List Block
whole = block (heap_size - hdr_size) true ∷ []

fresh_heap-IsGood : IsGood fresh_heap whole
fresh_heap-IsGood = init_head-IsGood blank

-- The heap after the first call of kmalloc for a thread.
abbrev pub with_thread : Kheap
with_thread = record {
  hdr = take_block fresh_heap.hdr heap_base 48;
  heap_head = heap_base;
  interrupts = true;
}

pub kmalloc_40 : kmalloc fresh_heap 40 ≡ done (0xd1000010, with_thread)
unfolding kmalloc cli_save sti_restore alloc_block find_fit take_block split init_head heap_fuel
kmalloc_40 = refl

-- The heap after a call of kmalloc for 100 bytes.
abbrev pub taken : Kheap
taken = record {
  hdr = take_block fresh_heap.hdr heap_base 112;
  heap_head = heap_base;
  interrupts = true;
}

abbrev pub two_blocks : List Block
two_blocks = block 112 false ∷ block (heap_size - 144) true ∷ []

kmalloc_100 : kmalloc fresh_heap 100 ≡ done (0xd1000010, taken)
unfolding kmalloc cli_save sti_restore alloc_block find_fit take_block split init_head heap_fuel
kmalloc_100 = refl

pub taken-IsGood : IsGood taken two_blocks
unfolding take_block split init_head
taken-IsGood = record {
  heap = record {
    head_base = refl;
    tiles = (
      (refl, refl, refl, refl),
      refl,
      omega arith,
      ((refl, refl, refl, refl), refl, omega arith, refl),
    );
  };
  coalesced = (refl, tt);
}

kmalloc_lem_example :
    ((ptr : ℕ) × (s' : Kheap) × (kmalloc fresh_heap 100 ≡ done (ptr, s'))
      × Allocated (align_up 100) whole ptr s'
      × (s'.interrupts ≡ fresh_heap.interrupts))
    ⊎ (Refuses 100 whole × (kmalloc fresh_heap 100 ≡ done (0, fresh_heap)))
kmalloc_lem_example = kmalloc_lem fresh_heap whole 100 fresh_heap-IsGood.heap

kfree-kmalloc_example : (s'' : Kheap) × (kfree taken 0xd1000010 ≡ done s'') × IsGood s'' whole
kfree-kmalloc_example =
    kfree-kmalloc fresh_heap taken whole 100 0xd1000010 fresh_heap-IsGood kmalloc_100 (omega arith)

kmalloc_fresh_example :
    (xs' : List Block) × (left right : List (ℕ × ℕ)) × (m : ℕ) × IsHeap taken.hdr taken.heap_head
      xs'
    × (100 ≤ m)
    × (live heap_base whole ≡ left ++ right)
    × (live heap_base xs' ≡ left ++ (0xd1000010, m) ∷ right)
    × Apart heap_base (live heap_base xs')
kmalloc_fresh_example =
    kmalloc_fresh fresh_heap taken whole 100 0xd1000010 fresh_heap-IsGood.heap kmalloc_100
      (omega arith)

kfree_live_example :
    (s' : Kheap) × (xs' : List Block) × (kfree taken 0xd1000010 ≡ done s')
    × IsHeap s'.hdr s'.heap_head xs'
    × (live heap_base xs' ≡ [] ++ [])
    × (s'.interrupts ≡ taken.interrupts)
kfree_live_example = kfree_live taken two_blocks [] [] 0xd1000010 112 taken-IsGood.heap refl

init_head-IsGood_example : IsGood (init_head blank) (block (heap_size - hdr_size) true ∷ [])
init_head-IsGood_example = init_head-IsGood blank

-- Page tables with nothing in them yet.
abbrev pub no_tables : Tables
no_tables = record { word = λ x. 0; pgdir = 0x2000; cr3 = 0x2000; window = 0x400000 }

pub no_tables-IsPaged : IsPaged roomy no_tables
no_tables-IsPaged = record {
  valid = roomy-IsValid;
  tables = record {
    aligned = refl;
    not_null = λ i l p. cc;
    off_directory = λ i l p. cc;
    apart = λ i j li lj n p q. cc;
  };
  null = roomy_bits.0;
  directory = roomy_bits.1;
  busy = λ i l p. cc;
}

kheap_init_lem_example :
    (m : Pmm × Tables) × (t : Kheap) × (kheap_init alloc_page map_page (roomy, no_tables) blank
      ≡ done (m, t))
    × Holds t []
    × IsGood t (block (heap_size - hdr_size) true ∷ [])
    × IsPaged m.0 m.1
    × ((v : ℕ)
        → heap_base ≤ v
        → v < heap_end
        → (a : ℕ) × (vmm_extract pmm_alloc m.0 m.1 v ≡ done a)
          × (0 < a / 4096)
          × (bit_test m.0 (a / 4096) ≡ 1))
    × ((u v : ℕ)
        → heap_base ≤ u
        → u < heap_end
        → heap_base ≤ v
        → v < heap_end
        → vmm_extract pmm_alloc m.0 m.1 u ≡ vmm_extract pmm_alloc m.0 m.1 v
        → u ≡ v)
    × ((v : ℕ)
        → v < 2 ^ 32
        → (v < heap_base) ⊎ (heap_end ≤ v)
        → vmm_extract pmm_alloc m.0 m.1 v ≡ vmm_extract pmm_alloc roomy no_tables v)
kheap_init_lem_example =
    kheap_init_lem roomy no_tables blank no_tables-IsPaged (omega (arith, roomy_low))
