-- ===== src/Kmalloc/Client.antt =====
-- The heap of subr_kmalloc.c behind the interface that its clients use.
use mkrn.Prelude.{
  ℕ, ◌+◌, ◌-◌, ◌^◌, ◌≤◌, ◌≡◌, ◌≢◌, refl, sym, subst, ◌∙◌, arith, true, inl, inr, List, [], ◌∷◌,
  ◌++◌, done,
}
use mkrn.KernelHeap.{KernelHeap, Grants, null, block}
use mkrn.Kmalloc.{
  Kheap, init_head, heap_base, heap_size, hdr_size, kmalloc, kfree, cli_save, sti_restore,
}
use mkrn.Kmalloc.Tiles.{Block, IsHeap, heap_end, Coalesced}
use mkrn.Kmalloc.Tiles
use mkrn.Kmalloc.Alloc.{kmalloc_lem}
use mkrn.Kmalloc.Good.{IsGood}
use mkrn.Kmalloc.Live.{live, Apart, kmalloc_fresh, kfree_live}

-- A sound heap with the blocks `l` in use.
pub record Holds (s : Kheap) (l : List (ℕ × ℕ)) : Type 0 where
  pub blocks : List Block
  pub heap : IsHeap s.hdr s.heap_head blocks
  pub used : live heap_base blocks ≡ l

Apart-size :
    (lo p m : ℕ) (left right : List (ℕ × ℕ))
    → heap_base ≤ lo
    → Apart lo (left ++ (p, m) ∷ right)
    → m ≤ 2 ^ 20
Apart-size lo p m [] right l a = omega (arith, ends (p + m) right a.2)
  where
    ends : (k : ℕ) (r : List (ℕ × ℕ)) → Apart k r → k ≤ heap_end
    ends k [] a = a
    ends k ((q, n) ∷ r) a = omega (arith, ends (q + n) r a.2)
Apart-size lo p m ((q, n) ∷ left) right l a = Apart-size (q + n) p m left right (omega arith) a.2

pub grants :
    (s : Kheap) (l : List (ℕ × ℕ)) (n : ℕ)
    → Holds s l
    → (r : ℕ × Kheap) × (kmalloc s n ≡ done r)
      × Grants Holds s l n r
      × (r.1.interrupts ≡ s.interrupts)
grants s l n h = elim (kmalloc_lem s h.blocks n h.heap) [
  | inl (ptr, s', e, a, i) ↦
      let nz : ptr ≢ 0 = omega (arith, a.pointer) in
      let (xs', left, right, m, heap, big, old, new, apart) =
        kmalloc_fresh s s' h.blocks n ptr h.heap e nz in
      (
        (ptr, s'),
        e,
        block left right m nz big
            (Apart-size heap_base ptr m left right (omega arith)
              (subst (Apart heap_base) new apart))
            (sym h.used ∙ old) (record { blocks = xs'; heap = heap; used = new }),
        i,
      )
  | inr (r, e) ↦ ((0, s), e, null refl refl, refl)
]

pub frees :
    (s : Kheap) (left right : List (ℕ × ℕ)) (p m : ℕ)
    → Holds s (left ++ (p, m) ∷ right)
    → (s' : Kheap) × (kfree s p ≡ done s')
      × Holds s' (left ++ right)
      × (s'.interrupts ≡ s.interrupts)
frees s left right p m h =
    let (s', xs', e, heap, used, i) = kfree_live s h.blocks left right p m h.heap h.used in
    (s', e, record { blocks = xs'; heap = heap; used = used }, i)

pub null_lem : (s : Kheap) → kfree s 0 ≡ done s
unfolding kfree
null_lem s = refl

-- The kernel heap implements the interface.
unfoldable pub kernel_heap : KernelHeap
unfolding cli_save sti_restore
kernel_heap = record {
  State = Kheap;
  Holds = Holds;
  flags = λ s. s.interrupts;
  kmalloc = kmalloc;
  kfree = kfree;
  cli_save = cli_save;
  sti_restore = sti_restore;
  kmalloc_grants = grants;
  kfree_null = null_lem;
  kfree_frees = frees;
  cli_save_flags = λ s. refl;
  cli_save_holds = λ s l h. record { blocks = h.blocks; heap = h.heap; used = h.used };
  sti_restore_flags = λ s f. refl;
  sti_restore_holds = λ s f l h. record { blocks = h.blocks; heap = h.heap; used = h.used };
}

-- The header that kheap_init writes makes a heap of one free block, with nothing in use.
pub init_head-IsGood :
    (s : Kheap) → IsGood (init_head s) (Tiles.block (heap_size - hdr_size) true ∷ [])
unfolding init_head
init_head-IsGood s = record {
  heap = record { head_base = refl; tiles = ((refl, refl, refl, refl), refl, omega arith, refl) };
  coalesced = tt;
}
