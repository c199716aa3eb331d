-- ===== src/Kmalloc/Good.antt =====
-- Heaps without two free neighbours, under kmalloc, kfree and one after the other.
use mkrn.Prelude.{
  ℕ, ◌+◌, ◌-◌, ◌≡◌, ◌≢◌, refl, ap, sym, subst, ◌∙◌, arith, leb, leb→le, if_true, if_false,
  Bool-cases, true, false, inl, inr, List, [], ◌∷◌, ◌++◌, done,
}
use mkrn.Kmalloc.{Kheap, heap_base, hdr_size, heap_align, align_up, kmalloc, kfree}
use mkrn.Kmalloc.Tiles.{Block, block, span, IsHeap, Coalesced}
use mkrn.Kmalloc.Carve.{carve}
use mkrn.Kmalloc.Merge.{merge_next}
use mkrn.Kmalloc.Alloc.{Allocated, unfit, kmalloc_lem, kmalloc_inv}
use mkrn.Kmalloc.Free.{free_between, kfree_lem}
use mkrn.Kmalloc.Coalesce.{
  Coalesced-behind, Coalesced-carve, Coalesced-merge_next, merge_next-free, Coalesced-free_between,
  free_between-busy, merge_next-busy,
}

-- The heap's blocks, and that no two free ones are neighbours.
pub record IsGood (s : Kheap) (xs : List Block) : Type 0 where
  pub heap : IsHeap s.hdr s.heap_head xs
  pub coalesced : Coalesced xs

pub unfit_free : (n : ℕ) (x : Block) → unfit n x ≡ false → x.free ≡ true
unfit_free n x e = ground arith

-- kmalloc returns without a panic and keeps a heap in which no two neighbouring blocks are free
-- such a heap, whether it hands out a block or not.
kmalloc-IsGood :
    (s : Kheap) (xs : List Block) (size : ℕ)
    → IsGood s xs
    → (ptr : ℕ) × (s' : Kheap) × (xs' : List Block) × (kmalloc s size ≡ done (ptr, s'))
      × IsGood s' xs'
kmalloc-IsGood s xs size g = elim (kmalloc_lem s xs size g.heap) [
  | inl (ptr, s', e, a, i) ↦ (
    ptr,
    s',
    a.fit.before ++ carve (align_up size) a.fit.found a.fit.behind,
    e,
    record {
      heap = a.heap;
      coalesced =
          Coalesced-carve (align_up size) a.fit.before a.fit.found a.fit.behind
            (subst Coalesced a.fit.parts g.coalesced)
            (unfit_free (align_up size) a.fit.found a.fit.serves);
    },
  )
  | inr (r, e) ↦ (0, s, xs, e, g)
]

-- kfree of a block in use returns without a panic and keeps a heap in which no two neighbouring
-- blocks are free such a heap.
kfree-IsGood :
    (s : Kheap) (ys : List Block) (x : Block) (zs : List Block)
    → IsGood s (ys ++ x ∷ zs)
    → x.free ≡ false
    → (s' : Kheap) × (xs' : List Block) × (kfree s (heap_base + span ys + hdr_size) ≡ done s')
      × IsGood s' xs'
kfree-IsGood s ys x zs g busy =
    let (s', e, heap, i) = kfree_lem s ys x zs g.heap busy in
    let (w, ws, m, f) = merge_next-free x.size zs in
    let tail : Coalesced (merge_next x.size zs) =
      Coalesced-merge_next x.size zs
        (Coalesced-behind (x ∷ []) zs (Coalesced-behind ys (x ∷ zs) g.coalesced)) in
    (
      s',
      free_between ys (merge_next x.size zs),
      e,
      record {
        heap = heap;
        coalesced =
            subst (λ bs. Coalesced (free_between ys bs)) (sym m)
              (Coalesced-free_between ys (x ∷ zs) w ws g.coalesced f (subst Coalesced m tail));
      },
    )

carve_split :
    (n : ℕ) (x : Block) (zs : List Block)
    → leb (n + hdr_size + heap_align) x.size ≡ true
    → carve n x zs ≡ block n false ∷ block (x.size - n - hdr_size) true ∷ zs
carve_split n x zs big = if_true _ _ _ big

carve_whole :
    (n : ℕ) (x : Block) (zs : List Block)
    → leb (n + hdr_size + heap_align) x.size ≡ false
    → carve n x zs ≡ block x.size false ∷ zs
carve_whole n x zs small = if_false _ _ _ small

same_block : (x : Block) (m : ℕ) → x.free ≡ true → m ≡ x.size → block m true ≡ x
same_block x m f e = ground arith

-- The carved block, and that freeing it puts the block found in its place.
module _ (n : ℕ) (ys : List Block) (x : Block) (zs : List Block) (c : Coalesced (ys ++ x ∷ zs))
    (u : unfit n x ≡ false) where
  tail : Coalesced (x ∷ zs)
  tail = Coalesced-behind ys (x ∷ zs) c

  refill :
      (m : ℕ) (ws : List Block)
      → merge_next m ws ≡ block x.size true ∷ zs
      → free_between ys (merge_next m ws) ≡ ys ++ x ∷ zs
  refill m ws e =
      ap (free_between ys) e
      ∙ free_between-busy ys x zs (block x.size true) zs c (unfit_free n x u)
      ∙ ap (λ b. ys ++ b ∷ zs) (same_block x x.size (unfit_free n x u) refl)

  carved_parts :
      (m : ℕ) × (ws : List Block) × (carve n x zs ≡ block m false ∷ ws)
      × (merge_next m ws ≡ block x.size true ∷ zs)
  carved_parts = elim (Bool-cases (leb (n + hdr_size + heap_align) x.size)) [
    | inl big ↦ (
      n,
      block (x.size - n - hdr_size) true ∷ zs,
      carve_split n x zs big,
      ap (λ k. block k true ∷ zs) (omega (arith, leb→le _ _ big)),
    )
    | inr small ↦
        (x.size, zs, carve_whole n x zs small, merge_next-busy x zs x.size tail (unfit_free n x u))
  ]

kfree-Allocated :
    (n : ℕ) (xs : List Block) (ptr : ℕ) (s' : Kheap)
    → Coalesced xs
    → Allocated n xs ptr s'
    → (s'' : Kheap) × (kfree s' ptr ≡ done s'') × IsGood s'' xs
kfree-Allocated n xs ptr s' c a =
    let ys = a.fit.before in
    let x = a.fit.found in
    let zs = a.fit.behind in
    let c' : Coalesced (ys ++ x ∷ zs) = subst Coalesced a.fit.parts c in
    let (m, ws, shape, merged) = carved_parts n ys x zs c' a.fit.serves in
    let h : IsHeap s'.hdr s'.heap_head (ys ++ block m false ∷ ws) =
      subst (λ bs. IsHeap s'.hdr s'.heap_head (ys ++ bs)) shape a.heap in
    let (s'', e, heap, i) = kfree_lem s' ys (block m false) ws h refl in
    let back : free_between ys (merge_next m ws) ≡ xs =
      refill n ys x zs c' a.fit.serves m ws merged ∙ sym a.fit.parts in
    (
      s'',
      ap (kfree s') a.pointer ∙ e,
      record { heap = subst (IsHeap s''.hdr s''.heap_head) back heap; coalesced = c },
    )

-- In a heap without two free neighbours, kfree of the pointer that kmalloc has just returned gives
-- back the very list of blocks that was there before kmalloc.
pub kfree-kmalloc :
    (s s' : Kheap) (xs : List Block) (size ptr : ℕ)
    → IsGood s xs
    → kmalloc s size ≡ done (ptr, s')
    → ptr ≢ 0
    → (s'' : Kheap) × (kfree s' ptr ≡ done s'') × IsGood s'' xs
kfree-kmalloc s s' xs size ptr g e nz =
    kfree-Allocated (align_up size) xs ptr s' g.coalesced
      (kmalloc_inv s s' xs size ptr g.heap e nz).0
