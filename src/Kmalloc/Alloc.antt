-- ===== src/Kmalloc/Alloc.antt =====
-- kmalloc on the block list: the first free block that is large enough.
use mkrn.Prelude.{
  ℕ, zero, suc, ◌+◌, ◌-◌, ◌%◌, ◌≤◌, ◌<◌, ◌≡◌, ◌≢◌, refl, ap, sym, subst, ◌∙◌, arith, ltb, ◌==◌,
  if◌then◌else◌, ◌||◌, not, Bool, Bool-cases, if_true, if_false, true, false, inl, inr, ◌⊎◌, List,
  [], ◌∷◌, ◌++◌, length, done, some, u32_mod,
}
use mkrn.Kmalloc.{
  Hdr, heap_base, heap_size, hdr_size, heap_fuel, find_fit, Kheap, kmalloc, alloc_block, align_up,
  cli_save, sti_restore, take_block,
}
use mkrn.Kmalloc.Tiles.{Block, span, link, IsHdr, Tiles, Tiles-span, Tiles-replace, Tiles-behind}
use mkrn.Kmalloc.Tiles.{span-append, span-length, IsHeap}
use mkrn.Kmalloc.Carve.{carve, Fits, take_block-Tiles, take_block-before}

-- A block that kmalloc passes over when it looks for `n` bytes.
abbrev pub unfit : ℕ → Block → Bool
unfit n x = not x.free || ltb x.size n

abbrev AllUnfit : ℕ → List Block → Type 0
AllUnfit n [] = Unit {0}
AllUnfit n (x ∷ xs) = (unfit n x ≡ true) × AllUnfit n xs

-- The first block of `xs` that serves a request for `n` bytes, with what stands on its two sides.
pub record Fit (n : ℕ) (xs : List Block) : Type 0 where
  pub before : List Block
  pub found : Block
  pub behind : List Block
  pub parts : xs ≡ before ++ found ∷ behind
  pub passed : AllUnfit n before
  pub serves : unfit n found ≡ false

find_fit_step :
    (fuel : ℕ) (h : ℕ → Hdr) (p n m : ℕ) (x : Block)
    → IsHdr h p x m
    → 0 < p
    → find_fit (suc fuel) h p n ≡ (if unfit n x then find_fit fuel h m n else some p)
unfolding find_fit
find_fit_step fuel h p n m x t lo =
    let pointer : (p == 0) ≡ false = ground arith in rw (pointer, t.1, t.2, t.3)

find_fit_lem :
    (fuel : ℕ) (h : ℕ → Hdr) (p n : ℕ) (xs : List Block)
    → Tiles h p xs
    → heap_base ≤ p
    → length xs < fuel
    → ((t : Fit n xs) × (find_fit fuel h (link p xs) n ≡ some (p + span t.before)))
      ⊎ (AllUnfit n xs × (find_fit fuel h (link p xs) n ≡ some 0))
find_fit_lem zero h p n xs t lo l = absurd (omega arith)
find_fit_lem (suc fuel) h p n [] t lo l = inr (tt, unfold find_fit in refl)
find_fit_lem (suc fuel) h p n (x ∷ xs) t lo l = elim (Bool-cases (unfit n x)) [
  | inl u ↦
      elim (find_fit_lem fuel h (p + hdr_size + x.size) n xs t.3 (omega arith) (omega arith)) [
        | inl (f, e) ↦ inl (
          record {
            before = x ∷ f.before;
            found = f.found;
            behind = f.behind;
            parts = ap (◌∷◌ x) f.parts;
            passed = (u, f.passed);
            serves = f.serves;
          },
          find_fit_step fuel h p n _ x t.0 (omega arith)
              ∙ if_true (unfit n x) _ _ u
              ∙ e
              ∙ ap some (omega arith),
        )
        | inr (f, e) ↦
            inr (
              (u, f),
              find_fit_step fuel h p n _ x t.0 (omega arith) ∙ if_true (unfit n x) _ _ u ∙ e,
            )
      ]
  | inr u ↦ inl (
    record { before = []; found = x; behind = xs; parts = refl; passed = tt; serves = u },
    find_fit_step fuel h p n _ x t.0 (omega arith)
        ∙ if_false (unfit n x) _ _ u
        ∙ ap some (omega arith),
  )
]

-- What kmalloc has done to the blocks when it hands out `n` bytes at `ptr`.
pub record Allocated (n : ℕ) (xs : List Block) (ptr : ℕ) (s' : Kheap) : Type 0 where
  pub fit : Fit n xs
  pub pointer : ptr ≡ heap_base + span fit.before + hdr_size
  pub heap : IsHeap s'.hdr s'.heap_head (fit.before ++ carve n fit.found fit.behind)

module _ (s : Kheap) (xs : List Block) (v : IsHeap s.hdr s.heap_head xs) (n : ℕ) where
  starts : s.heap_head ≡ link heap_base xs
  starts = v.head_base ∙ nonempty xs v.tiles
    where
      nonempty : (ys : List Block) → Tiles s.hdr heap_base ys → heap_base ≡ link heap_base ys
      nonempty [] t = absurd (omega arith)
      nonempty (y ∷ ys) t = refl

  search :
      ((t : Fit n xs) × (find_fit heap_fuel s.hdr s.heap_head n ≡ some (heap_base + span t.before)))
      ⊎ (AllUnfit n xs × (find_fit heap_fuel s.hdr s.heap_head n ≡ some 0))
  search = rw starts (
      find_fit_lem heap_fuel s.hdr heap_base n xs v.tiles (omega arith) (
        unfold heap_fuel in
        omega
          (arith, span-length s.hdr heap_base xs v.tiles, Tiles-span s.hdr heap_base xs v.tiles)))

  module _ (al : n % 16 ≡ 0) (pos : 16 ≤ n) (t : Fit n xs) where
    place : ℕ
    place = heap_base + span t.before

    fits_here : Fits s.hdr place n t.found t.behind
    fits_here = record {
      low = unfold place in omega arith;
      tiles =
          Tiles-behind s.hdr heap_base place t.before (t.found ∷ t.behind) (unfold place in refl)
            (subst (Tiles s.hdr heap_base) t.parts v.tiles);
      fits = ground (arith, t.serves);
      aligned = al;
      some_bytes = pos;
    }

    carved : Tiles (take_block s.hdr place n) heap_base (t.before ++ carve n t.found t.behind)
    carved =
        Tiles-replace s.hdr (take_block s.hdr place n) heap_base place t.before (t.found ∷ t.behind)
          (carve n t.found t.behind) (unfold place in refl)
          (take_block-before s.hdr place n t.found t.behind fits_here) (ground arith)
          (take_block-Tiles s.hdr place n t.found t.behind fits_here)
          (subst (Tiles s.hdr heap_base) t.parts v.tiles)

  alloc_block_lem :
      n % 16 ≡ 0
      → 16 ≤ n
      → ((ptr : ℕ) × (s' : Kheap) × (alloc_block s n ≡ done (ptr, s'))
          × Allocated n xs ptr s'
          × (s'.interrupts ≡ s.interrupts))
        ⊎ (AllUnfit n xs × (alloc_block s n ≡ done (0, s)))
  unfolding alloc_block
  alloc_block_lem al pos = elim search [
    | inl (t, e) ↦ inl (
      heap_base + span t.before + hdr_size,
      record s { hdr = take_block s.hdr (heap_base + span t.before) n },
      rw (e, alloc_block) (ground (arith, room t)),
      record {
        fit = t;
        pointer = refl;
        heap = record { head_base = v.head_base; tiles = unfold place in carved al pos t };
      },
      refl,
    )
    | inr (u, e) ↦ inr (u, rw (e, alloc_block))
  ]
    where
      room : (t : Fit n xs) → heap_base + span t.before + hdr_size < u32_mod
      room t = omega (
        arith,
        Tiles-span s.hdr heap_base (t.before ++ t.found ∷ t.behind)
            (subst (Tiles s.hdr heap_base) t.parts v.tiles),
        span-append t.before (t.found ∷ t.behind),
      )

-- Why kmalloc returns NULL.
abbrev pub Refuses : ℕ → List Block → Type 0
Refuses size xs = (size ≡ 0) ⊎ (heap_size - hdr_size < size) ⊎ AllUnfit (align_up size) xs

-- On a heap that its headers tile, kmalloc always returns. It either hands out the block that
-- starts behind the first free block header with room for the request, rounded up to 16 bytes,
-- and leaves a heap in which that block is carved and all others are as they were; or it returns
-- NULL and the state as it was, because the size is 0 or above the heap's, or because no free
-- block is large enough. The interrupt flag is as before the call in both cases.
pub kmalloc_lem :
    (s : Kheap) (xs : List Block) (size : ℕ)
    → IsHeap s.hdr s.heap_head xs
    → ((ptr : ℕ) × (s' : Kheap) × (kmalloc s size ≡ done (ptr, s'))
        × Allocated (align_up size) xs ptr s'
        × (s'.interrupts ≡ s.interrupts))
      ⊎ (Refuses size xs × (kmalloc s size ≡ done (0, s)))
unfolding kmalloc cli_save sti_restore
kmalloc_lem s xs size v = elim (Bool-cases (size == 0)) [
  | inl z ↦ inr (inl (ground arith), rw z)
  | inr z ↦ elim (Bool-cases (ltb (heap_size - hdr_size) size)) [
    | inl big ↦ inr (inr (inl (ground arith)), rw (z, big))
    | inr small ↦
        elim (alloc_block_lem (record s { interrupts = false }) xs v (align_up size) (omega arith)
          (ground arith)) [
            | inl (ptr, s', e, al, i) ↦ inl (
              ptr,
              record s' { interrupts = s.interrupts },
              rw (z, small, e),
              record { fit = al.fit; pointer = al.pointer; heap = al.heap },
              refl,
            )
            | inr (u, e) ↦ inr (inr (inr u), rw (z, small, e))
          ]
  ]
]

done_inj {ℓ} : {A : Type ℓ} (a b : A) → done a ≡ done b → a ≡ b
done_inj a b e = cc

kmalloc_small :
    (s s' : Kheap) (size ptr : ℕ)
    → kmalloc s size ≡ done (ptr, s')
    → ptr ≢ 0
    → size ≤ heap_size - hdr_size
unfolding kmalloc
kmalloc_small s s' size ptr e nz = elim (Bool-cases (ltb (heap_size - hdr_size) size)) [
  | inl big ↦
      let z : (size == 0) ≡ false = ground arith in
      let null : done (0, s) ≡ done (ptr, s') = rw (z, big) at e in
      absurd (nz (ap (λ (r : ℕ × Kheap). r.0) (sym (done_inj _ _ null))))
  | inr small ↦ ground arith
]

-- What a pointer other than NULL from kmalloc says.
pub kmalloc_inv :
    (s s' : Kheap) (xs : List Block) (size ptr : ℕ)
    → IsHeap s.hdr s.heap_head xs
    → kmalloc s size ≡ done (ptr, s')
    → ptr ≢ 0
    → Allocated (align_up size) xs ptr s' × (size ≤ align_up size)
kmalloc_inv s s' xs size ptr v e nz = elim (kmalloc_lem s xs size v) [
  | inl (ptr', t, e', a, i) ↦
      let same : ◌≡◌ {A = ℕ × Kheap} (ptr', t) (ptr, s') = done_inj _ _ (sym e' ∙ e) in
      (
        subst (λ (r : ℕ × Kheap). Allocated (align_up size) xs r.0 r.1) same a,
        omega (arith, kmalloc_small s s' size ptr e nz),
      )
  | inr (r, e') ↦
      let same : ◌≡◌ {A = ℕ × Kheap} (0, s) (ptr, s') = done_inj _ _ (sym e' ∙ e) in
      absurd (nz (ap (λ (r : ℕ × Kheap). r.0) (sym same)))
]
