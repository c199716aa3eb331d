-- ===== src/Kmalloc/Carve.antt =====
-- The header writes of kmalloc at the block that it takes: split it if that pays, and mark it.
use mkrn.Prelude.{
  ℕ, ◌+◌, ◌-◌, ◌%◌, ◌≤◌, ◌<◌, ◌≡◌, ap, ap₂, leb→le, sym, subst, ◌∙◌, arith, leb, if◌then◌else◌,
  Bool-cases, true, false, inl, inr, List, ◌∷◌, add32, sub32,
}
use mkrn.Kmalloc.{
  Hdr, hdr_magic, heap_base, hdr_size, heap_align, rest_addr, split, take_block, put,
}
use mkrn.Kmalloc.Tiles.{Block, block, heap_end, span, link, Tiles, Tiles-span, Tiles-ext}

-- What takes the place of a free block `x` of which `n` bytes are taken.
abbrev pub carve : ℕ → Block → List Block → List Block
carve n x zs =
    if leb (n + hdr_size + heap_align) x.size
    then block n false ∷ block (x.size - n - hdr_size) true ∷ zs
    else block x.size false ∷ zs

put_twice :
    (h : ℕ → Hdr) (q a : ℕ) (v : Hdr)
    → put (put h q v) q (record (put h q v q) { free = false }) a
      ≡ put h q (record v { free = false }) a
put_twice h q a v = ground arith

module _ (h : ℕ → Hdr) (q n : ℕ) (x : Block) (zs : List Block) where
  -- What kmalloc works under at a block: it lies in the heap, and it is large enough.
  pub record Fits : Type 0 where
    pub low : heap_base ≤ q
    pub tiles : Tiles h q (x ∷ zs)
    pub fits : n ≤ x.size
    pub aligned : n % 16 ≡ 0
    pub some_bytes : 16 ≤ n

  module _ (f : Fits) where
    ends : q + hdr_size + x.size + span zs ≡ heap_end
    ends = Tiles-span h (q + hdr_size + x.size) zs f.tiles.3

    rest_lem : rest_addr q n ≡ q + hdr_size + n
    rest_lem = omega (arith, ends, f.fits, f.low)

    test_lem :
        leb (add32 (add32 n hdr_size) heap_align) (h q).size
        ≡ leb (n + hdr_size + heap_align) x.size
    test_lem = ap₂ leb (omega (arith, ends, f.fits, f.low)) f.tiles.0.1

    size_lem :
        leb (n + hdr_size + heap_align) x.size ≡ true
        → sub32 (sub32 (h q).size n) hdr_size ≡ x.size - n - hdr_size
    size_lem big = omega (arith, ends, f.fits, f.low, leb→le _ _ big, f.tiles.0.1)

    -- The headers after a split.
    after_split : ℕ → Hdr
    after_split =
        put
          (put h (q + hdr_size + n) (record {
            magic = hdr_magic;
            size = x.size - n - hdr_size;
            free = true;
            next = (h q).next;
          }))
          q (record (h q) { size = n; next = q + hdr_size + n; free = false })

    take_block_split :
        leb (n + hdr_size + heap_align) x.size ≡ true → (a : ℕ) → take_block h q n a ≡ after_split a
    unfolding take_block split after_split
    take_block_split big a =
        rw (test_lem ∙ big, rest_lem, size_lem big) (put_twice (put h (q + hdr_size + n) _) q a _)

    take_block_whole :
        leb (n + hdr_size + heap_align) x.size ≡ false
        → (a : ℕ) → take_block h q n a ≡ put h q (record (h q) { free = false }) a
    unfolding take_block
    take_block_whole small a = rw (test_lem ∙ small)

    whole-Tiles : Tiles (put h q (record (h q) { free = false })) q (block x.size false ∷ zs)
    whole-Tiles = (
      (
        ground (arith, f.tiles.0.0),
        ground (arith, f.tiles.0.1),
        ground arith,
        ground (arith, f.tiles.0.3),
      ),
      f.tiles.1,
      f.tiles.2,
      Tiles-ext h _ (q + hdr_size + x.size) zs (λ a l. ground arith) f.tiles.3,
    )

    after_split_here :
        after_split q ≡ record (h q) { size = n; next = q + hdr_size + n; free = false }
    unfolding after_split
    after_split_here = ground arith

    after_split_rest :
        after_split (q + hdr_size + n)
        ≡ record { magic = hdr_magic; size = x.size - n - hdr_size; free = true; next = (h q).next }
    unfolding after_split
    after_split_rest = ground arith

    after_split_behind : (a : ℕ) → q + hdr_size + n < a → h a ≡ after_split a
    unfolding after_split
    after_split_behind a l = ground arith

    split-Tiles :
        leb (n + hdr_size + heap_align) x.size ≡ true
        → Tiles after_split q (block n false ∷ block (x.size - n - hdr_size) true ∷ zs)
    split-Tiles big = (
      (
        ap (λ v. v.magic) after_split_here ∙ f.tiles.0.0,
        ap (λ v. v.size) after_split_here,
        ap (λ v. v.free) after_split_here,
        ap (λ v. v.next) after_split_here,
      ),
      f.aligned,
      f.some_bytes,
      (
        (
          ap (λ v. v.magic) after_split_rest,
          ap (λ v. v.size) after_split_rest,
          ap (λ v. v.free) after_split_rest,
          ap (λ v. v.next) after_split_rest ∙ f.tiles.0.3 ∙ ap (λ k. link k zs) (sym behind),
        ),
        omega (arith, f.tiles.1, f.aligned, enough),
        omega (arith, enough),
        subst (λ k. Tiles after_split k zs) (sym behind)
            (Tiles-ext h after_split (q + hdr_size + x.size) zs
              (λ a l. after_split_behind a (omega (arith, enough))) f.tiles.3),
      ),
    )
      where
        enough : n + hdr_size + heap_align ≤ x.size
        enough = leb→le _ _ big

        behind : q + hdr_size + n + hdr_size + (x.size - n - hdr_size) ≡ q + hdr_size + x.size
        behind = omega (arith, enough)

    -- The header writes of kmalloc at the block `x` leave the carved blocks in its place.
    pub take_block-Tiles : Tiles (take_block h q n) q (carve n x zs)
    take_block-Tiles = elim (Bool-cases (leb (n + hdr_size + heap_align) x.size)) [
      | inl big ↦ rw big (
          Tiles-ext after_split (take_block h q n) q
            (block n false ∷ block (x.size - n - hdr_size) true ∷ zs)
            (λ a l. sym (take_block_split big a)) (split-Tiles big))
      | inr small ↦ rw small (
          Tiles-ext (put h q (record (h q) { free = false })) (take_block h q n) q
            (block x.size false ∷ zs) (λ a l. sym (take_block_whole small a)) whole-Tiles)
    ]

    -- They change no header before the block.
    pub take_block-before : (a : ℕ) → a < q → h a ≡ take_block h q n a
    take_block-before a l = elim (Bool-cases (leb (n + hdr_size + heap_align) x.size)) [
      | inl big ↦ before_split a l ∙ sym (take_block_split big a)
      | inr small ↦ before_whole a l ∙ sym (take_block_whole small a)
    ]
      where
        before_whole : (a : ℕ) → a < q → h a ≡ put h q (record (h q) { free = false }) a
        before_whole a l = ground arith

        before_split : (a : ℕ) → a < q → h a ≡ after_split a
        before_split a l = unfold after_split in ground arith
