-- ===== src/Kmalloc/Merge.antt =====
-- The header writes of kfree: a freed block and its two neighbours.
use mkrn.Prelude.{
  ℕ, ◌+◌, ◌≤◌, ◌<◌, ◌≡◌, ◌≢◌, refl, ap, sym, subst, ◌∙◌, arith, ◌==◌, if◌then◌else◌, if_both,
  if_pair, ◌&&◌, not, true, false, List, [], ◌∷◌, add32,
}
use mkrn.Kmalloc.{Hdr, heap_base, hdr_size, put, absorb, release_next}
use mkrn.Kmalloc.Tiles.{Block, block, heap_end, span, link, IsHdr, Tiles, Tiles-span, Tiles-ext}

put_self : (h : ℕ → Hdr) (a : ℕ) (v : Hdr) → put h a v a ≡ v
put_self h a v = ground arith

put_other : (h : ℕ → Hdr) (a x : ℕ) (v : Hdr) → x ≢ a → put h a v x ≡ h x
put_other h a x v ne = ground arith

module _ (h : ℕ → Hdr) (p c : ℕ) (y x : Block) (zs : List Block) (lo : heap_base ≤ p)
    (t : Tiles h p (y ∷ x ∷ zs)) (e : c ≡ p + hdr_size + y.size) where
  ends : p + hdr_size + y.size + hdr_size + x.size + span zs ≡ heap_end
  ends = omega (arith, Tiles-span h p (y ∷ x ∷ zs) t)

  behind-IsHdr : IsHdr h c x (link (p + hdr_size + y.size + hdr_size + x.size) zs)
  behind-IsHdr =
      subst (λ k. IsHdr h k x (link (p + hdr_size + y.size + hdr_size + x.size) zs)) (sym e) t.3.0

  sizes : add32 (h p).size (add32 hdr_size (h c).size) ≡ y.size + hdr_size + x.size
  sizes = omega (arith, t.0.1, behind-IsHdr.1, ends)

  absorbed : Hdr
  absorbed = record {
    magic = (h p).magic;
    size = add32 (h p).size (add32 hdr_size (h c).size);
    free = (h p).free;
    next = (h c).next;
  }

  absorb_here : absorb h p c p ≡ absorbed
  unfolding absorb absorbed
  absorb_here = put_other (put h p _) c p _ (omega arith) ∙ put_self h p _

  absorb_behind : (a : ℕ) → c < a → h a ≡ absorb h p c a
  unfolding absorb
  absorb_behind a l = ground arith

  pub absorb-before : (a : ℕ) → a < p → h a ≡ absorb h p c a
  unfolding absorb
  absorb-before a l = ground arith

  -- The block at `p` grows by the block at `c` behind it.
  pub absorb-Tiles : Tiles (absorb h p c) p (block (y.size + hdr_size + x.size) y.free ∷ zs)
  unfolding absorbed
  absorb-Tiles = (
    (
      ap (λ v. v.magic) absorb_here ∙ t.0.0,
      ap (λ v. v.size) absorb_here ∙ sizes,
      ap (λ v. v.free) absorb_here ∙ t.0.2,
      ap (λ v. v.next) absorb_here ∙ behind-IsHdr.3 ∙ ap (λ k. link k zs) same_end,
    ),
    omega (arith, t.1, t.3.1),
    omega arith,
    subst (λ k. Tiles (absorb h p c) k zs) same_end
        (Tiles-ext h (absorb h p c) (p + hdr_size + y.size + hdr_size + x.size) zs
          (λ a l. absorb_behind a (omega arith)) t.3.3),
  )
    where
      same_end :
          p + hdr_size + y.size + hdr_size + x.size ≡ p + hdr_size + (y.size + hdr_size + x.size)
      same_end = omega arith

-- What takes the place of a block of `n` bytes that becomes free, in front of `zs`.
abbrev pub merge_next : ℕ → List Block → List Block
merge_next n [] = block n true ∷ []
merge_next n (z ∷ zs) =
    if z.free then block (n + hdr_size + z.size) true ∷ zs else block n true ∷ z ∷ zs

module _ (h : ℕ → Hdr) (q : ℕ) (x : Block) (lo : heap_base ≤ q) where
  marked : ℕ → Hdr
  marked = put h q (record (h q) { free = true })

  marked-Tiles : (zs : List Block) → Tiles h q (x ∷ zs) → Tiles marked q (block x.size true ∷ zs)
  unfolding marked
  marked-Tiles zs t = (
    (ground (arith, t.0.0), ground (arith, t.0.1), ground arith, ground (arith, t.0.3)),
    t.1,
    t.2,
    Tiles-ext h _ (q + hdr_size + x.size) zs (λ a l. ground arith) t.3,
  )

  marked-before : (a : ℕ) → a < q → h a ≡ marked a
  unfolding marked
  marked-before a l = ground arith

  release_next_lem : release_next h q ≡ (
      if not ((marked q).next == 0) && (marked (marked q).next).free
      then absorb marked q (marked q).next
      else marked)
  unfolding release_next marked
  release_next_lem = refl

  release_next_link :
      (z : Block) (zs : List Block)
      → Tiles h q (x ∷ z ∷ zs)
      → release_next h q ≡ (if z.free then absorb marked q (q + hdr_size + x.size) else marked)
  release_next_link z zs t =
      let m : Tiles marked q (block x.size true ∷ z ∷ zs) = marked-Tiles (z ∷ zs) t in
      let pointer : (q + hdr_size + x.size == 0) ≡ false = ground arith in
      rw (release_next_lem, m.0.3, pointer, m.3.0.2)

  release_next_last : Tiles h q (x ∷ []) → release_next h q ≡ marked
  release_next_last t = rw (release_next_lem, (marked-Tiles [] t).0.3)

  -- Freeing the block at `q` and merging it with a free block behind it.
  pub release_next-Tiles :
      (zs : List Block) → Tiles h q (x ∷ zs) → Tiles (release_next h q) q (merge_next x.size zs)
  release_next-Tiles [] t = rw (release_next_last t) (marked-Tiles [] t)
  release_next-Tiles (z ∷ zs) t =
      let m : Tiles marked q (block x.size true ∷ z ∷ zs) = marked-Tiles (z ∷ zs) t in
      rw (release_next_link z zs t) (
        if_pair (λ g bs. Tiles g q bs) z.free (absorb marked q (q + hdr_size + x.size)) marked
          (block (x.size + hdr_size + z.size) true ∷ zs) (block x.size true ∷ z ∷ zs)
          (λ _. absorb-Tiles marked q (q + hdr_size + x.size) (block x.size true) z zs lo m refl)
          (λ _. m))

  pub release_next-before :
      (zs : List Block) → Tiles h q (x ∷ zs) → (a : ℕ) → a < q → h a ≡ release_next h q a
  release_next-before [] t a l = marked-before a l ∙ ap (λ g. g a) (sym (release_next_last t))
  release_next-before (z ∷ zs) t a l =
      let m : Tiles marked q (block x.size true ∷ z ∷ zs) = marked-Tiles (z ∷ zs) t in
      rw (release_next_link z zs t) (
        if_both (λ g. h a ≡ g a) z.free (absorb marked q (q + hdr_size + x.size)) marked
          (marked-before a l
            ∙ absorb-before marked q (q + hdr_size + x.size) (block x.size true) z zs lo m refl a l)
          (marked-before a l))
