-- ===== src/Kmalloc/Coalesce.antt =====
-- Block lists without two free neighbours, under the changes that kmalloc and kfree make.
use mkrn.Prelude.{
  ℕ, ◌+◌, ◌-◌, ◌≡◌, refl, ap, sym, subst, arith, leb, if_true, if_false, Bool-cases, true, false,
  inl, inr, List, [], ◌∷◌, ◌++◌,
}
use mkrn.Kmalloc.{hdr_size, heap_align}
use mkrn.Kmalloc.Tiles.{Block, block, Coalesced}
use mkrn.Kmalloc.Carve.{carve}
use mkrn.Kmalloc.Merge.{merge_next}
use mkrn.Kmalloc.Free.{free_between}

pub Coalesced-behind : (ys xs : List Block) → Coalesced (ys ++ xs) → Coalesced xs
Coalesced-behind [] xs c = c
Coalesced-behind (y ∷ []) [] c = tt
Coalesced-behind (y ∷ []) (x ∷ xs) c = c.1
Coalesced-behind (y ∷ y' ∷ ys) xs c = Coalesced-behind (y' ∷ ys) xs c.1

-- In front of a free block nothing merges.
pub free_between-busy :
    (ys : List Block) (x : Block) (zs : List Block) (w : Block) (ws : List Block)
    → Coalesced (ys ++ x ∷ zs)
    → x.free ≡ true
    → free_between ys (w ∷ ws) ≡ ys ++ w ∷ ws
free_between-busy [] x zs w ws c f = refl
free_between-busy (y ∷ []) x zs w ws c f = ground (arith, c.0)
free_between-busy (y ∷ y' ∷ ys) x zs w ws c f =
    ap (◌∷◌ y) (free_between-busy (y' ∷ ys) x zs w ws c.1 f)

-- Nor behind one.
pub merge_next-busy :
    (x : Block) (zs : List Block) (n : ℕ)
    → Coalesced (x ∷ zs)
    → x.free ≡ true
    → merge_next n zs ≡ block n true ∷ zs
merge_next-busy x [] n c f = refl
merge_next-busy x (z ∷ zs) n c f = ground (arith, c.0)

-- A busy block in the place of another keeps the heap coalesced, with whatever follows it.
Coalesced-put :
    (ys : List Block) (x : Block) (xs : List Block) (w : Block) (ws : List Block)
    → Coalesced (ys ++ x ∷ xs)
    → w.free ≡ false
    → Coalesced (w ∷ ws)
    → Coalesced (ys ++ w ∷ ws)
Coalesced-put [] x xs w ws c f d = d
Coalesced-put (y ∷ []) x xs w ws c f d = (ground arith, d)
Coalesced-put (y ∷ y' ∷ ys) x xs w ws c f d = (c.0, Coalesced-put (y' ∷ ys) x xs w ws c.1 f d)

Coalesced-busy : (w : Block) (ws : List Block) → w.free ≡ false → Coalesced ws → Coalesced (w ∷ ws)
Coalesced-busy w [] f d = tt
Coalesced-busy w (x ∷ ws) f d = (ground arith, d)

Coalesced-same :
    (x w : Block) (zs : List Block) → x.free ≡ w.free → Coalesced (x ∷ zs) → Coalesced (w ∷ zs)
Coalesced-same x w [] e c = tt
Coalesced-same x w (z ∷ zs) e c = (ground (arith, c.0), c.1)

pub Coalesced-carve :
    (n : ℕ) (ys : List Block) (x : Block) (zs : List Block)
    → Coalesced (ys ++ x ∷ zs)
    → x.free ≡ true
    → Coalesced (ys ++ carve n x zs)
Coalesced-carve n ys x zs c f =
    let tail : Coalesced (x ∷ zs) = Coalesced-behind ys (x ∷ zs) c in
    let rest : List Block = block (x.size - n - hdr_size) true ∷ zs in
    elim (Bool-cases (leb (n + hdr_size + heap_align) x.size)) [
      | inl big ↦ rw big (
          Coalesced-put ys x zs (block n false) rest c refl (
            Coalesced-busy (block n false) rest refl
              (Coalesced-same x (block (x.size - n - hdr_size) true) zs f tail)))
      | inr small ↦ rw small (
          Coalesced-put ys x zs (block x.size false) zs c refl
            (Coalesced-busy (block x.size false) zs refl (Coalesced-behind (x ∷ []) zs tail)))
    ]

pub Coalesced-merge_next : (n : ℕ) (zs : List Block) → Coalesced zs → Coalesced (merge_next n zs)
Coalesced-merge_next n [] c = tt
Coalesced-merge_next n (z ∷ zs) c = elim (Bool-cases z.free) [
  | inl f ↦
      subst Coalesced (sym (if_true z.free _ _ f))
        (Coalesced-same z (block (n + hdr_size + z.size) true) zs f c)
  | inr f ↦ subst Coalesced (sym (if_false z.free _ _ f)) (ground arith, c)
]

pub merge_next-free :
    (n : ℕ) (zs : List Block)
    → (w : Block) × (ws : List Block) × (merge_next n zs ≡ w ∷ ws) × (w.free ≡ true)
merge_next-free n [] = (block n true, [], refl, refl)
merge_next-free n (z ∷ zs) = elim (Bool-cases z.free) [
  | inl f ↦ (block (n + hdr_size + z.size) true, zs, if_true z.free _ _ f, refl)
  | inr f ↦ (block n true, z ∷ zs, if_false z.free _ _ f, refl)
]

-- Merging to the left, the list keeps the flag of its first block.
free_between-first :
    (y : Block) (ys : List Block) (w : Block) (ws : List Block)
    → (u : Block) × (us : List Block) × (free_between (y ∷ ys) (w ∷ ws) ≡ u ∷ us)
      × (u.free ≡ y.free)
free_between-first y [] w ws = elim (Bool-cases y.free) [
  | inl f ↦ (block (y.size + hdr_size + w.size) true, ws, if_true y.free _ _ f, sym f)
  | inr f ↦ (y, w ∷ ws, if_false y.free _ _ f, refl)
]
free_between-first y (y' ∷ ys) w ws = (y, free_between (y' ∷ ys) (w ∷ ws), refl, refl)

pub Coalesced-free_between :
    (ys : List Block) (xs : List Block) (w : Block) (ws : List Block)
    → Coalesced (ys ++ xs)
    → w.free ≡ true
    → Coalesced (w ∷ ws)
    → Coalesced (free_between ys (w ∷ ws))
Coalesced-free_between [] xs w ws c f d = d
Coalesced-free_between (y ∷ []) xs w ws c f d = elim (Bool-cases y.free) [
  | inl g ↦
      subst Coalesced (sym (if_true y.free _ _ g))
        (Coalesced-same w (block (y.size + hdr_size + w.size) true) ws f d)
  | inr g ↦ subst Coalesced (sym (if_false y.free _ _ g)) (Coalesced-busy y (w ∷ ws) g d)
]
Coalesced-free_between (y ∷ y' ∷ ys) xs w ws c f d =
    let (u, us, e, same) = free_between-first y' ys w ws in
    let rest : Coalesced (u ∷ us) =
      subst Coalesced e (Coalesced-free_between (y' ∷ ys) xs w ws c.1 f d) in
    subst (λ bs. Coalesced (y ∷ bs)) (sym e) (ground (arith, c.0), rest)
