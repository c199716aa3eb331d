-- ===== src/Kmalloc/Live.antt =====
-- What the users of the heap see: the blocks in use, as pairs of a pointer and a size.
use mkrn.Prelude.{
  ℕ, ◌+◌, ◌-◌, ◌%◌, ◌≤◌, ◌≡◌, ◌≢◌, refl, ap, ap₂, sym, subst, ◌∙◌, arith, leb, leb→le,
  if◌then◌else◌, if_true, if_false, Bool-cases, true, false, inl, inr, List, [], ◌∷◌, ◌++◌, done,
}
use mkrn.Kmalloc.{Hdr, Kheap, heap_base, hdr_size, heap_align, align_up, kmalloc, kfree}
use mkrn.Kmalloc.Tiles.{Block, span, heap_end, Tiles, IsHeap}
use mkrn.Kmalloc.Carve.{carve}
use mkrn.Kmalloc.Merge.{merge_next}
use mkrn.Kmalloc.Alloc.{kmalloc_inv}
use mkrn.Kmalloc.Free.{free_between, kfree_lem}
use mkrn.Kmalloc.Coalesce.{merge_next-free}

abbrev pub live : ℕ → List Block → List (ℕ × ℕ)
live p [] = []
live p (x ∷ xs) =
    if x.free
    then live (p + hdr_size + x.size) xs
    else (p + hdr_size, x.size) ∷ live (p + hdr_size + x.size) xs

-- Ranges of bytes from `lo` on: at multiples of 16, in order, none reaching into the next or past
-- the end of the heap.
abbrev pub Apart : ℕ → List (ℕ × ℕ) → Type 0
Apart lo [] = lo ≤ heap_end
Apart lo ((a, n) ∷ r) = (lo ≤ a) × (a % 16 ≡ 0) × Apart (a + n) r

Apart-mono : (lo lo' : ℕ) (r : List (ℕ × ℕ)) → lo' ≤ lo → Apart lo r → Apart lo' r
Apart-mono lo lo' [] l a = omega arith
Apart-mono lo lo' ((b, n) ∷ r) l a = (omega (arith, a.0), a.1, a.2)

live-Apart :
    (h : ℕ → Hdr) (p : ℕ) (xs : List Block) → p % 16 ≡ 0 → Tiles h p xs → Apart p (live p xs)
live-Apart h p [] al t = omega arith
live-Apart h p (x ∷ xs) al t =
    let rest : Apart (p + hdr_size + x.size) (live (p + hdr_size + x.size) xs) =
      live-Apart h (p + hdr_size + x.size) xs (omega (arith, t.1)) t.3 in
    elim (Bool-cases x.free) [
      | inl f ↦
          subst (Apart p) (sym (if_true x.free _ _ f))
            (Apart-mono (p + hdr_size + x.size) p _ (omega arith) rest)
      | inr f ↦ subst (Apart p) (sym (if_false x.free _ _ f)) (omega arith, omega arith, rest)
    ]

live-append :
    (p q : ℕ) (ys xs : List Block) → p + span ys ≡ q → live p (ys ++ xs) ≡ live p ys ++ live q xs
live-append p q [] xs e = ap (λ k. live k xs) {x = p} {y = q} (omega arith)
live-append p q (y ∷ ys) xs e =
    let rest = live-append (p + hdr_size + y.size) q ys xs (omega arith) in
    elim (Bool-cases y.free) [
      | inl f ↦ rw f rest
      | inr f ↦ rw f (ap (◌∷◌ (p + hdr_size, y.size)) rest)
    ]

live_free :
    (q : ℕ) (x : Block) (zs : List Block)
    → x.free ≡ true
    → live q (x ∷ zs) ≡ live (q + hdr_size + x.size) zs
live_free q x zs f = if_true x.free _ _ f

-- A carved block is the only one in use that a free block is turned into.
live-carve :
    (q n : ℕ) (x : Block) (zs : List Block)
    → n ≤ x.size
    → (m : ℕ) × (n ≤ m)
      × (live q (carve n x zs) ≡ (q + hdr_size, m) ∷ live (q + hdr_size + x.size) zs)
live-carve q n x zs l = elim (Bool-cases (leb (n + hdr_size + heap_align) x.size)) [
  | inl big ↦ (
    n,
    omega arith,
    ap (live q) (if_true _ _ _ big)
        ∙ ap (λ k. (q + hdr_size, n) ∷ live k zs)
            {x = q + hdr_size + n + hdr_size + (x.size - n - hdr_size)} {y = q + hdr_size + x.size}
            (omega (arith, leb→le _ _ big)),
  )
  | inr small ↦ (x.size, l, ap (live q) (if_false _ _ _ small))
]

-- The blocks in use of a heap lie apart from one another, at multiples of 16, within the heap.
IsHeap-Apart :
    (h : ℕ → Hdr) (head : ℕ) (xs : List Block)
    → IsHeap h head xs
    → Apart heap_base (live heap_base xs)
IsHeap-Apart h head xs v = live-Apart h heap_base xs (omega arith) v.tiles

-- On a heap that its headers tile, a pointer from kmalloc other than NULL is that of a new block
-- in use of at least the size asked for: the blocks in use before the call are in use after it,
-- unchanged and in the same order, and all of them, the new one included, lie apart from one
-- another within the heap.
pub kmalloc_fresh :
    (s s' : Kheap) (xs : List Block) (size ptr : ℕ)
    → IsHeap s.hdr s.heap_head xs
    → kmalloc s size ≡ done (ptr, s')
    → ptr ≢ 0
    → (xs' : List Block) × (left right : List (ℕ × ℕ)) × (m : ℕ) × IsHeap s'.hdr s'.heap_head xs'
      × (size ≤ m)
      × (live heap_base xs ≡ left ++ right)
      × (live heap_base xs' ≡ left ++ (ptr, m) ∷ right)
      × Apart heap_base (live heap_base xs')
kmalloc_fresh s s' xs size ptr v e nz =
    let (a, room) = kmalloc_inv s s' xs size ptr v e nz in
    let n : ℕ = align_up size in
    let q : ℕ = heap_base + span a.fit.before in
    let (m, big, new) = live-carve q n a.fit.found a.fit.behind (ground (arith, a.fit.serves)) in
    let xs' : List Block = a.fit.before ++ carve n a.fit.found a.fit.behind in
    let left : List (ℕ × ℕ) = live heap_base a.fit.before in
    let right : List (ℕ × ℕ) = live (q + hdr_size + a.fit.found.size) a.fit.behind in
    (
      xs',
      left,
      right,
      m,
      a.heap,
      omega arith,
      ap (live heap_base) a.fit.parts
          ∙ live-append heap_base q a.fit.before (a.fit.found ∷ a.fit.behind) refl
          ∙ ap (◌++◌ left) (live_free q a.fit.found a.fit.behind (ground (arith, a.fit.serves))),
      live-append heap_base q a.fit.before (carve n a.fit.found a.fit.behind) refl
          ∙ ap (◌++◌ left) new
          ∙ ap (λ k. left ++ (k, m) ∷ right) (sym a.pointer),
      IsHeap-Apart s'.hdr s'.heap_head xs' a.heap,
    )

live-merge_next :
    (q n : ℕ) (zs : List Block) → live q (merge_next n zs) ≡ live (q + hdr_size + n) zs
live-merge_next q n [] = refl
live-merge_next q n (z ∷ zs) = elim (Bool-cases z.free) [
  | inl f ↦
      ap (live q) (if_true z.free _ _ f)
      ∙ ap (λ k. live k zs) {x = q + hdr_size + (n + hdr_size + z.size)}
          {y = q + hdr_size + n + hdr_size + z.size} (omega arith)
      ∙ sym (live_free (q + hdr_size + n) z zs f)
  | inr f ↦ ap (live q) (if_false z.free _ _ f)
]

live-free_between :
    (p : ℕ) (ys : List Block) (w : Block) (ws : List Block)
    → w.free ≡ true
    → live p (free_between ys (w ∷ ws)) ≡ live p (ys ++ w ∷ ws)
live-free_between p [] w ws f = refl
live-free_between p (y ∷ []) w ws f = elim (Bool-cases y.free) [
  | inl g ↦
      ap (live p) (if_true y.free _ _ g)
      ∙ ap (λ k. live k ws) {x = p + hdr_size + (y.size + hdr_size + w.size)}
          {y = p + hdr_size + y.size + hdr_size + w.size} (omega arith)
      ∙ sym (live_free (p + hdr_size + y.size) w ws f)
      ∙ sym (live_free p y (w ∷ ws) g)
  | inr g ↦ ap (live p) (if_false y.free _ _ g)
]
live-free_between p (y ∷ y' ∷ ys) w ws f =
    ap (λ r. if y.free then r else (p + hdr_size, y.size) ∷ r)
      (live-free_between (p + hdr_size + y.size) (y' ∷ ys) w ws f)

-- Where a block in use stands.
record Place (p : ℕ) (xs : List Block) (left right : List (ℕ × ℕ)) (ptr m : ℕ) : Type 0 where
  before : List Block
  found : Block
  behind : List Block
  parts : xs ≡ before ++ found ∷ behind
  busy : found.free ≡ false
  pointer : ptr ≡ p + span before + hdr_size
  on_left : live p before ≡ left
  on_right : live (p + span before + hdr_size + found.size) behind ≡ right

-- A block in front of the place, in use or not.
behind_free :
    (p : ℕ) (x : Block) (xs : List Block) (left right : List (ℕ × ℕ)) (ptr m : ℕ)
    → x.free ≡ true
    → Place (p + hdr_size + x.size) xs left right ptr m
    → Place p (x ∷ xs) left right ptr m
behind_free p x xs left right ptr m f a = record {
  before = x ∷ a.before;
  found = a.found;
  behind = a.behind;
  parts = ap (◌∷◌ x) a.parts;
  busy = a.busy;
  pointer = omega (arith, a.pointer);
  on_left = if_true x.free _ _ f ∙ a.on_left;
  on_right = ap (λ k. live k a.behind) (omega arith) ∙ a.on_right;
}

behind_busy :
    (p : ℕ) (x : Block) (xs : List Block) (left right : List (ℕ × ℕ)) (ptr m : ℕ)
    → x.free ≡ false
    → Place (p + hdr_size + x.size) xs left right ptr m
    → Place p (x ∷ xs) ((p + hdr_size, x.size) ∷ left) right ptr m
behind_busy p x xs left right ptr m f a = record {
  before = x ∷ a.before;
  found = a.found;
  behind = a.behind;
  parts = ap (◌∷◌ x) a.parts;
  busy = a.busy;
  pointer = omega (arith, a.pointer);
  on_left = if_false x.free _ _ f ∙ ap (◌∷◌ (p + hdr_size, x.size)) a.on_left;
  on_right = ap (λ k. live k a.behind) (omega arith) ∙ a.on_right;
}

cons_inj {ℓ} : {A : Type ℓ} (a b : A) (xs ys : List A) → a ∷ xs ≡ b ∷ ys → (a ≡ b) × (xs ≡ ys)
cons_inj a b xs ys e = (cc, cc)

place :
    (p : ℕ) (xs : List Block) (left right : List (ℕ × ℕ)) (ptr m : ℕ)
    → live p xs ≡ left ++ (ptr, m) ∷ right
    → Place p xs left right ptr m
place p [] [] right ptr m e = cc
place p [] (l ∷ left) right ptr m e = cc
place p (x ∷ xs) [] right ptr m e = elim (Bool-cases x.free) [
  | inl f ↦
      behind_free p x xs [] right ptr m f
        (place (p + hdr_size + x.size) xs [] right ptr m (sym (if_true x.free _ _ f) ∙ e))
  | inr f ↦
      let (head, rest) = cons_inj _ _ _ _ (sym (if_false x.free _ _ f) ∙ e) in
      record {
        before = [];
        found = x;
        behind = xs;
        parts = refl;
        busy = f;
        pointer = ap (λ (r : ℕ × ℕ). r.0) (sym head) ∙ omega arith;
        on_left = refl;
        on_right = ap (λ k. live k xs) (omega arith) ∙ rest;
      }
]
place p (x ∷ xs) (l ∷ left) right ptr m e = elim (Bool-cases x.free) [
  | inl f ↦
      behind_free p x xs (l ∷ left) right ptr m f
        (place (p + hdr_size + x.size) xs (l ∷ left) right ptr m (sym (if_true x.free _ _ f) ∙ e))
  | inr f ↦
      let (head, rest) = cons_inj _ _ _ _ (sym (if_false x.free _ _ f) ∙ e) in
      subst (λ k. Place p (x ∷ xs) (k ∷ left) right ptr m) head
        (behind_busy p x xs left right ptr m f
          (place (p + hdr_size + x.size) xs left right ptr m rest))
]

-- On a heap that its headers tile, kfree of the pointer of a block in use returns without a
-- panic; the heap is tiled after it, and the blocks in use are those before it without that one,
-- in the same order. The interrupt flag is as before the call.
pub kfree_live :
    (s : Kheap) (xs : List Block) (left right : List (ℕ × ℕ)) (ptr m : ℕ)
    → IsHeap s.hdr s.heap_head xs
    → live heap_base xs ≡ left ++ (ptr, m) ∷ right
    → (s' : Kheap) × (xs' : List Block) × (kfree s ptr ≡ done s')
      × IsHeap s'.hdr s'.heap_head xs'
      × (live heap_base xs' ≡ left ++ right)
      × (s'.interrupts ≡ s.interrupts)
kfree_live s xs left right ptr m v e =
    let a = place heap_base xs left right ptr m e in
    let (s', r, heap, i) =
      kfree_lem s a.before a.found a.behind (subst (IsHeap s.hdr s.heap_head) a.parts v) a.busy in
    let (w, ws, shape, f) = merge_next-free a.found.size a.behind in
    let q : ℕ = heap_base + span a.before in
    (
      s',
      free_between a.before (merge_next a.found.size a.behind),
      ap (kfree s) a.pointer ∙ r,
      heap,
      ap (λ bs. live heap_base (free_between a.before bs)) shape
          ∙ live-free_between heap_base a.before w ws f
          ∙ ap (λ bs. live heap_base (a.before ++ bs)) (sym shape)
          ∙ live-append heap_base q a.before (merge_next a.found.size a.behind) refl
          ∙ ap₂ ◌++◌ a.on_left (live-merge_next q a.found.size a.behind ∙ a.on_right),
      i,
    )
