-- ===== src/Kmalloc/Tiles.antt =====
-- The block list that a heap stands for: from heap_base on, headers and blocks tile the heap.
use mkrn.Prelude.{
  ℕ, ◌+◌, ◌*◌, ◌%◌, ◌≤◌, ◌<◌, ◌≡◌, refl, subst, arith, ◌&&◌, Bool, false, List, [], ◌∷◌, ◌++◌,
  length,
}
use mkrn.Kmalloc.{Hdr, hdr_magic, heap_base, heap_size, hdr_size}

pub record Block : Type 0 where
  pub size : ℕ
  pub free : Bool

abbrev pub block : ℕ → Bool → Block
block n f = record { size = n; free = f }

abbrev pub heap_end : ℕ
heap_end = heap_base + heap_size

-- The bytes that blocks take, with their headers.
abbrev pub span : List Block → ℕ
span [] = 0
span (x ∷ xs) = hdr_size + x.size + span xs

pub span-append : (xs ys : List Block) → span (xs ++ ys) ≡ span xs + span ys
span-append [] ys = omega arith
span-append (x ∷ xs) ys = omega (arith, span-append xs ys)

-- The `next` field in front of the blocks `xs`, which start at `p`.
abbrev pub link : ℕ → List Block → ℕ
link p [] = 0
link p (x ∷ xs) = p

-- The header at `p` describes the block `x`, with `n` the next header.
abbrev pub IsHdr : (ℕ → Hdr) → ℕ → Block → ℕ → Type 0
IsHdr h p x n =
    ((h p).magic ≡ hdr_magic) × ((h p).size ≡ x.size) × ((h p).free ≡ x.free) × ((h p).next ≡ n)

abbrev pub Tiles : (ℕ → Hdr) → ℕ → List Block → Type 0
Tiles h p [] = p ≡ heap_end
Tiles h p (x ∷ xs) =
    IsHdr h p x (link (p + hdr_size + x.size) xs)
    × (x.size % 16 ≡ 0)
    × (16 ≤ x.size)
    × Tiles h (p + hdr_size + x.size) xs

pub Tiles-span : (h : ℕ → Hdr) (p : ℕ) (xs : List Block) → Tiles h p xs → p + span xs ≡ heap_end
Tiles-span h p [] t = omega arith
Tiles-span h p (x ∷ xs) t = omega (arith, Tiles-span h (p + hdr_size + x.size) xs t.3)

-- A heap has room for few blocks.
pub span-length : (h : ℕ → Hdr) (p : ℕ) (xs : List Block) → Tiles h p xs → 32 * length xs ≤ span xs
span-length h p [] t = omega arith
span-length h p (x ∷ xs) t = omega (arith, span-length h (p + hdr_size + x.size) xs t.3)

pub IsHdr-ext :
    (h g : ℕ → Hdr) (p : ℕ) (x : Block) (n : ℕ) → h p ≡ g p → IsHdr h p x n → IsHdr g p x n
IsHdr-ext h g p x n e (a, b, c, d) = (cc, cc, cc, cc)

-- What stands from `p` on depends on the headers from `p` on.
pub Tiles-ext :
    (h g : ℕ → Hdr) (p : ℕ) (xs : List Block)
    → ((a : ℕ) → p ≤ a → h a ≡ g a)
    → Tiles h p xs
    → Tiles g p xs
Tiles-ext h g p [] same t = t
Tiles-ext h g p (x ∷ xs) same t = (
  IsHdr-ext h g p x _ (same p (omega arith)) t.0,
  t.1,
  t.2,
  Tiles-ext h g (p + hdr_size + x.size) xs (λ a l. same a (omega arith)) t.3,
)

-- The blocks behind `ys`.
pub Tiles-behind :
    (h : ℕ → Hdr) (p q : ℕ) (ys xs : List Block)
    → p + span ys ≡ q
    → Tiles h p (ys ++ xs)
    → Tiles h q xs
Tiles-behind h p q [] xs e t = subst (λ k. Tiles h k xs) {x = p} {y = q} (omega arith) t
Tiles-behind h p q (y ∷ ys) xs e t =
    Tiles-behind h (p + hdr_size + y.size) q ys xs (omega arith) t.3

link-append :
    (p q : ℕ) (ys xs xs' : List Block)
    → p + span ys ≡ q
    → link q xs ≡ link q xs'
    → link p (ys ++ xs) ≡ link p (ys ++ xs')
link-append p q [] xs xs' e l = subst (λ k. link k xs ≡ link k xs') {x = q} {y = p} (omega arith) l
link-append p q (y ∷ ys) xs xs' e l = refl

-- A change at or behind `q` puts the blocks `xs'` in place of `xs` there, and keeps those before.
pub Tiles-replace :
    (h g : ℕ → Hdr) (p q : ℕ) (ys xs xs' : List Block)
    → p + span ys ≡ q
    → ((a : ℕ) → a < q → h a ≡ g a)
    → link q xs ≡ link q xs'
    → Tiles g q xs'
    → Tiles h p (ys ++ xs)
    → Tiles g p (ys ++ xs')
Tiles-replace h g p q [] xs xs' e same l t' t =
    subst (λ k. Tiles g k xs') {x = q} {y = p} (omega arith) t'
Tiles-replace h g p q (y ∷ ys) xs xs' e same l t' t = (
  IsHdr-ext h g p y _ (same p (omega arith))
      (subst (IsHdr h p y) (link-append (p + hdr_size + y.size) q ys xs xs' (omega arith) l) t.0),
  t.1,
  t.2,
  Tiles-replace h g (p + hdr_size + y.size) q ys xs xs' (omega arith) same l t' t.3,
)

-- The whole heap, from its first block.
pub record IsHeap (h : ℕ → Hdr) (head : ℕ) (xs : List Block) : Type 0 where
  pub head_base : head ≡ heap_base
  pub tiles : Tiles h heap_base xs

-- No two neighbours are both free.
abbrev pub Coalesced : List Block → Type 0
Coalesced [] = Unit {0}
Coalesced (x ∷ []) = Unit {0}
Coalesced (x ∷ y ∷ xs) = ((x.free && y.free) ≡ false) × Coalesced (y ∷ xs)
