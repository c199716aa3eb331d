-- ===== src/Kmalloc/Free.antt =====
-- kfree on the block list: the freed block merges with its free neighbours.
use mkrn.Prelude.{
  ℕ, zero, suc, ◌+◌, ◌≤◌, ◌<◌, ◌≡◌, refl, ap, sym, subst, ◌∙◌, arith, ◌==◌, if◌then◌else◌, if_true,
  if_false, if_both, if_pair, ◌||◌, Bool, Bool-cases, true, false, inl, inr, List, [], ◌∷◌, ◌++◌,
  length, length-append, some, sub32, u32_mod, Outcome, done, panic, kfree_double, ◌>>=◌, ==_iff,
}
use mkrn.Kmalloc.{
  Hdr, Kheap, hdr_magic, heap_base, hdr_size, heap_fuel, absorb, release_next, find_prev,
  release_prev, free_block, kfree, cli_save, sti_restore,
}
use mkrn.Kmalloc.Tiles.{
  Block, block, span, span-length, link, IsHdr, IsHdr-ext, Tiles, Tiles-span, Tiles-replace,
  Tiles-behind, IsHeap,
}
use mkrn.Kmalloc.Merge.{
  merge_next, release_next-Tiles, release_next-before, absorb-Tiles, absorb-before,
}

-- The address of the last of the blocks `ys`, which start at `p`; `prev` if there are none.
abbrev last_addr : ℕ → ℕ → List Block → ℕ
last_addr prev p [] = prev
last_addr prev p (y ∷ ys) = last_addr p (p + hdr_size + y.size) ys

find_prev_lem :
    (fuel : ℕ) (h : ℕ → Hdr) (prev p b : ℕ) (ys zs : List Block) (x : Block)
    → Tiles h p (ys ++ x ∷ zs)
    → heap_base ≤ p
    → length ys < fuel
    → p + span ys ≡ b
    → find_prev fuel h prev p b ≡ some (last_addr prev p ys)
unfolding find_prev
find_prev_lem zero h prev p b ys zs x t lo l e = absurd (omega arith)
find_prev_lem (suc fuel) h prev p b [] zs x t lo l e = ground arith
find_prev_lem (suc fuel) h prev p b (y ∷ ys) zs x t lo l e =
    let tested : (p == 0 || p == b) ≡ false = ground arith in
    let q : ℕ = p + hdr_size + y.size in
    if_false (p == 0 || p == b) (some prev) (find_prev fuel h p (h p).next b) tested
    ∙ ap (λ k. find_prev fuel h p k b) (t.0.3 ∙ link_cons q ys)
    ∙ find_prev_lem fuel h p q b ys zs x t.3 (omega arith) (omega arith) (omega arith)
  where
    link_cons : (q : ℕ) (ys : List Block) → link q (ys ++ x ∷ zs) ≡ q
    link_cons q [] = refl
    link_cons q (z ∷ ys) = refl

-- The blocks `ys` in front of a freed block, and `ws` from the freed block on: the last of `ys`
-- grows by the first of `ws` if it is free.
abbrev pub free_between : List Block → List Block → List Block
free_between [] ws = ws
free_between (y ∷ []) [] = y ∷ []
free_between (y ∷ []) (w ∷ ws) =
    if y.free then block (y.size + hdr_size + w.size) true ∷ ws else y ∷ w ∷ ws
free_between (y ∷ y' ∷ ys) ws = y ∷ free_between (y' ∷ ys) ws

link-free_between :
    (q : ℕ) (y w : Block) (ys ws : List Block) → link q (free_between (y ∷ ys) (w ∷ ws)) ≡ q
link-free_between q y w [] ws = ground arith
link-free_between q y w (y' ∷ ys) ws = refl

-- The merge of kfree with the block before.
module _ (h : ℕ → Hdr) (b : ℕ) (w : Block) (ws : List Block) where
  release_prev_here :
      (p : ℕ) (y : Block)
      → heap_base ≤ p
      → Tiles h p (y ∷ w ∷ ws)
      → release_prev h p b ≡ (if y.free then absorb h p b else h)
  unfolding release_prev
  release_prev_here p y lo t = let pointer : (p == 0) ≡ false = ground arith in rw (pointer, t.0.2)

  release_prev_lem :
      (p : ℕ) (y : Block) (ys : List Block)
      → heap_base ≤ p
      → p + span (y ∷ ys) ≡ b
      → Tiles h p (y ∷ ys ++ w ∷ ws)
      → Tiles
          (release_prev h (last_addr p (p + hdr_size + y.size) ys) b)
          p
          (free_between (y ∷ ys) (w ∷ ws))
        × ((a : ℕ) → a < p → h a ≡ release_prev h (last_addr p (p + hdr_size + y.size) ys) b a)
  release_prev_lem p y [] lo e t = rw (release_prev_here p y lo t) (
    if_pair (λ g bs. Tiles g p bs) y.free (absorb h p b) h
        (block (y.size + hdr_size + w.size) true ∷ ws) (y ∷ w ∷ ws)
        (λ f.
          subst (λ f'. Tiles (absorb h p b) p (block (y.size + hdr_size + w.size) f' ∷ ws)) f
            (absorb-Tiles h p b y w ws lo t (omega arith)))
        (λ _. t),
    λ a l.
        if_both (λ g. h a ≡ g a) y.free (absorb h p b) h
          (absorb-before h p b y w ws lo t (omega arith) a l) refl,
  )
  release_prev_lem p y (y' ∷ ys) lo e t =
      let (r, same) =
        release_prev_lem (p + hdr_size + y.size) y' ys (omega arith) (omega arith) t.3 in
      (
        (
          IsHdr-ext h (release_prev h (last_addr p (p + hdr_size + y.size) (y' ∷ ys)) b) p y _
              (same p (omega arith))
              (subst (IsHdr h p y) (sym (link-free_between (p + hdr_size + y.size) y' w ys ws))
                t.0),
          t.1,
          t.2,
          r,
        ),
        λ a l. same a (omega arith),
      )

release_prev-Tiles :
    (h : ℕ → Hdr) (b : ℕ) (ys : List Block) (w : Block) (ws : List Block)
    → heap_base + span ys ≡ b
    → Tiles h heap_base (ys ++ w ∷ ws)
    → Tiles (release_prev h (last_addr 0 heap_base ys) b) heap_base (free_between ys (w ∷ ws))
release_prev-Tiles h b [] w ws e t = unfold release_prev in t
release_prev-Tiles h b (y ∷ ys) w ws e t =
    (release_prev_lem h b w ws heap_base y ys (omega arith) e t).0

merge_next-cons :
    (n : ℕ) (zs : List Block) → (w : Block) × (ws : List Block) × (merge_next n zs ≡ w ∷ ws)
merge_next-cons n [] = (block n true, [], refl)
merge_next-cons n (z ∷ zs) = elim (Bool-cases z.free) [
  | inl f ↦ (block (n + hdr_size + z.size) true, zs, if_true z.free _ _ f)
  | inr f ↦ (block n true, z ∷ zs, if_false z.free _ _ f)
]

free_block_found :
    (s : Kheap) (b prev : ℕ)
    → find_prev heap_fuel (release_next s.hdr b) 0 s.heap_head b ≡ some prev
    → free_block s b ≡ done (record s { hdr = release_prev (release_next s.hdr b) prev b })
unfolding free_block
free_block_found s b prev e = rw (e, free_block)

-- The header address of the block behind `ys`.
abbrev at : List Block → ℕ
at ys = heap_base + span ys

module _ (s : Kheap) (ys : List Block) (x : Block) (zs : List Block)
    (v : IsHeap s.hdr s.heap_head (ys ++ x ∷ zs)) where
  here : Tiles s.hdr (at ys) (x ∷ zs)
  here = Tiles-behind s.hdr heap_base (at ys) ys (x ∷ zs) refl v.tiles

  at-le : heap_base ≤ (at ys)
  at-le = omega arith

  released : Tiles (release_next s.hdr (at ys)) heap_base (ys ++ merge_next x.size zs)
  released =
      Tiles-replace s.hdr (release_next s.hdr (at ys)) heap_base (at ys) ys (x ∷ zs)
        (merge_next x.size zs) refl (release_next-before s.hdr (at ys) x at-le zs here)
        (let (w, ws, e) = merge_next-cons x.size zs in ap (link (at ys)) (sym e))
        (release_next-Tiles s.hdr (at ys) x at-le zs here) v.tiles

  prev_found :
      find_prev heap_fuel (release_next s.hdr (at ys)) 0 heap_base (at ys)
      ≡ some (last_addr 0 heap_base ys)
  prev_found =
      let (w, ws, e) = merge_next-cons x.size zs in
      find_prev_lem heap_fuel (release_next s.hdr (at ys)) 0 heap_base (at ys) ys ws w
        (subst (λ bs. Tiles (release_next s.hdr (at ys)) heap_base (ys ++ bs)) e released)
        (omega arith) few refl
    where
      few : length ys < heap_fuel
      few =
          unfold heap_fuel in
          omega (
            arith,
            span-length s.hdr heap_base (ys ++ x ∷ zs) v.tiles,
            Tiles-span s.hdr heap_base (ys ++ x ∷ zs) v.tiles,
            length-append ys (x ∷ zs),
          )

  merged :
      Tiles
        (release_prev (release_next s.hdr (at ys)) (last_addr 0 heap_base ys) (at ys))
        heap_base
        (free_between ys (merge_next x.size zs))
  merged =
      let (w, ws, e) = merge_next-cons x.size zs in
      subst
        (λ bs.
          Tiles (release_prev (release_next s.hdr (at ys)) (last_addr 0 heap_base ys) (at ys))
            heap_base (free_between ys bs))
        (sym e)
        (release_prev-Tiles (release_next s.hdr (at ys)) (at ys) ys w ws refl
          (subst (λ bs. Tiles (release_next s.hdr (at ys)) heap_base (ys ++ bs)) e released))

  free_block_lem :
      (s' : Kheap) × (free_block s (at ys) ≡ done s')
      × IsHeap s'.hdr s'.heap_head (free_between ys (merge_next x.size zs))
      × (s'.interrupts ≡ s.interrupts)
  free_block_lem = (
    record s { hdr = release_prev (release_next s.hdr (at ys)) (last_addr 0 heap_base ys) (at ys) },
    free_block_found s (at ys) (last_addr 0 heap_base ys) (
        ap (λ k. find_prev heap_fuel (release_next s.hdr (at ys)) 0 k (at ys)) v.head_base
        ∙ prev_found),
    record { head_base = v.head_base; tiles = merged },
    refl,
  )

  -- The tests of kfree at the pointer behind the header of `x`.
  kfree_tests : kfree s ((at ys) + hdr_size) ≡ (
      (if x.free then panic kfree_double else free_block (record s { interrupts = false }) (at ys))
      >>= λ s'. done (record s' { interrupts = s.interrupts }))
  unfolding kfree cli_save sti_restore
  kfree_tests =
      let bounded : (at ys) + hdr_size < u32_mod =
        omega (arith, Tiles-span s.hdr (at ys) (x ∷ zs) here) in
      let pointer : ((at ys) + hdr_size == 0) ≡ false = ground arith in
      let header : sub32 ((at ys) + hdr_size) hdr_size ≡ (at ys) = omega arith in
      let magic : ((s.hdr (at ys)).magic == hdr_magic) ≡ true = (==_iff _ _).1 here.0.0 in
      rw (pointer, header, magic, here.0.2)

-- On a heap that its headers tile, kfree of the block that stands between `ys` and `zs`, if it
-- is in use, returns without a panic and leaves a heap in which that block is free and has
-- merged with a free block before it and a free block behind it, all others as they were. The
-- interrupt flag is as before the call.
pub kfree_lem :
    (s : Kheap) (ys : List Block) (x : Block) (zs : List Block)
    → IsHeap s.hdr s.heap_head (ys ++ x ∷ zs)
    → x.free ≡ false
    → (s' : Kheap) × (kfree s (heap_base + span ys + hdr_size) ≡ done s')
      × IsHeap s'.hdr s'.heap_head (free_between ys (merge_next x.size zs))
      × (s'.interrupts ≡ s.interrupts)
kfree_lem s ys x zs v busy =
    let off : Kheap = record s { interrupts = false } in
    let w : IsHeap off.hdr off.heap_head (ys ++ x ∷ zs) = record {
      head_base = v.head_base;
      tiles = v.tiles;
    } in
    let (s', e, heap, i) = free_block_lem off ys x zs w in
    (
      record s' { interrupts = s.interrupts },
      kfree_tests s ys x zs v
          ∙ ap
              (λ (f : Bool).
                (if f then panic kfree_double else free_block off (heap_base + span ys)) >>= λ s'.
                done (record s' { interrupts = s.interrupts }))
              busy
          ∙ ap (λ (r : Outcome Kheap). r >>= λ s'. done (record s' { interrupts = s.interrupts }))
              e,
      record { head_base = heap.head_base; tiles = heap.tiles },
      refl,
    )

-- On a heap that its headers tile, kfree of the address of a block that is free already panics
-- with the message for a double free.
kfree_of_free :
    (s : Kheap) (ys : List Block) (x : Block) (zs : List Block)
    → IsHeap s.hdr s.heap_head (ys ++ x ∷ zs)
    → x.free ≡ true
    → kfree s (heap_base + span ys + hdr_size) ≡ panic kfree_double
kfree_of_free s ys x zs v f =
    kfree_tests s ys x zs v
    ∙ ap
        (λ (f : Bool).
          (if f
            then panic kfree_double
            else free_block (record s { interrupts = false }) (heap_base + span ys))
          >>= λ s'. done (record s' { interrupts = s.interrupts }))
        f
