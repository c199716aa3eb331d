-- ===== src/Cap/Grow.antt =====
-- captbl_grow over the kernel heap: the array moves to a larger block, or stays.
use mkrn.Prelude.{
  ℕ, ◌*◌, ◌%◌, ◌^◌, ◌≤◌, ◌<◌, ◌≡◌, refl, ap, sym, subst, ◌∙◌, arith, ◌==◌, Bool, true, false, inl,
  inr, ◌⊎◌, List, [], ◌∷◌, ◌++◌, u32_mod, done,
}
use mkrn.KernelHeap.{KernelHeap, Grants, null, block}
use mkrn.Cap.{Captbl, slot_at, grown_cap, grown_slots, captbl_grow}
use mkrn.Cap.Table.{IsTable, slot_at-grown, length-grown}

-- `p` points to a block in use.
pub record Owned (p : ℕ) (l : List (ℕ × ℕ)) : Type 0 where
  pub left : List (ℕ × ℕ)
  pub right : List (ℕ × ℕ)
  pub size : ℕ
  pub parts : l ≡ left ++ (p, size) ∷ right

-- The array is in a block of the heap, or there is none yet.
abbrev pub Backed : Captbl → List (ℕ × ℕ) → Type 0
Backed t l = ((t.slots_ptr ≡ 0) × (t.cap ≡ 0)) ⊎ Owned t.slots_ptr l

-- The places of two elements `p` and `q` of a list, and of `q` once `p` is taken out.
record Both {A : Type 0} (xs : List A) (p q : A) : Type 0 where
  us : List A
  vs : List A
  parts : xs ≡ us ++ p ∷ vs
  ls : List A
  rs : List A
  without : us ++ vs ≡ ls ++ q ∷ rs

cons_inj {ℓ} : {A : Type ℓ} (a b : A) (xs ys : List A) → a ∷ xs ≡ b ∷ ys → (a ≡ b) × (xs ≡ ys)
cons_inj a b xs ys e = (cc, cc)

-- A block in use stays in use when another joins the list.
both :
    {A : Type 0} (left right : List A) (p q : A) (us vs : List A)
    → left ++ right ≡ us ++ p ∷ vs
    → Both (left ++ q ∷ right) p q
both [] right p q us vs e = record {
  us = q ∷ us;
  vs = vs;
  parts = ap (◌∷◌ q) e;
  ls = [];
  rs = us ++ vs;
  without = refl;
}
both (a ∷ left) right p q [] vs e = record {
  us = [];
  vs = left ++ q ∷ right;
  parts = ap (λ b. b ∷ left ++ q ∷ right) (cons_inj _ _ _ _ e).0;
  ls = left;
  rs = right;
  without = refl;
}
both (a ∷ left) right p q (b ∷ us) vs e =
    let r = both left right p q us vs (cons_inj _ _ _ _ e).1 in
    record {
      us = a ∷ r.us;
      vs = r.vs;
      parts = ap (◌∷◌ a) r.parts;
      ls = a ∷ r.ls;
      rs = r.rs;
      without = ap (◌∷◌ a) r.without;
    }

module _ (k : KernelHeap) where
  open k use {State, Holds, flags, kmalloc, kfree, cli_save, sti_restore}

  -- What holds after captbl_grow has moved the array.
  pub record Grown (s : State) (t : Captbl) (r : Bool × Captbl × State) : Type 0 where
    pub grew : r.0 ≡ true
    pub used : List (ℕ × ℕ)
    pub holds : Holds r.2 used
    pub backed : Backed r.1 used
    pub valid : IsTable r.1
    pub room : t.cap < r.1.cap
    pub slots : (j : ℕ) → slot_at r.1.slots j ≡ slot_at t.slots j
    pub same_flags : flags r.2 ≡ flags s

  -- Freeing the old array, once the new one is in use.
  free_old :
      (s : State) (t : Captbl) (l left right : List (ℕ × ℕ)) (new : ℕ × ℕ)
      → Backed t l
      → l ≡ left ++ right
      → Holds s (left ++ new ∷ right)
      → (s' : State) × (l' : List (ℕ × ℕ)) × (kfree s t.slots_ptr ≡ done s')
        × Holds s' l'
        × Owned new.0 l'
        × (flags s' ≡ flags s)
  free_old s t l left right new (inl (z, c)) e h = (
    s,
    left ++ new ∷ right,
    ap (kfree s) z ∙ k.kfree_null s,
    h,
    record { left = left; right = right; size = new.1; parts = refl },
    refl,
  )
  free_old s t l left right new (inr o) e h =
      let b = both left right (t.slots_ptr, o.size) new o.left o.right (sym e ∙ o.parts) in
      let (s', f, h', i) =
        k.kfree_frees s b.us b.vs t.slots_ptr o.size (subst (Holds s) b.parts h) in
      (
        s',
        b.us ++ b.vs,
        f,
        h',
        record { left = b.ls; right = b.rs; size = new.1; parts = b.without },
        i,
      )

  grown_cap_lem : (t : Captbl) → IsTable t → t.cap < grown_cap t.cap × (grown_cap t.cap ≤ 2 ^ 17)
  grown_cap_lem t v = ground (arith, v.cap_le)

  pub grow_result :
      (s : State) (t : Captbl) (l : List (ℕ × ℕ)) (r : ℕ × State)
      → IsTable t
      → Backed t l
      → kmalloc s (grown_cap t.cap * 16 % u32_mod) ≡ done r
      → Grants Holds s l (grown_cap t.cap * 16 % u32_mod) r
      → flags r.1 ≡ flags s
      → (captbl_grow k s t ≡ done (false, t, s))
        ⊎ ((g : Bool × Captbl × State) × (captbl_grow k s t ≡ done g) × Grown s t g)
  unfolding captbl_grow
  grow_result s t l r v b e (null z same) i = inl (rw (e, z, same))
  grow_result s t l r v b e (block left right m nz fits small parts h) i =
      let (s'', l', f, h', o, j) = free_old r.1 t l left right (r.0, m) b parts h in
      let pointer : (r.0 == 0) ≡ false = ground arith in
      let t' : Captbl = record t {
        slots_ptr = r.0;
        slots = grown_slots t.slots t.cap (grown_cap t.cap);
        cap = grown_cap t.cap;
      } in
      inr (
        (true, t', s''),
        rw (e, pointer, f),
        record {
          grew = refl;
          used = l';
          holds = h';
          backed = inr o;
          valid = record {
            cap_length =
                length-grown t.slots t.cap (grown_cap t.cap) v.cap_length
                  (omega (arith, grown_cap_lem t v));
            cap_le = omega (arith, grown_cap_lem t v);
          };
          room = (grown_cap_lem t v).0;
          slots = slot_at-grown t.slots t.cap (grown_cap t.cap);
          same_flags = j ∙ i;
        },
      )
