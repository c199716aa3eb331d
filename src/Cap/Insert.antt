-- ===== src/Cap/Insert.antt =====
-- cap_insert over the kernel heap.
use mkrn.Prelude.{
  ℕ, ◌*◌, ◌%◌, ◌<◌, ◌≡◌, ◌≢◌, refl, ◌∙◌, arith, ◌==◌, if◌then◌else◌, Bool-cases, false, inl, inr,
  ◌⊎◌, List, some, u32_mod, done, ==_iff,
}
use mkrn.KernelHeap.{KernelHeap}
use mkrn.Cap.{
  Captbl, cap_none, cap_invalid, slot_at, find_hole, grown_cap, fill_slot, grow_insert,
  insert_locked, cap_insert,
}
use mkrn.Cap.Table.{
  IsTable, find_hole-le, find_hole-empty, find_hole-first, slot_at-fill_slot, fill_slot-IsTable,
}
use mkrn.Cap.Grow.{Backed, grow_result}

-- What cap_insert leaves of a table when it hands out a handle.
pub record Inserted (t : Captbl) (kind rights obj handle : ℕ) (t' : Captbl) : Type 0 where
  pub in_table : handle < t'.cap
  pub was_empty : (slot_at t.slots handle).kind ≡ cap_none
  pub slots :
      (j : ℕ)
      → slot_at t'.slots j ≡ (
          if handle == j
          then record (slot_at t.slots handle) { kind = kind; rights = rights; obj = obj }
          else slot_at t.slots j)
  pub valid : IsTable t'

-- cap_insert fails: no slot of the table is empty, and the table stays as it was.
pub record Full (t : Captbl) (handle : ℕ) (t' : Captbl) : Type 0 where
  pub invalid : handle ≡ cap_invalid
  pub unchanged : t' ≡ t
  pub no_hole : (j : ℕ) → j < t.cap → (slot_at t.slots j).kind ≢ cap_none

Inserted-of :
    (t u : Captbl) (kind rights obj : ℕ)
    → IsTable u
    → find_hole t.slots < u.cap
    → ((j : ℕ) → slot_at u.slots j ≡ slot_at t.slots j)
    → Inserted t kind rights obj
        (find_hole t.slots)
        (fill_slot u (find_hole t.slots) kind rights obj)
Inserted-of t u kind rights obj v l same =
    let h : ℕ = find_hole t.slots in
    record {
      in_table = unfold fill_slot in l;
      was_empty = find_hole-empty t.slots;
      slots = λ j. slot_at-fill_slot u h kind rights obj j v l ∙ ground (arith, same h, same j);
      valid = fill_slot-IsTable u h kind rights obj v;
    }

module _ (k : KernelHeap) where
  open k use {State, Holds, flags, kmalloc, kfree, cli_save, sti_restore}

  -- What insert_locked and cap_insert return, and the state that they leave.
  pub record Returned (s : State) (t : Captbl) (kind rights obj : ℕ) (r : ℕ × Captbl × State)
      : Type 0 where
    pub used : List (ℕ × ℕ)
    pub holds : Holds r.2 used
    pub backed : Backed r.1 used
    pub same_flags : flags r.2 ≡ flags s
    pub result : Inserted t kind rights obj r.0 r.1 ⊎ Full t r.0 r.1

  module _ (s : State) (t : Captbl) (l : List (ℕ × ℕ)) (kind rights obj : ℕ) (v : IsTable t)
      (b : Backed t l) (h : Holds s l) where
    insert_full :
        find_hole t.slots ≡ t.cap
        → (r : ℕ × Captbl × State) × (grow_insert k s t (find_hole t.slots) kind rights obj
            ≡ done r)
          × Returned s t kind rights obj r
    unfolding grow_insert
    insert_full full =
        let (r, e, g, i) = k.kmalloc_grants s l (grown_cap t.cap * 16 % u32_mod) h in
        elim (grow_result k s t l r v b e g i) [
          | inl f ↦ (
            (cap_invalid, t, s),
            rw f,
            record {
              used = l;
              holds = h;
              backed = b;
              same_flags = refl;
              result = inr (record {
                invalid = refl;
                unchanged = refl;
                no_hole = λ j lt. find_hole-first t.slots j (omega arith);
              });
            },
          )
          | inr (g', f, w) ↦ (
            (find_hole t.slots, fill_slot g'.1 (find_hole t.slots) kind rights obj, g'.2),
            rw (f, w.grew),
            record {
              used = w.used;
              holds = w.holds;
              backed = unfold fill_slot in w.backed;
              same_flags = w.same_flags;
              result =
                  inl (Inserted-of t g'.1 kind rights obj w.valid (omega (arith, w.room)) w.slots);
            },
          )
        ]

    insert_room :
        (find_hole t.slots == t.cap) ≡ false
        → Returned s t kind rights obj
            (find_hole t.slots, fill_slot t (find_hole t.slots) kind rights obj, s)
    insert_room more = record {
      used = l;
      holds = h;
      backed = unfold fill_slot in b;
      same_flags = refl;
      result = inl (
          Inserted-of t t kind rights obj v (ground (arith, find_hole-le t.slots, v.cap_length))
            (λ j. refl));
    }

    insert_locked_lem :
        (r : ℕ × Captbl × State) × (insert_locked k s t kind rights obj ≡ done r)
        × Returned s t kind rights obj r
    unfolding insert_locked
    insert_locked_lem = elim (Bool-cases (find_hole t.slots == t.cap)) [
      | inl full ↦ let (r, e, w) = insert_full ((==_iff _ _).0 full) in (r, rw full e, w)
      | inr more ↦ (_, rw more, insert_room more)
    ]

  -- On a table whose array is in a block of the heap, with a kind other than CAP_NONE, cap_insert
  -- always returns, without a panic, and the heap and the table stay sound. Either the handle
  -- names a slot that was empty and now holds the capability, with the slot's epoch as before and
  -- every other slot as before, also if the table has grown; or it is CAP_INVALID, no slot was
  -- empty, and the table is as before. The interrupt flag is as before the call.
  pub cap_insert_lem :
      (s : State) (t : Captbl) (l : List (ℕ × ℕ)) (kind rights obj : ℕ)
      → IsTable t
      → Backed t l
      → Holds s l
      → kind ≢ cap_none
      → (r : ℕ × Captbl × State) × (cap_insert k s (some t) kind rights obj
          ≡ done (r.0, some r.1, r.2))
        × Returned s t kind rights obj r
  unfolding cap_insert
  cap_insert_lem s t l kind rights obj v b h nk =
      let (flags', off) = cli_save s in
      let (r, e, w) = insert_locked_lem off t l kind rights obj v b (k.cli_save_holds s l h) in
      let named : (kind == cap_none) ≡ false = ground arith in
      (
        (r.0, r.1, sti_restore r.2 flags'),
        rw (named, e),
        record {
          used = w.used;
          holds = k.sti_restore_holds r.2 flags' w.used w.holds;
          backed = w.backed;
          same_flags = k.sti_restore_flags r.2 flags' ∙ k.cli_save_flags s;
          result = w.result;
        },
      )
