-- ===== src/Cap/Table.antt =====
-- The slots of a table under the searches and writes of cap_insert and cap_delete.
use mkrn.Prelude.{
  ℕ, zero, suc, ◌-◌, ◌≤◌, ◌<◌, ◌≡◌, ◌≢◌, refl, ap, sym, ◌∙◌, arith, ltb, ◌==◌, if◌then◌else◌,
  if_true, if_false, Bool-cases, inl, inr, List, [], ◌∷◌, length, length-append, length-set,
  length-replicate, get_or, set, replicate, get_or-set_self, get_or-set_ne, get_or-append_left,
  get_or-append_right, get_or-replicate, add32, ==_iff, ◌^◌,
}
use mkrn.Cap.{
  Capslot, Captbl, cap_none, empty_slot, slot_at, find_hole, grown_slots, fill_slot, clear_slot,
}

pub find_hole-le : (slots : List Capslot) → find_hole slots ≤ length slots
unfolding find_hole
find_hole-le [] = omega arith
find_hole-le (s ∷ slots) = ground (arith, find_hole-le slots)

-- The slot found is empty; behind the end of the array an empty slot is read.
pub find_hole-empty : (slots : List Capslot) → (slot_at slots (find_hole slots)).kind ≡ cap_none
unfolding find_hole
find_hole-empty [] = refl
find_hole-empty (s ∷ slots) = elim (Bool-cases (s.kind == cap_none)) [
  | inl e ↦ rw e (ground arith)
  | inr e ↦ rw e (find_hole-empty slots)
]

-- The search stops at the first empty slot.
pub find_hole-first :
    (slots : List Capslot) (j : ℕ) → j < find_hole slots → (slot_at slots j).kind ≢ cap_none
unfolding find_hole
find_hole-first [] j l = absurd (omega arith)
find_hole-first (s ∷ slots) zero l = ground arith
find_hole-first (s ∷ slots) (suc j) l = ground (arith, find_hole-first slots j)

-- The copy that captbl_grow makes holds what the old array held, and empty slots behind.
pub slot_at-grown :
    (slots : List Capslot) (cap newcap j : ℕ)
    → slot_at (grown_slots slots cap newcap) j ≡ slot_at slots j
unfolding grown_slots
slot_at-grown slots cap newcap j = elim (Bool-cases (ltb j (length slots))) [
  | inl e ↦
      get_or-append_left slots (replicate (newcap - cap) empty_slot) j empty_slot (ground arith)
  | inr e ↦
      get_or-append_right slots (replicate (newcap - cap) empty_slot) j empty_slot (ground arith)
      ∙ get_or-replicate (newcap - cap) (j - length slots) empty_slot
      ∙ sym (past slots j (ground arith))
]
  where
    past : (xs : List Capslot) (i : ℕ) → length xs ≤ i → slot_at xs i ≡ empty_slot
    past [] i l = refl
    past (x ∷ xs) zero l = absurd (omega arith)
    past (x ∷ xs) (suc i) l = past xs i (omega arith)

pub length-grown :
    (slots : List Capslot) (cap newcap : ℕ)
    → cap ≡ length slots
    → cap ≤ newcap
    → newcap ≡ length (grown_slots slots cap newcap)
unfolding grown_slots
length-grown slots cap newcap e l = omega (
  arith,
  length-append slots (replicate (newcap - cap) empty_slot),
  length-replicate (newcap - cap) empty_slot,
)

-- A write to one slot of the array.
slot_at-set :
    (slots : List Capslot) (i j : ℕ) (v : Capslot)
    → i < length slots
    → slot_at (set slots i v) j ≡ (if i == j then v else slot_at slots j)
slot_at-set slots i j v l = elim (Bool-cases (i == j)) [
  | inl e ↦
      ap (λ k. get_or (set slots i v) k empty_slot) (sym ((==_iff i j).0 e))
      ∙ get_or-set_self slots i v empty_slot l
      ∙ sym (if_true (i == j) _ _ e)
  | inr e ↦ get_or-set_ne slots i j v empty_slot (ground arith) ∙ sym (if_false (i == j) _ _ e)
]

-- `cap` is the length of the array, and a table stays far below the handle CAP_INVALID.
pub record IsTable (t : Captbl) : Type 0 where
  pub cap_length : t.cap ≡ length t.slots
  pub cap_le : t.cap ≤ 2 ^ 16

pub fill_slot-IsTable :
    (t : Captbl) (h kind rights obj : ℕ) → IsTable t → IsTable (fill_slot t h kind rights obj)
unfolding fill_slot
fill_slot-IsTable t h kind rights obj v = record {
  cap_length = v.cap_length ∙ sym (length-set t.slots h _);
  cap_le = v.cap_le;
}

pub clear_slot-IsTable : (t : Captbl) (h : ℕ) → IsTable t → IsTable (clear_slot t h)
unfolding clear_slot
clear_slot-IsTable t h v = record {
  cap_length = v.cap_length ∙ sym (length-set t.slots h _);
  cap_le = v.cap_le;
}

pub slot_at-fill_slot :
    (t : Captbl) (h kind rights obj j : ℕ)
    → IsTable t
    → h < t.cap
    → slot_at (fill_slot t h kind rights obj).slots j ≡ (
        if h == j
        then record (slot_at t.slots h) { kind = kind; rights = rights; obj = obj }
        else slot_at t.slots j)
unfolding fill_slot
slot_at-fill_slot t h kind rights obj j v l =
    slot_at-set t.slots h j _ (omega (arith, v.cap_length))

pub slot_at-clear_slot :
    (t : Captbl) (h j : ℕ)
    → IsTable t
    → h < t.cap
    → slot_at (clear_slot t h).slots j ≡ (
        if h == j
        then record {
          kind = cap_none;
          rights = 0;
          obj = 0;
          epoch = add32 (slot_at t.slots h).epoch 1;
        }
        else slot_at t.slots j)
unfolding clear_slot
slot_at-clear_slot t h j v l = slot_at-set t.slots h j _ (omega (arith, v.cap_length))
