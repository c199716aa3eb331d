-- ===== src/Cap/Epoch.antt =====
-- cap_lookup and cap_delete: a table as a map from handles to capabilities, and slot epochs.
use mkrn.Prelude.{
  ℕ, zero, suc, ◌^◌, ◌≤◌, ◌<◌, ◌≡◌, ◌≢◌, refl, ap, ◌∙◌, arith, leb, ◌==◌, if◌then◌else◌, Bool,
  Bool-cases, true, false, inl, inr, ◌⊎◌, List, [], ◌∷◌, Option, none, some, add32, length,
}
use mkrn.KernelHeap.{KernelHeap}
use mkrn.Cap.{Capslot, Captbl, cap_none, empty_slot, slot_at, clear_slot, cap_lookup, cap_delete}
use mkrn.Cap.Table.{IsTable, slot_at-clear_slot, clear_slot-IsTable}
use mkrn.Cap.Insert.{Inserted}

-- What a table means to its users: the kind, rights and object that a handle stands for.
pub record Capability : Type 0 where
  pub kind : ℕ
  pub rights : ℕ
  pub obj : ℕ

abbrev capability : Capslot → Option Capability
capability s =
    if s.kind == cap_none
    then none
    else some (record { kind = s.kind; rights = s.rights; obj = s.obj })

pub meaning : Captbl → ℕ → Option Capability
meaning t handle = capability (slot_at t.slots handle)

-- Whether a capability is of the kind asked for.
abbrev has_kind : Option Capability → ℕ → Bool
has_kind none kind = false
has_kind (some c) kind = c.kind == kind

past_end : (slots : List Capslot) (i : ℕ) → length slots ≤ i → slot_at slots i ≡ empty_slot
past_end [] i l = refl
past_end (x ∷ xs) zero l = absurd (omega arith)
past_end (x ∷ xs) (suc i) l = past_end xs i (omega arith)

-- For a kind other than CAP_NONE, cap_lookup finds the slot of a handle exactly if the handle
-- stands for a capability of that kind; for any other handle, also one past the end of the table,
-- it returns NULL.
cap_lookup-meaning :
    (t : Captbl) (handle kind : ℕ)
    → IsTable t
    → kind ≢ cap_none
    → cap_lookup (some t) handle kind
      ≡ (if has_kind (meaning t handle) kind then some handle else none)
unfolding cap_lookup meaning
cap_lookup-meaning t handle kind v nk = elim (Bool-cases (leb t.cap handle)) [
  | inl out ↦ rw (out, past_end t.slots handle (ground (arith, v.cap_length))) refl
  | inr inside ↦ rw inside (ground arith)
]

-- A successful insertion gives the handle its capability, and leaves what every other handle
-- stands for as it was; before it the handle stood for nothing.
meaning-Inserted :
    (t t' : Captbl) (kind rights obj handle : ℕ)
    → Inserted t kind rights obj handle t'
    → kind ≢ cap_none
    → (meaning t handle ≡ none)
      × ((j : ℕ)
          → meaning t' j ≡ (
              if handle == j
              then some (record { kind = kind; rights = rights; obj = obj })
              else meaning t j))
unfolding meaning
meaning-Inserted t t' kind rights obj handle r nk =
    (ground (arith, r.was_empty), λ j. ground (arith, r.slots j))

module _ (k : KernelHeap) where
  open k use {State, flags, cli_save_flags, sti_restore_flags}

  -- cap_delete takes the capability of a handle that stands for one, leaves what all other handles
  -- stand for, and returns 0; for a handle that stands for none it returns -1 and leaves the table
  -- as it was. The interrupt flag is as before the call.
  pub cap_delete-meaning :
      (s : State) (t : Captbl) (handle : ℕ)
      → IsTable t
      → (done : Bool) × (t' : Captbl) × (s' : State) × (cap_delete k s (some t) handle
          ≡ (done, some t', s'))
        × (flags s' ≡ flags s)
        × IsTable t'
        × (((done ≡ true)
              × (meaning t handle ≢ none)
              × ((j : ℕ) → meaning t' j ≡ (if handle == j then none else meaning t j)))
            ⊎ ((done ≡ false) × (meaning t handle ≡ none) × (t' ≡ t)))
  unfolding cap_delete meaning
  cap_delete-meaning s t handle v = elim (Bool-cases (leb t.cap handle)) [
    | inl out ↦ (
      false,
      t,
      s,
      rw out,
      refl,
      v,
      inr (refl, rw (past_end t.slots handle (ground (arith, v.cap_length))), refl),
    )
    | inr inside ↦ elim (Bool-cases ((slot_at t.slots handle).kind == cap_none)) [
      | inl empty ↦
          (false, t, restored, rw (inside, empty), same_flags, v, inr (refl, rw empty, refl))
      | inr used ↦ (
        true,
        clear_slot t handle,
        restored,
        rw (inside, used),
        same_flags,
        clear_slot-IsTable t handle v,
        inl (refl, ground arith, λ j. ground (arith, slot_at-clear_slot t handle j v)),
      )
    ]
  ]
    where
      restored : State
      restored = k.sti_restore (k.cli_save s).1 (k.cli_save s).0

      same_flags : flags restored ≡ flags s
      same_flags = sti_restore_flags (k.cli_save s).1 (k.cli_save s).0 ∙ cli_save_flags s

  abbrev Reply : Bool × Option Captbl × State → Bool × Option Captbl × State → Type 0
  Reply a b = a ≡ b

  delete_inv :
      (s : State) (t t' : Captbl) (handle : ℕ) (s' : State)
      → cap_delete k s (some t) handle ≡ (true, some t', s')
      → (handle < t.cap) × (t' ≡ clear_slot t handle)
  unfolding cap_delete
  delete_inv s t t' handle s' e = elim (Bool-cases (leb t.cap handle)) [
    | inl out ↦ let f : Reply (false, some t, s) (true, some t', s') = rw out at e in cc
    | inr inside ↦ elim (Bool-cases ((slot_at t.slots handle).kind == cap_none)) [
      | inl empty ↦
          let f : Reply (false, some t, restored) (true, some t', s') = rw (inside, empty) at e in
          cc
      | inr used ↦
          let f : Reply (true, some (clear_slot t handle), restored) (true, some t', s') =
            rw (inside, used) at e in
          (ground arith, cc)
    ]
  ]
    where
      restored : State
      restored = k.sti_restore (k.cli_save s).1 (k.cli_save s).0

  -- After a cap_delete that returns 0, an insertion that hands out the same handle again finds
  -- the slot's epoch, a number of 32 bits, moved on by one with wrap-around: it differs from the
  -- epoch of the capability that was deleted.
  epoch_recycled :
      (s : State) (t t' t'' : Captbl) (handle kind rights obj : ℕ) (s' : State)
      → IsTable t
      → (slot_at t.slots handle).epoch < 2 ^ 32
      → cap_delete k s (some t) handle ≡ (true, some t', s')
      → Inserted t' kind rights obj handle t''
      → ((slot_at t''.slots handle).epoch ≡ add32 (slot_at t.slots handle).epoch 1)
        × ((slot_at t''.slots handle).epoch ≢ (slot_at t.slots handle).epoch)
  epoch_recycled s t t' t'' handle kind rights obj s' v small e r = (moved, omega (arith, moved))
    where
      deleted : (slot_at t'.slots handle).epoch ≡ add32 (slot_at t.slots handle).epoch 1
      deleted =
          let (inside, same) = delete_inv s t t' handle s' e in
          ap (λ (u : Captbl). (slot_at u.slots handle).epoch) same
          ∙ ground (arith, slot_at-clear_slot t handle handle v inside)

      kept : (slot_at t''.slots handle).epoch ≡ (slot_at t'.slots handle).epoch
      kept = ground (arith, r.slots handle)

      moved : (slot_at t''.slots handle).epoch ≡ add32 (slot_at t.slots handle).epoch 1
      moved = kept ∙ deleted
