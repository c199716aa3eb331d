-- ===== src/Cap.antt =====
-- src/kern/subr_cap.c and sys/cap.h: the capability table of a task.
-- A table is the value of its struct, with the array that `slots` points to as a list beside the
-- pointer; the array lives in a block of the kernel heap, which is the section's parameter. A
-- pointer to a table is an option, `none` for NULL. A slot that cap_lookup points to is given by
-- its index.
pub mod Table
pub mod Grow
pub mod Insert
pub mod Epoch
pub mod Tests
use mkrn.Prelude.{
  ℕ, zero, suc, ◌+◌, ◌-◌, ◌*◌, ◌%◌, ◌^◌, u32_mod, add32, ltb, leb, ◌==◌, if◌then◌else◌, ◌||◌, not,
  Bool, List, [], ◌∷◌, ◌++◌, length, get_or, set, replicate, Option, none, some, Outcome, done,
  ◌>>=◌, true, false,
}
use mkrn.KernelHeap.{KernelHeap}

-- CAP_NONE of enum cap_kind, the kind of an empty slot
abbrev pub cap_none : ℕ
cap_none = 0

abbrev pub cap_invalid : ℕ
cap_invalid = 0xffffffff

abbrev captbl_initial : ℕ
captbl_initial = 16

pub record Capslot : Type 0 where
  pub kind : ℕ
  pub rights : ℕ
  pub epoch : ℕ
  pub obj : ℕ

-- `self` is the address of the struct.
pub record Captbl : Type 0 where
  pub self : ℕ
  pub slots_ptr : ℕ
  pub slots : List Capslot
  pub cap : ℕ

abbrev pub empty_slot : Capslot
empty_slot = record { kind = cap_none; rights = 0; epoch = 0; obj = 0 }

-- `t->slots[i]`
abbrev pub slot_at : List Capslot → ℕ → Capslot
slot_at slots i = get_or slots i empty_slot

-- The first loop of cap_insert: the index of the first empty slot, or the length.
pub find_hole : List Capslot → ℕ
find_hole [] = 0
find_hole (s ∷ slots) = if s.kind == cap_none then 0 else suc (find_hole slots)

abbrev pub grown_cap : ℕ → ℕ
grown_cap cap = if cap == 0 then captbl_initial else cap * 2 % u32_mod

-- The two loops of captbl_grow: the old slots, and empty ones behind them.
pub grown_slots : List Capslot → ℕ → ℕ → List Capslot
grown_slots slots cap newcap = slots ++ replicate (newcap - cap) empty_slot

-- The writes of cap_insert and cap_delete to a slot.
pub fill_slot : Captbl → ℕ → ℕ → ℕ → ℕ → Captbl
fill_slot t handle kind rights obj = record t {
  slots =
      set t.slots handle
        (record (slot_at t.slots handle) { kind = kind; rights = rights; obj = obj });
}

pub clear_slot : Captbl → ℕ → Captbl
clear_slot t handle = record t {
  slots = set t.slots handle (record {
    kind = cap_none;
    rights = 0;
    obj = 0;
    epoch = add32 (slot_at t.slots handle).epoch 1;
  });
}

-- The slot that `handle` names, if it is of the kind expected. The table and the heap stay as they
-- are, and cli_save and sti_restore cancel out.
pub cap_lookup : Option Captbl → ℕ → ℕ → Option ℕ
cap_lookup none handle kind = none
cap_lookup (some t) handle kind =
    if leb t.cap handle
    then none
    else if (slot_at t.slots handle).kind == kind
    then some handle
    else none

module _ (k : KernelHeap) where
  open k use {State, kmalloc, kfree, cli_save, sti_restore}

  -- sizeof(struct captbl) is 8.
  pub captbl_create : State → Outcome (Option Captbl × State)
  captbl_create s = do
    (p, s') ← kmalloc s 8
    done (
      (if p == 0 then none else some (record { self = p; slots_ptr = 0; slots = []; cap = 0 })),
      s',
    )

  captbl_destroy : State → Option Captbl → Outcome State
  captbl_destroy s none = done s
  captbl_destroy s (some t) = do s' ← kfree s t.slots_ptr; kfree s' t.self

  -- sizeof(struct capslot) is 16. The Boolean is true for the return value 0.
  pub captbl_grow : State → Captbl → Outcome (Bool × Captbl × State)
  captbl_grow s t = do
    let newcap = grown_cap t.cap
    (p, s') ← kmalloc s (newcap * 16 % u32_mod)
    if p == 0 then done (false, t, s') else do
      s'' ← kfree s' t.slots_ptr
      done (
        true,
        record t { slots_ptr = p; slots = grown_slots t.slots t.cap newcap; cap = newcap },
        s'',
      )

  -- cap_insert where the table is full.
  pub grow_insert : State → Captbl → ℕ → ℕ → ℕ → ℕ → Outcome (ℕ × Captbl × State)
  grow_insert s t i kind rights obj = do
    (ok, t', s') ← captbl_grow s t
    if ok then done (i, fill_slot t' i kind rights obj, s') else done (cap_invalid, t', s')

  -- The part of cap_insert between cli_save and sti_restore.
  pub insert_locked : State → Captbl → ℕ → ℕ → ℕ → Outcome (ℕ × Captbl × State)
  insert_locked s t kind rights obj =
      let i : ℕ = find_hole t.slots in
      if i == t.cap
      then grow_insert s t i kind rights obj
      else done (i, fill_slot t i kind rights obj, s)

  pub cap_insert : State → Option Captbl → ℕ → ℕ → ℕ → Outcome (ℕ × Option Captbl × State)
  cap_insert s none kind rights obj = done (cap_invalid, none, s)
  cap_insert s (some t) kind rights obj =
      if kind == cap_none then done (cap_invalid, some t, s) else do
        let (flags, off) = cli_save s
        (handle, t', s') ← insert_locked off t kind rights obj
        done (handle, some t', sti_restore s' flags)

  -- The Boolean is true for the return value 0 and false for -1.
  pub cap_delete : State → Option Captbl → ℕ → Bool × Option Captbl × State
  cap_delete s none handle = (false, none, s)
  cap_delete s (some t) handle =
      if leb t.cap handle
      then (false, some t, s)
      else let (flags, off) = cli_save s in
        if (slot_at t.slots handle).kind == cap_none
        then (false, some t, sti_restore off flags)
        else (true, some (clear_slot t handle), sti_restore off flags)
