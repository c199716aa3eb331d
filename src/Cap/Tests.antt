-- ===== src/Cap/Tests.antt =====
-- A table of two slots on the kernel heap, and calls of the operations on it.
use mkrn.Prelude.{
  ℕ, ◌≡◌, ◌≢◌, ◌⊎◌, inr, refl, arith, Bool, true, false, ◌==◌, if◌then◌else◌, [], ◌∷◌, none, some,
  done,
}
use mkrn.Kmalloc.{cli_save, sti_restore}
use mkrn.Kmalloc.Client.{kernel_heap}
use mkrn.Kmalloc.Tests.{taken, two_blocks, taken-IsGood}
use mkrn.Cap.{Captbl, empty_slot, fill_slot, clear_slot, cap_insert, cap_delete}
use mkrn.Cap.Table.{IsTable}
use mkrn.Cap.Insert.{Inserted, Returned, cap_insert_lem}
use mkrn.Cap.Grow.{Backed}
use mkrn.Cap.Epoch.{meaning, cap_delete-meaning}

-- Slot 0 holds a capability, slot 1 is empty.
abbrev table : Captbl
table = record {
  self = 0xd1000100;
  slots_ptr = 0xd1000010;
  slots = record { kind = 3; rights = 5; epoch = 7; obj = 0xd1000200 } ∷ empty_slot ∷ [];
  cap = 2;
}

table-IsTable : IsTable table
table-IsTable = record { cap_length = refl; cap_le = omega arith }

-- The heap with one block in use.
in_use : kernel_heap.State
unfolding kernel_heap
in_use = taken

heap-Holds : kernel_heap.Holds in_use ((0xd1000010, 112) ∷ [])
unfolding kernel_heap in_use
heap-Holds = record { blocks = two_blocks; heap = taken-IsGood.heap; used = refl }

table-Backed : Backed table ((0xd1000010, 112) ∷ [])
table-Backed = inr (record { left = []; right = []; size = 112; parts = refl })

cap_insert_lem_example :
    (r : ℕ × Captbl × kernel_heap.State) × (cap_insert kernel_heap in_use
        (some table)
        4
        1
        0xd1000300
      ≡ done (r.0, some r.1, r.2))
    × Returned kernel_heap in_use table 4 1 0xd1000300 r
cap_insert_lem_example =
    cap_insert_lem kernel_heap in_use table ((0xd1000010, 112) ∷ []) 4 1 0xd1000300 table-IsTable
      table-Backed heap-Holds (omega arith)

cap_delete-meaning_example :
    (done : Bool) × (t' : Captbl) × (s' : kernel_heap.State) × (cap_delete kernel_heap in_use
        (some table)
        0
      ≡ (done, some t', s'))
    × (kernel_heap.flags s' ≡ kernel_heap.flags in_use)
    × IsTable t'
    × (((done ≡ true)
          × (meaning table 0 ≢ none)
          × ((j : ℕ) → meaning t' j ≡ (if 0 == j then none else meaning table j)))
        ⊎ ((done ≡ false) × (meaning table 0 ≡ none) × (t' ≡ table)))
cap_delete-meaning_example = cap_delete-meaning kernel_heap in_use table 0 table-IsTable

abbrev emptied : Captbl
emptied = clear_slot table 0

abbrev refilled : Captbl
refilled = fill_slot emptied 0 9 1 0xd1000400

emptied-refilled : Inserted emptied 9 1 0xd1000400 0 refilled
unfolding clear_slot fill_slot
emptied-refilled = record {
  in_table = omega arith;
  was_empty = refl;
  slots = λ j. ground arith;
  valid = record { cap_length = refl; cap_le = omega arith };
}

table_deleted : cap_delete kernel_heap in_use (some table) 0 ≡ (true, some emptied, in_use)
unfolding kernel_heap in_use cap_delete cli_save sti_restore
table_deleted = refl
