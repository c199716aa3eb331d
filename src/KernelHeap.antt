-- ===== src/KernelHeap.antt =====
-- The kernel heap as its clients use it: kmalloc and kfree (src/kern/sys/kmalloc.h), and the
-- interrupt flag (cli_save and sti_restore of src/kern/amd64/include/machine/cpufunc.h). The list in
-- `Holds` has a pointer and a size for each block in use. The module Kmalloc fills the record.
use mkrn.Prelude.{ℕ, ◌^◌, ◌≤◌, ◌≡◌, ◌≢◌, Bool, List, ◌∷◌, ◌++◌, Outcome, done}

-- What a call of kmalloc for `n` bytes may do to a heap whose blocks in use are `l`.
pub data Grants {State : Type 0} (Holds : State → List (ℕ × ℕ) → Type 0) (s : State)
    (l : List (ℕ × ℕ)) (n : ℕ) (r : ℕ × State) : Type 0 where
  null : r.0 ≡ 0 → r.1 ≡ s → Grants Holds s l n r
  block :
      (left right : List (ℕ × ℕ)) (m : ℕ)
      → r.0 ≢ 0
      → n ≤ m
      → m ≤ 2 ^ 20
      → l ≡ left ++ right
      → Holds r.1 (left ++ (r.0, m) ∷ right)
      → Grants Holds s l n r

pub record KernelHeap : Type 1 where
  pub State : Type 0
  pub Holds : State → List (ℕ × ℕ) → Type 0
  pub flags : State → Bool
  pub kmalloc : State → ℕ → Outcome (ℕ × State)
  pub kfree : State → ℕ → Outcome State
  pub cli_save : State → Bool × State
  pub sti_restore : State → Bool → State
  pub kmalloc_grants :
      (s : State) (l : List (ℕ × ℕ)) (n : ℕ)
      → Holds s l
      → (r : ℕ × State) × (kmalloc s n ≡ done r) × Grants Holds s l n r × (flags r.1 ≡ flags s)
  pub kfree_null : (s : State) → kfree s 0 ≡ done s
  pub kfree_frees :
      (s : State) (left right : List (ℕ × ℕ)) (p m : ℕ)
      → Holds s (left ++ (p, m) ∷ right)
      → (s' : State) × (kfree s p ≡ done s') × Holds s' (left ++ right) × (flags s' ≡ flags s)
  pub cli_save_flags : (s : State) → (cli_save s).0 ≡ flags s
  pub cli_save_holds : (s : State) (l : List (ℕ × ℕ)) → Holds s l → Holds (cli_save s).1 l
  pub sti_restore_flags : (s : State) (f : Bool) → flags (sti_restore s f) ≡ f
  pub sti_restore_holds :
      (s : State) (f : Bool) (l : List (ℕ × ℕ)) → Holds s l → Holds (sti_restore s f) l
