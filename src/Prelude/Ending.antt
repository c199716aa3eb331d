-- ===== src/Prelude/Ending.antt =====
-- What a kernel routine may end in: a value, a call of panic() (src/kern/subr_panic.c, which
-- never returns), or the end of the fuel that the model gives a loop.

-- The panic() calls that the models reach, one for each message.
pub data Panic : Type 0 where
  kfree_invalid kfree_double : Panic
  kheap_no_page kheap_map : Panic
  page_fault pmap_no_table pmap_no_directory pmm_no_room tsc_no_pit : Panic
  stack_no_page stack_map thread_no_memory task_no_memory task_no_captbl : Panic
  sched_no_captbl sched_no_thread : Panic

pub data Outcome {ℓ} (A : Type ℓ) : Type ℓ where
  done : A → Outcome A
  panic : Panic → Outcome A
  out_of_fuel : Outcome A

infixl 5 ◌>>=◌
abbrev pub ◌>>=◌ {ℓ κ} : {A : Type ℓ} {B : Type κ} → Outcome A → (A → Outcome B) → Outcome B
done a >>= f = f a
panic p >>= f = panic p
out_of_fuel >>= f = out_of_fuel
