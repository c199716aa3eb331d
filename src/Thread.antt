-- ===== src/Thread.antt =====
-- src/kern/subr_thread.c and sys/thread.h: tasks, threads and the round-robin scheduler.
-- `thread` and `task` give the struct at an address; the memory services that the file calls are
-- the section's parameter, which Thread.Machine fills with the heap, the page allocator and the page
-- tables. swtch() (amd64/switch.S) saves the registers of the old thread, and takes those of the new
-- one into the processor; what a thread does when it first runs is `thread_trampoline`.
pub mod Store
pub mod Ring
pub mod Yield
pub mod Create
pub mod User
pub mod Machine
pub mod Tests
use mkrn.Prelude.{
  ℕ, zero, suc, ◌+◌, ◌-◌, ◌*◌, ◌%◌, ◌^◌, u32_mod, add32, sub32, ltb, leb, ◌==◌, if◌then◌else◌, ◌||◌,
  not, Bool, true, false, List, [], ◌∷◌, Option, none, some, Outcome, done, panic, ◌>>=◌, Panic,
  stack_no_page, stack_map, thread_no_memory, task_no_memory, task_no_captbl, sched_no_captbl,
  sched_no_thread,
}

pub data ThreadState : Type 0 where
  ready running blocked dead : ThreadState

-- The registers that amd64/switch.S saves on the stack (machine/context.h).
pub record Context : Type 0 where
  pub edi : ℕ
  pub esi : ℕ
  pub ebx : ℕ
  pub ebp : ℕ
  pub eflags : ℕ
  pub eip : ℕ

-- `entry`, `task`, `next` and `task_next` are addresses, 0 for NULL. `context` is the address of
-- the saved registers and `saved` what stands there.
pub record Thread : Type 0 where
  pub context : ℕ
  pub saved : Context
  pub stack : ℕ
  pub stack_size : ℕ
  pub entry : ℕ
  pub user_entry : ℕ
  pub user_stack : ℕ
  pub state : ThreadState
  pub task : ℕ
  pub next : ℕ
  pub task_next : ℕ

pub record Task : Type 0 where
  pub pgdir_phys : ℕ
  pub captbl : ℕ
  pub ipc : ℕ
  pub threads : ℕ
  pub next : ℕ

pub record Sched : Type 0 where
  pub thread : ℕ → Thread
  pub task : ℕ → Task
  pub current : ℕ
  pub run_queue : ℕ
  pub next_thread_va : ℕ
  pub tss_esp0 : ℕ

abbrev pub set_thread : Sched → ℕ → Thread → Sched
set_thread s p t = record s { thread = λ q. if q == p then t else s.thread q }

abbrev pub set_task : Sched → ℕ → Task → Sched
set_task s p t = record s { task = λ q. if q == p then t else s.task q }

-- tss_set_kstack() of amd64/gdt.c stores the address in the tss.
pub switch_to : Sched → ℕ → Sched
switch_to s p =
    let t : Thread = record (s.thread p) { state = running } in
    record (set_thread s p t) { current = p; tss_esp0 = add32 t.stack t.stack_size }

-- What swtch() keeps of the old thread: five words that it pushes on the return address at `esp`, with
-- that address the six of struct context, and where they are.
pub swtch_save : Context → ℕ → Sched → ℕ → Sched
swtch_save regs esp s prev =
    set_thread s prev (record (s.thread prev) { context = sub32 esp 20; saved = regs })

-- `regs` and `esp` are the registers with which the thread comes to swtch().
pub yield : Context → ℕ → Sched → Sched
yield regs esp s =
    let prev : ℕ = s.current in
    if prev == 0 || (s.thread prev).next == prev
    then s
    else swtch_save regs esp
        (switch_to (set_thread s prev (record (s.thread prev) { state = ready }))
          (s.thread prev).next)
        prev

pub scheduler_tick : Context → ℕ → Sched → Sched
scheduler_tick regs esp s = yield regs esp s

-- The state in which the first thread runs. swtch() does not come back, and what it saves of the
-- boot stack is not read.
pub scheduler_start : Sched → Outcome Sched
scheduler_start s =
    if s.run_queue == 0 then panic sched_no_thread else done (switch_to s s.run_queue)

-- What the current thread does when it runs for the first time: user_enter() with the entry and
-- the stack, or a call of `entry`, after which the kernel panics.
pub data FirstRun : Type 0 where
  user_enter : ℕ → ℕ → FirstRun
  call_then_panic : ℕ → FirstRun

pub thread_trampoline : Sched → FirstRun
thread_trampoline s =
    let t : Thread = s.thread s.current in
    if t.user_entry == 0 then call_then_panic t.entry else user_enter t.user_entry t.user_stack

-- sizeof(struct context) is 24; `trampoline` is the address of thread_trampoline().
pub thread_init_context : ℕ → Sched → ℕ → Sched
thread_init_context trampoline s p =
    let t : Thread = s.thread p in
    set_thread s p (record t {
      context = sub32 (add32 t.stack 4096) 24;
      saved = record { edi = 0; esi = 0; ebx = 0; ebp = 0; eflags = 0x202; eip = trampoline };
    })

-- The part of thread_new behind the allocations: fill the struct, and enter the two lists.
pub thread_link : Sched → ℕ → ℕ → ℕ → Sched
thread_link s p stack task =
    let fresh : Thread = record (s.thread p) {
      stack = stack;
      stack_size = 4096;
      entry = 0;
      user_entry = 0;
      user_stack = 0;
      state = ready;
      task = task;
      task_next = (s.task task).threads;
    } in
    let queued : Sched =
      if s.run_queue == 0
      then record (set_thread s p (record fresh { next = p })) { run_queue = p }
      else let placed : Sched =
          set_thread s p (record fresh { next = (s.thread s.run_queue).next }) in
        set_thread placed s.run_queue (record (placed.thread s.run_queue) { next = p }) in
    set_task queued task (record (s.task task) { threads = p })

-- The memory services: kmalloc(), pmm_alloc(), vmm_map() with its return value, captbl_create()
-- and the register cr3.
pub record Memory : Type 1 where
  pub State : Type 0
  pub kmalloc : State → ℕ → Outcome (ℕ × State)
  pub pmm_alloc : State → ℕ × State
  pub vmm_map : State → ℕ → ℕ → ℕ → Outcome (Bool × State)
  pub captbl_create : State → Outcome (ℕ × State)
  pub rcr3 : State → ℕ

abbrev pub pmm_enomem : ℕ
pmm_enomem = 2 ^ 32 - 1

-- PAGE_PRESENT | PAGE_WRITE
abbrev pub kernel_page : ℕ
kernel_page = 3

module _ (m : Memory) where
  open m use {State, kmalloc, pmm_alloc, vmm_map, captbl_create, rcr3}

  -- The `n` rounds left of the loop of thread_stack_alloc, from the page at `va`.
  pub stack_pages : State → ℕ → ℕ → Outcome State
  stack_pages w va zero = done w
  stack_pages w va (suc n) =
      let (pa, w') = pmm_alloc w in
      if pa == pmm_enomem then panic stack_no_page else do
        (ok, w'') ← vmm_map w' va pa kernel_page
        if ok then stack_pages w'' (add32 va 4096) n else panic stack_map

  -- THREAD_STACK_PAGES is 1. The page below the stack stays unmapped.
  pub thread_stack_alloc : State → Sched → Outcome (ℕ × State × Sched)
  thread_stack_alloc w s = do
    let stack_va = add32 s.next_thread_va 4096
    w' ← stack_pages w stack_va 1
    done (stack_va, w', record s { next_thread_va = add32 (add32 stack_va 4096) 4096 })

  -- sizeof(struct thread) is 40.
  pub thread_new : State → Sched → ℕ → Outcome (ℕ × State × Sched)
  thread_new w s task = do
    (p, w') ← kmalloc w 40
    if p == 0 then panic thread_no_memory else do
      (stack, w'', s') ← thread_stack_alloc w' s
      done (p, w'', thread_link s' p stack task)

  thread_create : ℕ → State → Sched → ℕ → ℕ → Outcome (ℕ × State × Sched)
  thread_create trampoline w s task entry = do
    (p, w', s') ← thread_new w s task
    done (
      p,
      w',
      thread_init_context trampoline (set_thread s' p (record (s'.thread p) { entry = entry })) p,
    )

  pub thread_create_user : ℕ → State → Sched → ℕ → ℕ → ℕ → Outcome (ℕ × State × Sched)
  thread_create_user trampoline w s task entry_va ustack_va = do
    (p, w', s') ← thread_new w s task
    done (
      p,
      w',
      thread_init_context trampoline
          (set_thread s' p (record (s'.thread p) { user_entry = entry_va; user_stack = ustack_va }))
          p,
    )

  -- sizeof(struct task) is 20.
  task_create : State → Sched → Outcome (ℕ × State × Sched)
  task_create w s = do
    (p, w') ← kmalloc w 20
    if p == 0 then panic task_no_memory else do
      (c, w'') ← captbl_create w'
      if c == 0
          then panic task_no_captbl
          else done (
            p,
            w'',
            set_task s p
                (record { pgdir_phys = rcr3 w'; captbl = c; ipc = 0; threads = 0; next = 0 }),
          )

  -- `kernel_task` is the address of the task of that name.
  sched_init : ℕ → State → Sched → Outcome (State × Sched)
  sched_init kernel_task w s = do
    (c, w') ← captbl_create w
    if c == 0
        then panic sched_no_captbl
        else done (
          w',
          record (set_task s kernel_task
              (record { pgdir_phys = rcr3 w; captbl = c; ipc = 0; threads = 0; next = 0 })) {
                current = 0;
                run_queue = 0;
              },
        )
