-- ===== src/Thread/Tests.antt =====
-- Three threads in a ring.
use mkrn.Prelude.{
  ℕ, ◌+◌, ◌/◌, ◌^◌, ◌<◌, ◌≡◌, refl, arith, ◌==◌, if◌then◌else◌, List, [], ◌∷◌, length, done, add32,
}
use mkrn.Thread.{
  Context, Thread, ready, running, Sched, switch_to, thread_create_user, user_enter,
  thread_trampoline,
}
use mkrn.Thread.Ring.{Distinct}
use mkrn.Thread.Yield.{Runs, ticks, round_robin}
use mkrn.Thread.Machine.{Machine, machine, thread_create_user_lem}
use mkrn.Pmm.{bit_test, pmm_alloc}
use mkrn.Pmm.Tests.{roomy, roomy_low}
use mkrn.Pmap.{page_offset, vmm_extract}
use mkrn.Pmap.Pages.{IsPaged}
use mkrn.Kmalloc.Tests.{fresh_heap, with_thread, kmalloc_40, no_tables, no_tables-IsPaged}
use mkrn.Thread.Create.{Queue, enqueue}

abbrev waiting : ℕ → ℕ → Thread
waiting stack next = record {
  context = stack + 4072;
  saved = record { edi = 0; esi = 0; ebx = 0; ebp = 0; eflags = 0x202; eip = 0 };
  stack = stack;
  stack_size = 4096;
  entry = 0;
  user_entry = 0;
  user_stack = 0;
  state = ready;
  task = 7;
  next = next;
  task_next = 0;
}

abbrev queued : Sched
queued = record {
  thread = λ p.
      if p == 16
      then waiting 0x1000 32
      else if p == 32
      then waiting 0x3000 48
      else waiting 0x5000 16;
  task = λ _. record { pgdir_phys = 0; captbl = 0; ipc = 0; threads = 0; next = 0 };
  current = 0;
  run_queue = 16;
  next_thread_va = 0x7000;
  tss_esp0 = 0;
}

abbrev started : Sched
started = record queued {
  thread = λ p. if p == 16 then record (waiting 0x1000 32) { state = running } else queued.thread p;
  current = 16;
  tss_esp0 = 0x2000;
}

abbrev order : List ℕ
order = 16 ∷ 32 ∷ 48 ∷ []

ring-Distinct : Distinct order
ring-Distinct = ((omega arith, (omega arith, tt)), ((omega arith, tt), (tt, tt)))

started-Runs : Runs started (16 ∷ 32 ∷ 48 ∷ [])
started-Runs = record {
  is_current = refl;
  not_null = omega arith;
  runs = refl;
  ring = (refl, (refl, refl));
  distinct = ring-Distinct;
  wait = (omega arith, refl, (omega arith, refl, tt));
  kstack = refl;
}

-- Each thread is interrupted at the same place of its code and stack.
abbrev same_registers : ℕ → Context × ℕ
same_registers k =
    (record { edi = 1; esi = 2; ebx = 3; ebp = 4; eflags = 0x202; eip = 0xc0100200 }, 0xc0009000)

round_robin_example :
    ((ticks same_registers (length order) started).0 ≡ order)
    × Runs (ticks same_registers (length order) started).1 order
round_robin_example = round_robin same_registers started order started-Runs

abbrev kernel : Machine
kernel = record { heap = fresh_heap; pmm = roomy; tables = no_tables }

thread_create_user_lem_example :
    (r : Machine) × (s' : Sched) × (thread_create_user machine 0xc0100000 kernel queued 7 0x400000
        0x800000
      ≡ done (0xd1000010, r, s'))
    × (r.heap ≡ with_thread)
    × IsPaged r.pmm r.tables
    × (bit_test roomy ((pmm_alloc roomy).0 / 4096) ≡ 0)
    × ((v : ℕ)
        → v < 2 ^ 32
        → vmm_extract pmm_alloc r.pmm r.tables v ≡ (
            if v / 4096 == add32 queued.next_thread_va 4096 / 4096
            then done ((pmm_alloc roomy).0 + page_offset v)
            else vmm_extract pmm_alloc roomy no_tables v))
    × Queue s' (enqueue order 0xd1000010)
    × ((s'.thread 0xd1000010).state ≡ ready)
    × ((s'.thread 0xd1000010).saved.eip ≡ 0xc0100000)
    × ((s'.thread 0xd1000010).saved.eflags ≡ 0x202)
    × (thread_trampoline (switch_to s' 0xd1000010) ≡ user_enter 0x400000 0x800000)
    × ((switch_to s' 0xd1000010).tss_esp0 ≡ add32 (add32 queued.next_thread_va 4096) 4096)
thread_create_user_lem_example =
    thread_create_user_lem kernel with_thread queued order 0xc0100000 0xd1000010 7 0x400000 0x800000
      kmalloc_40 (omega arith) no_tables-IsPaged (omega (arith, roomy_low))
      (refl, omega arith, (refl, (refl, refl)), ring-Distinct)
      (omega arith, (omega arith, (omega arith, tt))) (omega arith)
