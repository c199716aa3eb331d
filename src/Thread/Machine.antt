-- ===== src/Thread/Machine.antt =====
-- The memory services of the kernel behind the scheduler: the heap of Kmalloc, the capability tables
-- of Cap on it, the page allocator of Pmm and the page tables of Pmap.
use mkrn.Prelude.{
  ℕ, ◌+◌, ◌/◌, ◌^◌, ◌≤◌, ◌<◌, ◌≡◌, ◌≢◌, refl, ap, ◌∙◌, arith, add32, ◌==◌, if◌then◌else◌, true,
  Option, none, some, List, Outcome, done, ◌>>=◌,
}
use mkrn.Pmm.{bit_test, Pmm, pmm_alloc}
use mkrn.Pmap.{Tables, pte_addr, page_offset, vmm_map, vmm_extract}
use mkrn.Pmap.Map.{vmm_extract-address}
use mkrn.Pmap.Pages.{IsPaged, room, missing-≤, pmm_alloc-IsPaged}
use mkrn.Pmap.Places.{done_if, place, place-vmm_map}
use mkrn.Kmalloc.{Kheap, kmalloc}
use mkrn.Kmalloc.Client.{kernel_heap}
use mkrn.Cap.{Captbl, captbl_create}
use mkrn.Thread.{
  ready, Sched, switch_to, Memory, kernel_page, thread_create_user, user_enter, thread_trampoline,
}
use mkrn.Thread.Ring.{NotIn}
use mkrn.Thread.Create.{Queue, enqueue}
use mkrn.Thread.User.{thread_create_user-Queue}

pub record Machine : Type 0 where
  pub heap : Kheap
  pub pmm : Pmm
  pub tables : Tables

abbrev table_address : Option Captbl → ℕ
table_address none = 0
table_address (some t) = t.self

unfoldable pub new_table : Machine → Outcome (ℕ × Machine)
unfolding kernel_heap
new_table m =
    captbl_create kernel_heap m.heap >>= (λ r. done (table_address r.0, record m { heap = r.1 }))

abbrev pub machine : Memory
machine = record {
  State = Machine;
  kmalloc = λ m n. kmalloc m.heap n >>= (λ r. done (r.0, record m { heap = r.1 }));
  pmm_alloc = λ m. ((pmm_alloc m.pmm).0, record m { pmm = (pmm_alloc m.pmm).1 });
  vmm_map = λ m va pa flags.
      vmm_map pmm_alloc m.pmm m.tables va pa flags
      >>= (λ r. done (true, record m { pmm = r.0; tables = r.1 }));
  captbl_create = new_table;
  rcr3 = λ m. m.tables.cr3;
}

-- On the heap, the page allocator and the page tables of the kernel, with the tables in busy pages,
-- with two pages in the window free from the cursor on, and where kmalloc hands out a block that is
-- no thread of the ring: thread_create_user with an entry other than 0 returns that block as a
-- thread. Its kernel stack is a page that was free, mapped at the next address for stacks, and
-- vmm_extract changes nowhere else; the tables stay in busy pages. The thread is ready and stands in
-- the ring behind the head, all others in their order. Its saved registers make swtch() go to
-- thread_trampoline() with interrupts on; when the scheduler switches to it, thread_trampoline enters
-- ring 3 at the entry and with the stack given, and the tss has the end of that page.
pub thread_create_user_lem :
    (w : Machine) (h : Kheap) (s : Sched) (ring : List ℕ) (tr p task e u : ℕ)
    → kmalloc w.heap 40 ≡ done (p, h)
    → p ≢ 0
    → IsPaged w.pmm w.tables
    → 2 ≤ room w.pmm w.tables
    → Queue s ring
    → NotIn p ring
    → e ≢ 0
    → (r : Machine) × (s' : Sched) × (thread_create_user machine tr w s task e u ≡ done (p, r, s'))
      × (r.heap ≡ h)
      × IsPaged r.pmm r.tables
      × (bit_test w.pmm ((pmm_alloc w.pmm).0 / 4096) ≡ 0)
      × ((v : ℕ)
          → v < 2 ^ 32
          → vmm_extract pmm_alloc r.pmm r.tables v ≡ (
              if v / 4096 == add32 s.next_thread_va 4096 / 4096
              then done ((pmm_alloc w.pmm).0 + page_offset v)
              else vmm_extract pmm_alloc w.pmm w.tables v))
      × Queue s' (enqueue ring p)
      × ((s'.thread p).state ≡ ready)
      × ((s'.thread p).saved.eip ≡ tr)
      × ((s'.thread p).saved.eflags ≡ 0x202)
      × (thread_trampoline (switch_to s' p) ≡ user_enter e u)
      × ((switch_to s' p).tss_esp0 ≡ add32 (add32 s.next_thread_va 4096) 4096)
thread_create_user_lem w h s ring tr p task e u k nz paged two q n nu =
    let va : ℕ = add32 s.next_thread_va 4096 in
    let pa : ℕ = (pmm_alloc w.pmm).0 in
    let w1 : Machine = record w { heap = h } in
    let w2 : Machine = record w1 { pmm = (pmm_alloc w.pmm).1 } in
    let (g, paged1, one) = pmm_alloc-IsPaged w.pmm w.tables paged (omega arith) in
    let (t, run, paged2, end, few, full, grew, sees) =
      place-vmm_map (pmm_alloc w.pmm).1 w.tables va pa kernel_page paged1
        (omega (arith, one, missing-≤ w.tables va)) (omega arith) in
    let r : Machine = record w2 { pmm = t.0; tables = t.1 } in
    let aligned : pte_addr pa ≡ pa = omega (arith, g.address) in
    let (s', run', queue, is_ready, eip, eflags, first, kstack) =
      thread_create_user-Queue machine w w1 w2 r s ring tr p pa task e u
        (ap (λ o. o >>= (λ q. done (q.0, record w { heap = q.1 }))) k) nz refl
        (λ x. absurd (omega (arith, x, g.address)))
        (ap (λ o. o >>= (λ q. done (true, record w2 { pmm = q.0; tables = q.1 }))) run) q n nu in
    (
      r,
      s',
      run',
      refl,
      paged2,
      (let at : pa / 4096 ≡ g.page = omega (arith, g.address) in
          ap (bit_test w.pmm) at ∙ g.was_free),
      λ v l.
          vmm_extract-address pmm_alloc t.0 t.1 v paged2.tables
          ∙ (ap done (
                sees v l
                ∙ ap (λ a. if v / 4096 == va / 4096 then a + page_offset v else place w.tables v)
                    aligned)
              ∙ done_if (v / 4096 == va / 4096) (pa + page_offset v) (place w.tables v) _
                  (vmm_extract-address pmm_alloc w.pmm w.tables v paged.tables)),
      queue,
      is_ready,
      eip,
      eflags,
      first,
      kstack,
    )
