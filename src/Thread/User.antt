-- ===== src/Thread/User.antt =====
-- thread_create_user: from the call to the moment the new thread enters ring 3.
use mkrn.Prelude.{
  ℕ, ◌≡◌, ◌≢◌, refl, ap, ◌∙◌, arith, ◌==◌, if◌then◌else◌, if_false, ap₂, true, false, List, [], ◌∷◌,
  add32, sub32, done,
}
use mkrn.Thread.{
  Thread, ready, running, Sched, set_thread, switch_to, thread_link, thread_init_context, Memory,
  pmm_enomem, kernel_page, stack_pages, thread_stack_alloc, thread_new, thread_create_user,
  user_enter, call_then_panic, thread_trampoline,
}
use mkrn.Thread.Store.{set_thread-same, set_thread-field}
use mkrn.Thread.Ring.{NotIn, Chain-ext}
use mkrn.Thread.Create.{Queue, Joined, enqueue, thread_link-Queue}

Queue-ext :
    (s s' : Sched) (ring : List ℕ)
    → s'.run_queue ≡ s.run_queue
    → ((q : ℕ) → (s'.thread q).next ≡ (s.thread q).next)
    → Queue s ring
    → Queue s' ring
Queue-ext s s' [] e same q = e ∙ q
Queue-ext s s' (r ∷ rs) e same q = (e ∙ q.0, q.1, Chain-ext s.thread s'.thread r r rs same q.2, q.3)

-- thread_stack_alloc after its work: the address of the next stack moves past this one.
abbrev advanced : Sched → Sched
advanced s = record s { next_thread_va = add32 (add32 (add32 s.next_thread_va 4096) 4096) 4096 }

-- thread_create_user behind thread_new.
abbrev prepared : ℕ → Sched → ℕ → ℕ → ℕ → Sched
prepared trampoline s p entry_va ustack_va =
    thread_init_context trampoline
      (set_thread s p (record (s.thread p) { user_entry = entry_va; user_stack = ustack_va })) p

module _ (m : Memory) where
  open m use {State, kmalloc, pmm_alloc, vmm_map}

  thread_new_lem :
      (w w1 w2 w3 : State) (s : Sched) (p pa task : ℕ)
      → kmalloc w 40 ≡ done (p, w1)
      → p ≢ 0
      → pmm_alloc w1 ≡ (pa, w2)
      → pa ≢ pmm_enomem
      → vmm_map w2 (add32 s.next_thread_va 4096) pa kernel_page ≡ done (true, w3)
      → thread_new m w s task
        ≡ done (p, w3, thread_link (advanced s) p (add32 s.next_thread_va 4096) task)
  unfolding thread_new thread_stack_alloc stack_pages
  thread_new_lem w w1 w2 w3 s p pa task k nz a ok v =
      let null : (p == 0) ≡ false = ground arith in
      let got : (pa == pmm_enomem) ≡ false = ground arith in rw (k, null, a, got, v)

prepared-thread :
    (tr : ℕ) (s : Sched) (p e u : ℕ)
    → (prepared tr s p e u).thread p ≡ record (s.thread p) {
      user_entry = e;
      user_stack = u;
      context = sub32 (add32 (s.thread p).stack 4096) 24;
      saved = record { edi = 0; esi = 0; ebx = 0; ebp = 0; eflags = 0x202; eip = tr };
    }
unfolding thread_init_context
prepared-thread tr s p e u =
    let with_user : Thread = record (s.thread p) { user_entry = e; user_stack = u } in
    set_thread-same (set_thread s p with_user) p _
    ∙ ap
        (λ (t : Thread). record t {
          context = sub32 (add32 t.stack 4096) 24;
          saved = record { edi = 0; esi = 0; ebx = 0; ebp = 0; eflags = 0x202; eip = tr };
        })
        (set_thread-same s p with_user)

prepared-next :
    (tr : ℕ) (s : Sched) (p e u q : ℕ) → ((prepared tr s p e u).thread q).next ≡ (s.thread q).next
unfolding thread_init_context
prepared-next tr s p e u q =
    set_thread-field (λ t. t.next)
      (set_thread s p (record (s.thread p) { user_entry = e; user_stack = u })) p q _ refl
    ∙ set_thread-field (λ t. t.next) s p q _ refl

prepared-run_queue :
    (tr : ℕ) (s : Sched) (p e u : ℕ) → (prepared tr s p e u).run_queue ≡ s.run_queue
unfolding thread_init_context
prepared-run_queue tr s p e u = refl

entered :
    (t : Thread) (e u : ℕ)
    → t.user_entry ≡ e
    → t.user_stack ≡ u
    → e ≢ 0
    → (if t.user_entry == 0 then call_then_panic t.entry else user_enter t.user_entry t.user_stack)
      ≡ user_enter e u
entered t e u he hu nz =
    if_false (t.user_entry == 0) (call_then_panic t.entry) _ (ground (arith, he, nz))
    ∙ ap₂ user_enter he hu

-- Running thread `p` for the first time.
first_run :
    (s : Sched) (p e u : ℕ)
    → (s.thread p).user_entry ≡ e
    → (s.thread p).user_stack ≡ u
    → e ≢ 0
    → thread_trampoline (switch_to s p) ≡ user_enter e u
unfolding thread_trampoline switch_to
first_run s p e u he hu nz =
    let same : (switch_to s p).thread p ≡ record (s.thread p) { state = running } =
      set_thread-same s p _ in
    entered ((switch_to s p).thread p) e u (ap (λ t. t.user_entry) same ∙ he)
      (ap (λ t. t.user_stack) same ∙ hu) nz

-- When the heap, the page allocator and vmm_map() have memory for it, thread_create_user with an
-- entry other than 0 returns a thread that is ready and, if it was not in the ring before,
-- stands there behind the head, all others in their order. Its saved registers make swtch() go
-- to thread_trampoline() with interrupts on; when the scheduler switches to it,
-- thread_trampoline enters ring 3 at the entry and with the stack given, and the tss has the end
-- of the page that is its kernel stack.
pub thread_create_user-Queue :
    (m : Memory) (w w1 w2 w3 : m.State) (s : Sched) (ring : List ℕ) (tr p pa task e u : ℕ)
    → m.kmalloc w 40 ≡ done (p, w1)
    → p ≢ 0
    → m.pmm_alloc w1 ≡ (pa, w2)
    → pa ≢ pmm_enomem
    → m.vmm_map w2 (add32 s.next_thread_va 4096) pa kernel_page ≡ done (true, w3)
    → Queue s ring
    → NotIn p ring
    → e ≢ 0
    → (s' : Sched) × (thread_create_user m tr w s task e u ≡ done (p, w3, s'))
      × Queue s' (enqueue ring p)
      × ((s'.thread p).state ≡ ready)
      × ((s'.thread p).saved.eip ≡ tr)
      × ((s'.thread p).saved.eflags ≡ 0x202)
      × (thread_trampoline (switch_to s' p) ≡ user_enter e u)
      × ((switch_to s' p).tss_esp0 ≡ add32 (add32 s.next_thread_va 4096) 4096)
unfolding thread_create_user switch_to
thread_create_user-Queue m w w1 w2 w3 s ring tr p pa task e u k nz a ok v q n h = (
  prepared tr x p e u,
  rw (thread_new_lem m w w1 w2 w3 s p pa task k nz a ok v),
  Queue-ext x (prepared tr x p e u) (enqueue ring p) (prepared-run_queue tr x p e u)
      (prepared-next tr x p e u) made.0,
  ap (λ t. t.state) new ∙ made.1.is_ready,
  ap (λ t. t.saved.eip) new,
  ap (λ t. t.saved.eflags) new,
  first_run (prepared tr x p e u) p e u (ap (λ t. t.user_entry) new) (ap (λ t. t.user_stack) new) h,
  ap (λ t. add32 t.stack t.stack_size) new ∙ ap₂ add32 made.1.stack made.1.stack_size,
)
  where
    x : Sched
    x = thread_link (advanced s) p (add32 s.next_thread_va 4096) task

    made : Queue x (enqueue ring p) × Joined (advanced s) p (add32 s.next_thread_va 4096) task x
    made =
        thread_link-Queue (advanced s) ring p (add32 s.next_thread_va 4096) task
          (Queue-ext s (advanced s) ring refl (λ _. refl) q) nz n

    new : (prepared tr x p e u).thread p ≡ record (x.thread p) {
      user_entry = e;
      user_stack = u;
      context = sub32 (add32 (x.thread p).stack 4096) 24;
      saved = record { edi = 0; esi = 0; ebx = 0; ebp = 0; eflags = 0x202; eip = tr };
    }
    new = prepared-thread tr x p e u
