-- ===== src/Thread/Create.antt =====
-- thread_new, thread_create and thread_create_user: the new thread and its place in the ring.
use mkrn.Prelude.{
  ℕ, ◌≡◌, ◌≢◌, refl, ap, sym, subst, ◌∙◌, arith, ◌==◌, ==_iff, if_true, if_false, Bool-cases, inl,
  inr, List, [], ◌∷◌,
}
use mkrn.Thread.{Thread, ready, Sched, set_thread, set_task, thread_link}
use mkrn.Thread.Store.{set_thread-same, set_thread-other}
use mkrn.Thread.Ring.{Chain, NotIn, Distinct, Chain-away}

-- The run queue holds the ring of the threads in the list, and nothing when that is empty.
abbrev pub Queue : Sched → List ℕ → Type 0
Queue s [] = s.run_queue ≡ 0
Queue s (r ∷ rs) = (s.run_queue ≡ r) × (r ≢ 0) × Chain s.thread r rs r × Distinct (r ∷ rs)

-- A new thread enters the ring behind its head.
abbrev pub enqueue : List ℕ → ℕ → List ℕ
enqueue [] p = p ∷ []
enqueue (r ∷ rs) p = r ∷ p ∷ rs

-- What thread_link makes of the threads, with the head of the queue as an argument.
linked : Sched → ℕ → ℕ → Thread → Sched
linked s r p t =
    let placed : Sched = set_thread s p (record t { next = (s.thread r).next }) in
    set_thread placed r (record (placed.thread r) { next = p })

linked-rest :
    (s : Sched) (r p q : ℕ) (t : Thread) → q ≢ p → q ≢ r → (linked s r p t).thread q ≡ s.thread q
unfolding linked
linked-rest s r p q t n m =
    set_thread-other (set_thread s p (record t { next = (s.thread r).next })) r q _ m
    ∙ set_thread-other s p q _ n

linked-new :
    (s : Sched) (r p : ℕ) (t : Thread)
    → p ≢ r
    → (linked s r p t).thread p ≡ record t { next = (s.thread r).next }
unfolding linked
linked-new s r p t n =
    set_thread-other (set_thread s p (record t { next = (s.thread r).next })) r p _ n
    ∙ set_thread-same s p _

linked-head :
    (s : Sched) (r p : ℕ) (t : Thread)
    → r ≢ p
    → (linked s r p t).thread r ≡ record (s.thread r) { next = p }
unfolding linked
linked-head s r p t n =
    set_thread-same (set_thread s p (record t { next = (s.thread r).next })) r _
    ∙ ap (λ (u : Thread). record u { next = p }) (set_thread-other s p r _ n)

linked-Chain :
    (s : Sched) (r p : ℕ) (rs : List ℕ) (t : Thread)
    → Distinct (r ∷ rs)
    → NotIn p (r ∷ rs)
    → Chain s.thread r rs r
    → Chain (linked s r p t).thread r (p ∷ rs) r
linked-Chain s r p rs t d n ring = (
  ap (λ u. u.next) (linked-head s r p t (λ e. n.0 (sym e))),
  Chain-away s.thread (linked s r p t).thread r p r p r rs n.1 d.0 (λ q. linked-rest s r p q t)
      (ap (λ u. u.next) (linked-new s r p t n.0)) ring,
)

-- The struct that thread_new fills, before it enters the ring.
abbrev fresh : Sched → ℕ → ℕ → ℕ → Thread
fresh s p stack task = record (s.thread p) {
  stack = stack;
  stack_size = 4096;
  entry = 0;
  user_entry = 0;
  user_stack = 0;
  state = ready;
  task = task;
  task_next = (s.task task).threads;
}

thread_link_empty :
    (s : Sched) (p stack task : ℕ)
    → s.run_queue ≡ 0
    → thread_link s p stack task
      ≡ set_task
          (record (set_thread s p (record (fresh s p stack task) { next = p })) { run_queue = p })
          task
          (record (s.task task) { threads = p })
unfolding thread_link
thread_link_empty s p stack task e =
    ap (λ w. set_task w task (record (s.task task) { threads = p }))
      (if_true (s.run_queue == 0) _ _ (ground (arith, e)))

thread_link_behind :
    (s : Sched) (p stack task : ℕ)
    → s.run_queue ≢ 0
    → thread_link s p stack task
      ≡ set_task
          (linked s s.run_queue p (fresh s p stack task))
          task
          (record (s.task task) { threads = p })
unfolding thread_link linked
thread_link_behind s p stack task n =
    ap (λ w. set_task w task (record (s.task task) { threads = p }))
      (if_false (s.run_queue == 0) _ _ (ground (arith, n)))

-- What a new thread is like: ready, with its stack and its task, at the head of the task's list;
-- the other threads keep their states, the other tasks are as before.
pub record Joined (s : Sched) (p st k : ℕ) (s' : Sched) : Type 0 where
  pub is_ready : (s'.thread p).state ≡ ready
  pub stack : (s'.thread p).stack ≡ st
  pub stack_size : (s'.thread p).stack_size ≡ 4096
  pub task : (s'.thread p).task ≡ k
  pub task_next : (s'.thread p).task_next ≡ (s.task k).threads
  pub threads : (s'.task k).threads ≡ p
  pub others : (q : ℕ) → q ≢ p → (s'.thread q).state ≡ (s.thread q).state
  pub tasks : (q : ℕ) → q ≢ k → s'.task q ≡ s.task q
  pub current : s'.current ≡ s.current

Joined-of :
    (s w : Sched) (p st k n : ℕ)
    → w.thread p ≡ record (fresh s p st k) { next = n }
    → ((q : ℕ) → q ≢ p → (w.thread q).state ≡ (s.thread q).state)
    → ((q : ℕ) → w.task q ≡ s.task q)
    → w.current ≡ s.current
    → Joined s p st k (set_task w k (record (s.task k) { threads = p }))
Joined-of s w p st k n e others tasks c = record {
  is_ready = ap (λ u. u.state) e;
  stack = ap (λ u. u.stack) e;
  stack_size = ap (λ u. u.stack_size) e;
  task = ap (λ u. u.task) e;
  task_next = ap (λ u. u.task_next) e;
  threads =
      ap (λ u. u.threads)
        (if_true (k == k) (record (s.task k) { threads = p }) (w.task k) (ground arith));
  others = others;
  tasks = λ q m. if_false (q == k) _ (w.task q) (ground arith) ∙ tasks q;
  current = c;
}

linked-state :
    (s : Sched) (r p q : ℕ) (t : Thread)
    → r ≢ p
    → q ≢ p
    → ((linked s r p t).thread q).state ≡ (s.thread q).state
linked-state s r p q t d n = elim (Bool-cases (q == r)) [
  | inl e ↦
      let same : q ≡ r = (==_iff q r).0 e in
      ap (λ k. ((linked s r p t).thread k).state) same
      ∙ ap (λ u. u.state) (linked-head s r p t d)
      ∙ ap (λ k. (s.thread k).state) (sym same)
  | inr e ↦ ap (λ u. u.state) (linked-rest s r p q t n (ground arith))
]

-- thread_link, the part of thread_new behind its allocations, puts a thread that is not in the
-- ring yet directly behind the head of the run queue, and the ring stays one; with an empty
-- queue the thread becomes a ring of its own. It is ready, with its stack and its task, and the
-- first of the task's threads; the states of the other threads, the other tasks and the current
-- thread are as before.
pub thread_link-Queue :
    (s : Sched) (ring : List ℕ) (p stack task : ℕ)
    → Queue s ring
    → p ≢ 0
    → NotIn p ring
    → Queue (thread_link s p stack task) (enqueue ring p)
      × Joined s p stack task (thread_link s p stack task)
unfolding linked
thread_link-Queue s [] p stack task q nz n =
    subst (λ w. Queue w (p ∷ []) × Joined s p stack task w)
      (sym (thread_link_empty s p stack task q))
      (
        (refl, nz, ap (λ u. u.next) alone, (tt, tt)),
        Joined-of s _ p stack task p alone (λ q m. ap (λ u. u.state) (set_thread-other s p q _ m))
            (λ q. refl) refl,
      )
  where
    alone :
        (set_thread s p (record (fresh s p stack task) { next = p })).thread p
        ≡ record (fresh s p stack task) { next = p }
    alone = set_thread-same s p _
thread_link-Queue s (r ∷ rs) p stack task q nz n =
    subst (λ w. Queue w (r ∷ p ∷ rs) × Joined s p stack task w) (sym shape)
      (
        (q.0, q.1, linked-Chain s r p rs t q.3 n q.2, (((λ e. n.0 (sym e)), q.3.0), (n.1, q.3.1))),
        Joined-of s (linked s r p t) p stack task (s.thread r).next (linked-new s r p t n.0)
            (λ k m. linked-state s r p k t (λ e. n.0 (sym e)) m) (λ q. refl) refl,
      )
  where
    t : Thread
    t = fresh s p stack task

    shape :
        thread_link s p stack task
        ≡ set_task (linked s r p t) task (record (s.task task) { threads = p })
    shape =
        thread_link_behind s p stack task (λ z. q.1 (sym q.0 ∙ z))
        ∙ ap (λ k. set_task (linked s k p t) task (record (s.task task) { threads = p })) q.0
