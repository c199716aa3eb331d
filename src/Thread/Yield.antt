-- ===== src/Thread/Yield.antt =====
-- yield, scheduler_tick and scheduler_start on the ring of threads.
use mkrn.Prelude.{
  ℕ, zero, suc, ◌≡◌, ◌≢◌, refl, ap, sym, subst, ◌∙◌, arith, ◌==◌, if_true, if_false, ap₂, true,
  false, ◌||◌, List, [], ◌∷◌, ◌++◌, length, append_assoc, append-nil, add32, sub32, done, panic,
  sched_no_thread,
}
use mkrn.Thread.{
  Context, swtch_save, Thread, ready, running, Sched, set_thread, switch_to, yield, scheduler_tick,
  scheduler_start,
}
use mkrn.Thread.Store.{set_thread-same, set_thread-other, set_thread-field}
use mkrn.Thread.Ring.{
  Chain, Distinct, AllReady, Chain-append, Chain-ext, Distinct-rotate, AllReady-away,
  AllReady-append,
}

-- The ring that the current thread `c` and the threads `rs` after it form, in turn.
pub record Sound (s : Sched) (c : ℕ) (rs : List ℕ) : Type 0 where
  pub is_current : s.current ≡ c
  pub not_null : c ≢ 0
  pub runs : (s.thread c).state ≡ running
  pub ring : Chain s.thread c rs c
  pub distinct : Distinct (c ∷ rs)
  pub wait : AllReady s.thread rs
  pub kstack : s.tss_esp0 ≡ add32 (s.thread c).stack (s.thread c).stack_size

abbrev pub Runs : Sched → List ℕ → Type 0
Runs s [] = ⊥
Runs s (c ∷ rs) = Sound s c rs

-- The state after a switch from `c` to the next thread `x`.
switched : Sched → ℕ → ℕ → Sched
switched s c x = switch_to (set_thread s c (record (s.thread c) { state = ready })) x

-- The state after yield() has switched and swtch() has saved the registers of `c`.
swapped : Context → ℕ → Sched → ℕ → ℕ → Sched
swapped regs esp s c x = swtch_save regs esp (switched s c x) c

stays : (c n : ℕ) → n ≡ c → (c == 0 || n == c) ≡ true
stays c n e = ground arith

moves : (c n : ℕ) → c ≢ 0 → c ≢ n → (c == 0 || n == c) ≡ false
moves c n h e = ground arith

next_of :
    (s : Sched) (c x : ℕ) → s.current ≡ c → (s.thread c).next ≡ x → (s.thread s.current).next ≡ x
next_of s c x e h = ap (λ q. (s.thread q).next) e ∙ h

yield_alone : (regs : Context) (esp : ℕ) (s : Sched) (c : ℕ) → Sound s c [] → yield regs esp s ≡ s
unfolding yield
yield_alone regs esp s c v =
    if_true (s.current == 0 || (s.thread s.current).next == s.current) s _
      (stays s.current _ (next_of s c c v.is_current v.ring ∙ sym v.is_current))

yield_next :
    (regs : Context) (esp : ℕ) (s : Sched) (c x : ℕ) (xs : List ℕ)
    → Sound s c (x ∷ xs)
    → yield regs esp s ≡ swapped regs esp s c x
unfolding yield swapped switched
yield_next regs esp s c x xs v =
    let e : (s.thread s.current).next ≡ x = next_of s c x v.is_current v.ring.0 in
    if_false (s.current == 0 || (s.thread s.current).next == s.current) s
      (swapped regs esp s s.current (s.thread s.current).next)
      (moves s.current _ (λ z. v.not_null (sym v.is_current ∙ z))
        (λ z. v.distinct.0.0 (sym v.is_current ∙ z ∙ e)))
    ∙ ap₂ (swapped regs esp s) v.is_current e

switched-next : (s : Sched) (c x q : ℕ) → ((switched s c x).thread q).next ≡ (s.thread q).next
unfolding switched switch_to
switched-next s c x q =
    set_thread-field (λ t. t.next) (set_thread s c (record (s.thread c) { state = ready })) x q _
      refl
    ∙ set_thread-field (λ t. t.next) s c q _ refl

-- After a switch the old thread waits, the new one runs, and the others are as they were.
switched-old : (s : Sched) (c x : ℕ) → c ≢ x → ((switched s c x).thread c).state ≡ ready
unfolding switched switch_to
switched-old s c x n =
    ap (λ t. t.state)
      (set_thread-other (set_thread s c (record (s.thread c) { state = ready })) x c _ n)
    ∙ ap (λ t. t.state) (set_thread-same s c _)

switched-new : (s : Sched) (c x : ℕ) → ((switched s c x).thread x).state ≡ running
unfolding switched switch_to
switched-new s c x =
    ap (λ t. t.state) (set_thread-same (set_thread s c (record (s.thread c) { state = ready })) x _)

switched-rest : (s : Sched) (c x q : ℕ) → q ≢ c → q ≢ x → (switched s c x).thread q ≡ s.thread q
unfolding switched switch_to
switched-rest s c x q n m =
    set_thread-other (set_thread s c (record (s.thread c) { state = ready })) x q _ m
    ∙ set_thread-other s c q _ n

switched-kstack :
    (s : Sched) (c x : ℕ)
    → (switched s c x).tss_esp0
      ≡ add32 ((switched s c x).thread x).stack ((switched s c x).thread x).stack_size
unfolding switched switch_to
switched-kstack s c x = sym (
    ap (λ t. add32 t.stack t.stack_size)
      (set_thread-same (set_thread s c (record (s.thread c) { state = ready })) x _))

switched-current : (s : Sched) (c x : ℕ) → (switched s c x).current ≡ x
unfolding switched switch_to
switched-current s c x = refl

-- The saved registers change none of this.
module _ (regs : Context) (esp : ℕ) (s : Sched) (c x : ℕ) where
  swapped-field {ℓ} :
      {A : Type ℓ} (f : Thread → A) (q : ℕ)
      → f (record ((switched s c x).thread c) { context = sub32 esp 20; saved = regs })
        ≡ f ((switched s c x).thread c)
      → f ((swapped regs esp s c x).thread q) ≡ f ((switched s c x).thread q)
  unfolding swapped swtch_save
  swapped-field f q e = set_thread-field f (switched s c x) c q _ e

  swapped-rest : (q : ℕ) → q ≢ c → q ≢ x → (swapped regs esp s c x).thread q ≡ s.thread q
  unfolding swapped swtch_save
  swapped-rest q n m = set_thread-other (switched s c x) c q _ n ∙ switched-rest s c x q n m

  swapped-current : (swapped regs esp s c x).current ≡ x
  unfolding swapped swtch_save
  swapped-current = switched-current s c x

  swapped-kstack :
      (swapped regs esp s c x).tss_esp0
      ≡ add32
          ((swapped regs esp s c x).thread x).stack
          ((swapped regs esp s c x).thread x).stack_size
  swapped-kstack =
      same ∙ switched-kstack s c x ∙ sym (swapped-field (λ t. add32 t.stack t.stack_size) x refl)
    where
      same : (swapped regs esp s c x).tss_esp0 ≡ (switched s c x).tss_esp0
      same = unfold swapped swtch_save in refl

  swapped-next : (q : ℕ) → ((swapped regs esp s c x).thread q).next ≡ (s.thread q).next
  swapped-next q = swapped-field (λ t. t.next) q refl ∙ switched-next s c x q

  -- From the state of a sound ring a switch to the next thread leads to the state of the ring
  -- that is turned by one.
  swapped-Sound :
      (xs : List ℕ) → Sound s c (x ∷ xs) → Sound (swapped regs esp s c x) x (xs ++ c ∷ [])
  swapped-Sound xs v = record {
    is_current = swapped-current;
    not_null = v.wait.0;
    runs = swapped-field (λ t. t.state) x refl ∙ switched-new s c x;
    ring =
        Chain-append (swapped regs esp s c x).thread x x c xs
          (Chain-ext s.thread (swapped regs esp s c x).thread x c xs swapped-next v.ring.1)
          (swapped-next c ∙ v.ring.0);
    distinct = Distinct-rotate c (x ∷ xs) v.distinct;
    wait =
        AllReady-append (swapped regs esp s c x).thread xs (c ∷ [])
          (AllReady-away s.thread (swapped regs esp s c x).thread c x xs v.distinct.0.1
            v.distinct.1.0 swapped-rest v.wait.2)
          (v.not_null, swapped-field (λ t. t.state) c refl ∙ switched-old s c x v.distinct.0.0, tt);
    kstack = swapped-kstack;
  }

-- While the current thread `c` stands in a ring with the waiting threads `rs`, yield() gives the
-- processor to the first of `rs`, moves `c` to the end and keeps everything that is sound about
-- the ring: one thread runs, the others are ready, and the kernel stack in the tss is that of the
-- thread that runs. With `rs` empty `c` goes on.
yield-Runs :
    (regs : Context) (esp : ℕ) (s : Sched) (c : ℕ) (rs : List ℕ)
    → Runs s (c ∷ rs)
    → Runs (yield regs esp s) (rs ++ c ∷ [])
yield-Runs regs esp s c [] v = subst (λ w. Sound w c []) (sym (yield_alone regs esp s c v)) v
yield-Runs regs esp s c (x ∷ xs) v =
    subst (λ w. Sound w x (xs ++ c ∷ [])) (sym (yield_next regs esp s c x xs v))
      (swapped-Sound regs esp s c x xs v)

-- The threads that get the processor in `n` ticks, and the state after them; `at` gives the
-- registers with which the running thread comes to each of the ticks.
unfoldable pub ticks : (ℕ → Context × ℕ) → ℕ → Sched → List ℕ × Sched
ticks at zero s = ([], s)
ticks at (suc n) s =
    let (served, s') = ticks (λ k. at (suc k)) n (scheduler_tick (at 0).0 (at 0).1 s) in
    (s.current ∷ served, s')

turn :
    (at : ℕ → Context × ℕ) (xs ys : List ℕ) (s : Sched)
    → Runs s (xs ++ ys)
    → ((ticks at (length xs) s).0 ≡ xs) × Runs (ticks at (length xs) s).1 (ys ++ xs)
unfolding ticks scheduler_tick
turn at [] ys s v = (refl, subst (Runs s) (sym (append-nil ys)) v)
turn at (x ∷ xs) ys s v =
    let s' : Sched = yield (at 0).0 (at 0).1 s in
    let later : ℕ → Context × ℕ = λ k. at (suc k) in
    let next : Runs s' ((xs ++ ys) ++ x ∷ []) = yield-Runs (at 0).0 (at 0).1 s x (xs ++ ys) v in
    let there : ((ticks later (length xs) s').0 ≡ xs)
        × Runs (ticks later (length xs) s').1 ((ys ++ x ∷ []) ++ xs) =
      turn later xs (ys ++ x ∷ []) s' (subst (Runs s') (append_assoc xs ys (x ∷ [])) next) in
    (
      ap₂ (λ a b. a ∷ b) v.is_current there.0,
      subst (Runs (ticks later (length xs) s').1) (append_assoc ys (x ∷ []) xs) there.1,
    )

-- The scheduler is fair: as many ticks as there are threads in the ring give the processor to
-- each of them, one time each and in the order of the ring, and restore the ring, whatever the
-- registers of the threads are at the ticks.
pub round_robin :
    (at : ℕ → Context × ℕ) (s : Sched) (ring : List ℕ)
    → Runs s ring
    → ((ticks at (length ring) s).0 ≡ ring) × Runs (ticks at (length ring) s).1 ring
round_robin at s ring v = turn at ring [] s (subst (Runs s) (sym (append-nil ring)) v)

-- When the run queue's ring is of distinct threads that are all ready, scheduler_start does not
-- panic, and the head of the queue runs, with its kernel stack in the tss and the others ready
-- behind it.
scheduler_start-Runs :
    (s : Sched) (rs : List ℕ)
    → Chain s.thread s.run_queue rs s.run_queue
    → Distinct (s.run_queue ∷ rs)
    → AllReady s.thread (s.run_queue ∷ rs)
    → (s' : Sched) × (scheduler_start s ≡ done s') × Runs s' (s.run_queue ∷ rs)
unfolding scheduler_start switch_to
scheduler_start-Runs s rs ring d ok =
    let p : ℕ = s.run_queue in
    let t : Thread = record (s.thread p) { state = running } in
    let first : (set_thread s p t).thread p ≡ t = set_thread-same s p t in
    (
      switch_to s p,
      if_false (p == 0) (panic sched_no_thread) (done (switch_to s p)) (ground (arith, ok.0)),
      record {
        is_current = refl;
        not_null = ok.0;
        runs = ap (λ u. u.state) first;
        ring =
            Chain-ext s.thread (set_thread s p t).thread p p rs
              (λ q. set_thread-field (λ u. u.next) s p q t refl) ring;
        distinct = d;
        wait =
            AllReady-away s.thread (set_thread s p t).thread p p rs d.0 d.0
              (λ q n m. set_thread-other s p q t n) ok.2;
        kstack = sym (ap (λ u. add32 u.stack u.stack_size) first);
      },
    )
