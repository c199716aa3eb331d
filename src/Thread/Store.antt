-- ===== src/Thread/Store.antt =====
-- What a store to one thread's struct changes.
use mkrn.Prelude.{
  ℕ, ◌≡◌, ◌≢◌, ap, sym, ◌∙◌, arith, ◌==◌, ==_iff, if_true, if_false, Bool-cases, inl, inr,
}
use mkrn.Thread.{Thread, Sched, set_thread}

pub set_thread-same : (s : Sched) (p : ℕ) (t : Thread) → (set_thread s p t).thread p ≡ t
set_thread-same s p t = if_true (p == p) t (s.thread p) (ground arith)

pub set_thread-other :
    (s : Sched) (p q : ℕ) (t : Thread) → q ≢ p → (set_thread s p t).thread q ≡ s.thread q
set_thread-other s p q t n = if_false (q == p) t (s.thread q) (ground arith)

-- A struct replaced by one that agrees with it in a field changes that field nowhere.
pub set_thread-field {ℓ} :
    {A : Type ℓ} (f : Thread → A) (s : Sched) (p q : ℕ) (t : Thread)
    → f t ≡ f (s.thread p)
    → f ((set_thread s p t).thread q) ≡ f (s.thread q)
set_thread-field f s p q t e = elim (Bool-cases (q == p)) [
  | inl h ↦
      ap f (if_true (q == p) t (s.thread q) h)
      ∙ e
      ∙ ap (λ r. f (s.thread r)) (sym ((==_iff q p).0 h))
  | inr h ↦ ap f (if_false (q == p) t (s.thread q) h)
]
