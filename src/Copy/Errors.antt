-- ===== src/Copy/Errors.antt =====
-- The loop reports an error only if a call of read() or write() fails.
use mkrn.Prelude.{
  ℕ, zero, suc, ◌≡◌, ◌≢◌, refl, Bool, true, false, Option, none, some, List, [], ◌∷◌, Outcome, done,
  length, ◌>>=◌,
}
use mkrn.Path.{drop}
use mkrn.Copy.{
  Streams, Read, bytes, failed, Copied, copied, after_write, write_all, after_buffer, after_read,
  copy_loop,
}

-- No call fails.
pub record NeverFail (os : Streams) (from to : ℕ) : Type 0 where
  pub reads : (w : os.World) → (os.read from w).0 ≢ failed
  pub writes : (w : os.World) (c : ℕ) (buf : List ℕ) → (os.write to (c ∷ buf) w).0 ≢ none

module _ (os : Streams) (from to : ℕ) (sound : NeverFail os from to) where
  open os use {World, read, write}

  after_write-true :
      (again : List ℕ → World → Outcome (Bool × World)) (buf : List ℕ) (o : Option ℕ × World)
      (r : Bool × World)
      → ((b : List ℕ) (v : World) → again b v ≡ done r → r.0 ≡ true)
      → o.0 ≢ none
      → after_write os again buf o ≡ done r
      → r.0 ≡ true
  unfolding after_write
  after_write-true again buf (none, w) r step ne e = absurd (ne refl)
  after_write-true again buf (some n, w) r step ne e = step (drop n buf) w e

  write_all-true :
      (fuel : ℕ) (buf : List ℕ) (w : World) (r : Bool × World)
      → write_all os fuel to buf w ≡ done r
      → r.0 ≡ true
  unfolding write_all
  write_all-true fuel [] w r e = cc
  write_all-true zero (c ∷ buf) w r e = cc
  write_all-true (suc fuel) (c ∷ buf) w r e =
      after_write-true (λ b v. write_all os fuel to b v) (c ∷ buf) (write to (c ∷ buf) w) r
        (λ b v. write_all-true fuel b v r) (sound.writes w c buf) e

  after_buffer_copied :
      (again : World → Outcome (Copied × World)) (o : Outcome (Bool × World)) (r : Copied × World)
      → ((b : Bool × World) → o ≡ done b → b.0 ≡ true)
      → ((v : World) → again v ≡ done r → r.0 ≡ copied)
      → (o >>= after_buffer os again) ≡ done r
      → r.0 ≡ copied
  unfolding after_buffer
  after_buffer_copied again (done (true, v)) r all step e = step v e
  after_buffer_copied again (done (false, v)) r all step e = cc (all (false, v) refl)
  after_buffer_copied again o r all step e = cc

  after_read_copied :
      (again : World → Outcome (Copied × World)) (o : Read × World) (r : Copied × World)
      → ((v : World) → again v ≡ done r → r.0 ≡ copied)
      → o.0 ≢ failed
      → after_read os again to o ≡ done r
      → r.0 ≡ copied
  unfolding after_read
  after_read_copied again (failed, w) r step ne e = absurd (ne refl)
  after_read_copied again (bytes [], w) r step ne e = cc
  after_read_copied again (bytes (c ∷ buf), w) r step ne e =
      after_buffer_copied again (write_all os (suc (length buf)) to (c ∷ buf) w) r
        (write_all-true (suc (length buf)) (c ∷ buf) w) step e

  pub copy_loop_copied :
      (fuel : ℕ) (w : World) (r : Copied × World)
      → copy_loop os fuel from to w ≡ done r
      → r.0 ≡ copied
  unfolding copy_loop
  copy_loop_copied zero w r e = cc
  copy_loop_copied (suc fuel) w r e =
      after_read_copied (λ v. copy_loop os fuel from to v) (read from w) r
        (λ v. copy_loop_copied fuel v r) (sound.reads w) e
