-- ===== src/Copy.antt =====
-- The loop of src/bin/cat/cat.c and of copy_regular in src/bin/cp/cp.c: read() into a buffer, and
-- write() until all of the buffer is written.
pub mod Loop
pub mod Errors
pub mod Tests
use mkrn.Prelude.{
  ℕ, zero, suc, Option, none, some, Bool, true, false, List, [], ◌∷◌, Outcome, done, out_of_fuel,
  length, ◌>>=◌,
}
use mkrn.Path.{drop}

-- read() gives the bytes, none at the end of the file; write() the number of bytes written, or fails.
pub data Read : Type 0 where
  bytes : List ℕ → Read
  failed : Read

pub record Streams : Type 1 where
  pub World : Type 0
  pub read : ℕ → World → Read × World
  pub write : ℕ → List ℕ → World → Option ℕ × World

pub data Copied : Type 0 where
  copied read_error write_error : Copied

module _ (os : Streams) where
  open os use {World, read, write}

  -- `for (off = 0; off < n; off += w)` over the bytes from `off` on
  pub after_write :
      (List ℕ → World → Outcome (Bool × World)) → List ℕ → Option ℕ × World → Outcome (Bool × World)
  after_write again buf (none, w) = done (false, w)
  after_write again buf (some n, w) = again (drop n buf) w

  pub write_all : ℕ → ℕ → List ℕ → World → Outcome (Bool × World)
  write_all fuel to [] w = done (true, w)
  write_all zero to (c ∷ buf) w = out_of_fuel
  write_all (suc fuel) to (c ∷ buf) w =
      after_write (λ b v. write_all fuel to b v) (c ∷ buf) (write to (c ∷ buf) w)

  -- `while ((n = read(...)) > 0)`, with each buffer written in as many rounds as it has bytes
  pub after_buffer : (World → Outcome (Copied × World)) → Bool × World → Outcome (Copied × World)
  after_buffer again (true, w) = again w
  after_buffer again (false, w) = done (write_error, w)

  pub after_read : (World → Outcome (Copied × World)) → ℕ → Read × World → Outcome (Copied × World)
  after_read again to (failed, w) = done (read_error, w)
  after_read again to (bytes [], w) = done (copied, w)
  after_read again to (bytes (c ∷ buf), w) =
      write_all (suc (length buf)) to (c ∷ buf) w >>= after_buffer again

  pub copy_loop : ℕ → ℕ → ℕ → World → Outcome (Copied × World)
  copy_loop zero from to w = out_of_fuel
  copy_loop (suc fuel) from to w = after_read (λ v. copy_loop fuel from to v) to (read from w)
