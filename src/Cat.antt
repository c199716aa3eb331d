-- ===== src/Cat.antt =====
-- src/bin/cat/cat.c over the loop of Copy; what is written to stderr is left out. A status is true
-- where the source has 1.
pub mod Operands
pub mod Tests
use mkrn.Prelude.{
  ℕ, ◌||◌, if◌then◌else◌, Bool, true, false, Option, none, some, List, [], ◌∷◌, Outcome, done,
  ◌>>=◌,
}
use mkrn.Path.{same_text}
use mkrn.Copy.{Streams, Copied, copied, read_error, write_error, copy_loop}

abbrev stdin : ℕ
stdin = 0

abbrev stdout : ℕ
stdout = 1

copy_status : Copied → Bool
copy_status copied = false
copy_status read_error = true
copy_status write_error = true

-- `open_file` is open(path, O_RDONLY), and `rounds` bounds the calls of read() for a file.
module _ (os : Streams) (open_file : List ℕ → os.World → Option ℕ × os.World)
    (close : ℕ → os.World → os.World) (rounds : ℕ) where
  open os use {World}

  cat : ℕ → World → Outcome (Bool × World)
  cat fd w = do (r, w') ← copy_loop os rounds fd stdout w; done (copy_status r, w')

  cat_opened : Option ℕ × World → Outcome (Bool × World)
  cat_opened (none, w) = done (true, w)
  cat_opened (some fd, w) = do (failed, w') ← cat fd w; done (failed, close fd w')

  cat_operand : List ℕ → World → Outcome (Bool × World)
  cat_operand path w =
      if same_text path (b'-' ∷ []) then cat stdin w else cat_opened (open_file path w)

  pub cat_operands : List (List ℕ) → Bool → World → Outcome (Bool × World)
  cat_operands [] status w = done (status, w)
  cat_operands (path ∷ paths) status w = do
    (failed, w') ← cat_operand path w
    cat_operands paths (status || failed) w'

  -- main, behind getopt()
  main : List (List ℕ) → World → Outcome (Bool × World)
  main [] w = cat stdin w
  main (path ∷ paths) w = cat_operands (path ∷ paths) false w
