-- ===== src/Rm.antt =====
-- src/bin/rm/rm.c. A path is the list of its characters; what is written to stderr is left out.
pub mod Dots
pub mod Below
pub mod Gone
pub mod Tests
use mkrn.Prelude.{
  ℕ, zero, suc, ◌+◌, ltb, ◌==◌, ◌&&◌, ◌||◌, not, if◌then◌else◌, Bool, true, false, Option, none,
  some, List, [], ◌∷◌, ◌++◌, length, Outcome, done, out_of_fuel, ◌>>=◌,
}
use mkrn.Path.{slash, same_text, last_slash, after_slash}

pub record Flags : Type 0 where
  pub fflag : Bool
  pub iflag : Bool
  pub rflag : Bool

-- One round of the loop over the options, for a letter that getopt() has found; none is usage().
pub set_flag : ℕ → Flags → Option Flags
set_flag c fl =
    if c == b'f'
    then some (record fl { fflag = true; iflag = false })
    else if c == b'i'
    then some (record fl { iflag = true; fflag = false })
    else if (c == b'R') || (c == b'r')
    then some (record fl { rflag = true })
    else none

-- The system calls, over the state of the file system. lstat() gives whether the file is a
-- directory, opendir() the names that readdir() then returns one after another.
pub record Os : Type 1 where
  pub World : Type 0
  pub path_max : ℕ
  pub realpath : List ℕ → World → Option (List ℕ)
  pub lstat : List ℕ → World → Option Bool
  pub access : List ℕ → World → Bool
  pub isatty : World → Bool
  pub opendir : List ℕ → World → Option (List (List ℕ))
  pub unlink : List ℕ → World → Bool × World
  pub rmdir : List ℕ → World → Bool × World

-- The file system, what stands in front of stdin, and `status`.
pub record State (W : Type 0) : Type 0 where
  pub world : W
  pub input : List ℕ
  pub status : Bool

pub skip_line : List ℕ → List ℕ
skip_line [] = []
skip_line (c ∷ s) = let rest : List ℕ = skip_line s in if c == b'\n' then s else rest

pub confirm : List ℕ → Bool × List ℕ
confirm [] = (false, [])
confirm (c ∷ s) = ((c == b'y') || (c == b'Y'), skip_line (c ∷ s))

abbrev pub dot : List ℕ
dot = b'.' ∷ []

abbrev dotdot : List ℕ
dotdot = b'.' ∷ b'.' ∷ []

abbrev pub is_dot : List ℕ → Bool
is_dot name = same_text name dot || same_text name dotdot

pub isdotname : List ℕ → Bool
isdotname path = is_dot (after_slash path (last_slash path (length path)))

module _ (os : Os) where
  open os use {World, path_max, realpath, lstat, access, isatty, opendir, unlink, rmdir}

  pub isroot : List ℕ → World → Bool
  isroot path w = elim (realpath path w) [
    | none ↦ false
    | some resolved ↦ same_text resolved (slash ∷ [])
  ]

  abbrev pub fail : State World → State World
  fail s = record s { status = true }

  -- `!ask || confirm(...)`
  pub agreed : Bool → State World → Bool × State World
  agreed ask s =
      let (yes_said, rest) = confirm s.input in
      if ask then (yes_said, record s { input = rest }) else (true, s)

  -- What a call that may fail leaves.
  abbrev pub after_call : Bool × World → State World → State World
  after_call (ok, w) s = record s { world = w; status = s.status || not ok }

  -- The loop of rmtree, where `remove` is the call of rm.
  pub rm_entries :
      (List ℕ → State World → Outcome (State World))
      → List ℕ
      → List (List ℕ)
      → State World
      → Outcome (State World)
  rm_entries remove path [] s = done s
  rm_entries remove path (name ∷ names) s =
      let child : List ℕ = path ++ (slash ∷ name) in
      let skipped : Outcome (State World) = rm_entries remove path names s in
      let too_long : Outcome (State World) = rm_entries remove path names (fail s) in
      let removed : Outcome (State World) = remove child s >>= rm_entries remove path names in
      if is_dot name then skipped else if ltb (length child) path_max then removed else too_long

  pub rmtree :
      (List ℕ → State World → Outcome (State World)) → List ℕ → State World → Outcome (State World)
  rmtree remove path s = elim (opendir path s.world) [
    | none ↦ done (fail s)
    | some names ↦ rm_entries remove path names s
  ]

  -- The end of rm for a directory, behind rmtree, and for other files.
  pub rm_dir : Flags → List ℕ → State World → State World
  rm_dir fl path s =
      let (go, s') = agreed fl.iflag s in if go then after_call (rmdir path s'.world) s' else s'

  pub rm_file : Bool → List ℕ → State World → State World
  rm_file ask path s =
      let (go, s') = agreed ask s in if go then after_call (unlink path s'.world) s' else s'

  pub must_ask : Flags → List ℕ → World → Bool
  must_ask fl path w = not fl.fflag && ((not (access path w) && isatty w) || fl.iflag)

  pub rm_kind :
      (List ℕ → State World → Outcome (State World))
      → Flags
      → List ℕ
      → Option Bool
      → State World
      → Outcome (State World)
  rm_kind remove fl path none s = done (if fl.fflag then s else fail s)
  rm_kind remove fl path (some false) s = done (rm_file (must_ask fl path s.world) path s)
  rm_kind remove fl path (some true) s =
      let (go, s') = agreed (must_ask fl path s.world) s in
      let tree : Outcome (State World) = rmtree remove path s' in
      if not fl.rflag
      then done (fail s)
      else if go
      then tree >>= (λ t. done (rm_dir fl path t))
      else done s'

  -- rm, with the depth of its calls bounded by fuel.
  pub rm : ℕ → Flags → List ℕ → State World → Outcome (State World)
  rm zero fl path s = out_of_fuel
  rm (suc fuel) fl path s =
      if isdotname path || isroot path s.world
      then done (fail s)
      else rm_kind (λ child t. rm fuel fl child t) fl path (lstat path s.world) s

  -- The loop of main over the operands. A child's path is shorter than PATH_MAX and longer than its
  -- parent's, so that this depth is enough.
  rm_all : Flags → List (List ℕ) → State World → Outcome (State World)
  rm_all fl [] s = done s
  rm_all fl (path ∷ paths) s = do t ← rm (suc path_max) fl path s; rm_all fl paths t
