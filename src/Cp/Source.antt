-- ===== src/Cp/Source.antt =====
-- copy_dir, copy_source and main of src/bin/cp/cp.c.
use mkrn.Prelude.{
  ℕ, zero, suc, ◌&&◌, ◌||◌, not, if◌then◌else◌, Bool, true, false, Option, none, some, List, [],
  ◌∷◌, Outcome, done, out_of_fuel, ◌>>=◌,
}
use mkrn.FileMode.{Kind, regular, directory, symlink, is_directory}
use mkrn.Path.{same_text}
use mkrn.Rm.{State}
use mkrn.Cp.{
  follow, joinpath, destname, with_user, samefile, preserve, fail, with_world, copy_regular,
  copy_symlink, copy_special, Flags, Stat, Os,
}

module _ (os : Os) where
  open os.streams use {World}

  -- The loop of copy_dir, where `go` is the call of copy_source.
  copy_entries :
      (List ℕ → List ℕ → State World → Outcome (State World))
      → List ℕ
      → List ℕ
      → List (List ℕ)
      → State World
      → Outcome (State World)
  copy_entries go src dest [] s = done s
  copy_entries go src dest (name ∷ names) s =
      let skipped : Outcome (State World) = copy_entries go src dest names s in
      let entered : Outcome (State World) =
        go (joinpath src name) (joinpath dest name) s >>= copy_entries go src dest names in
      if same_text name (b'.' ∷ []) || same_text name (b'.' ∷ b'.' ∷ []) then skipped else entered

  -- The end of copy_dir, for a directory that it has made.
  set_created : Flags → List ℕ → Stat → State World → State World
  set_created fl dest sst s =
      if fl.pflag
      then with_world os s (preserve os dest sst s.world)
      else with_world os s (os.chmod dest (λ b. sst.mode b && not (os.umask s.world b)) s.world).1

  copy_names :
      (List ℕ → List ℕ → State World → Outcome (State World))
      → Flags
      → List ℕ
      → List ℕ
      → Stat
      → Bool
      → Option (List (List ℕ))
      → State World
      → Outcome (State World)
  copy_names go fl src dest sst created none s = done (fail os s)
  copy_names go fl src dest sst created (some names) s = do
    t ← copy_entries go src dest names s
    done (if created then set_created fl dest sst t else t)

  -- Whether `dest` is a directory, in copy_dir and in main.
  abbrev dir_stat : Option Stat → Bool
  dir_stat none = false
  dir_stat (some st) = is_directory st.kind

  copy_dir :
      (List ℕ → List ℕ → State World → Outcome (State World))
      → Flags
      → List ℕ
      → List ℕ
      → Stat
      → Bool
      → State World
      → Outcome (State World)
  copy_dir go fl src dest sst true s =
      if not (dir_stat (os.stat dest s.world))
      then done (fail os s)
      else copy_names go fl src dest sst false (os.opendir src s.world) s
  copy_dir go fl src dest sst false s =
      let (made, w) = os.mkdir dest (with_user sst.mode) s.world in
      if made
      then copy_names go fl src dest sst true (os.opendir src w) (with_world os s w)
      else done (record s { world = w; status = true })

  -- The branches of copy_source on the type of the source.
  copy_kind :
      ℕ
      → (List ℕ → List ℕ → State World → Outcome (State World))
      → Flags
      → List ℕ
      → List ℕ
      → Stat
      → Bool
      → Kind
      → State World
      → Outcome (State World)
  copy_kind rounds go fl src dest sst destexists directory s =
      if not fl.rflag then done (fail os s) else copy_dir go fl src dest sst destexists s
  copy_kind rounds go fl src dest sst destexists regular s =
      copy_regular os rounds fl src dest sst destexists s
  copy_kind rounds go fl src dest sst destexists symlink s =
      if fl.rflag then done (copy_symlink os src dest destexists s) else done (fail os s)
  copy_kind rounds go fl src dest sst destexists kind s =
      if fl.rflag then done (copy_special os fl dest sst destexists s) else done (fail os s)

  abbrev is_some : Option Stat → Bool
  is_some none = false
  is_some (some st) = true

  copy_found :
      ℕ
      → (List ℕ → List ℕ → State World → Outcome (State World))
      → Flags
      → List ℕ
      → List ℕ
      → Option Stat
      → State World
      → Outcome (State World)
  copy_found rounds go fl src dest none s = done (fail os s)
  copy_found rounds go fl src dest (some sst) s =
      let destexists : Bool = is_some (os.lstat dest s.world) in
      if destexists && samefile os src dest s.world
      then done (fail os s)
      else copy_kind rounds go fl src dest sst destexists sst.kind s

  -- copy_source, with the depth of its calls bounded by fuel and the calls of read() for a file by
  -- `rounds`.
  copy_source : ℕ → ℕ → Flags → List ℕ → List ℕ → Bool → State World → Outcome (State World)
  copy_source rounds zero fl src dest top s = out_of_fuel
  copy_source rounds (suc fuel) fl src dest top s =
      copy_found rounds (λ a b t. copy_source rounds fuel fl a b false t) fl src dest
        (if follow fl top then os.stat src s.world else os.lstat src s.world) s

  -- main behind the options: the sources, and the target.
  copy_all : ℕ → ℕ → Flags → List (List ℕ) → List ℕ → State World → Outcome (State World)
  copy_all rounds fuel fl [] target s = done s
  copy_all rounds fuel fl (src ∷ srcs) target s = do
    t ← copy_source rounds fuel fl src (destname target src) true s
    copy_all rounds fuel fl srcs target t

  copy_operands : ℕ → ℕ → Flags → List (List ℕ) → List ℕ → State World → Outcome (State World)
  copy_operands rounds fuel fl (src ∷ []) target s =
      if dir_stat (os.stat target s.world)
      then copy_all rounds fuel fl (src ∷ []) target s
      else copy_source rounds fuel fl src target true s
  copy_operands rounds fuel fl srcs target s =
      if dir_stat (os.stat target s.world)
      then copy_all rounds fuel fl srcs target s
      else done (fail os s)
