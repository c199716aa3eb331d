-- ===== src/Cp.antt =====
-- src/bin/cp/cp.c, with the loop of Copy. A path is the list of its characters; what is written to
-- stderr is left out.
pub mod Regular
pub mod Source
pub mod Tests
use mkrn.Prelude.{
  ℕ, zero, suc, ◌==◌, ltb, ◌&&◌, ◌||◌, not, if◌then◌else◌, Bool, true, false, Option, none, some,
  List, [], ◌∷◌, ◌++◌, length, Outcome, done, out_of_fuel, ◌>>=◌,
}
use mkrn.FileMode.{
  Bit, suid, sgid, svtx, read, write, exec, user, Mode, Kind, regular, directory, symlink, block,
  char, fifo, socket, is_directory,
}
use mkrn.Path.{slash, take, same_text, last_slash, after_slash, trim_slashes}
use mkrn.Rm.{State, confirm}
use mkrn.Copy as Loop
use mkrn.Copy.{Copied, copied, read_error, write_error, copy_loop}

pub data Symopt : Type 0 where
  sym_unset sym_h sym_l sym_p : Symopt

pub record Flags : Type 0 where
  pub fflag : Bool
  pub iflag : Bool
  pub pflag : Bool
  pub rflag : Bool
  pub symopt : Symopt

pub set_flag : ℕ → Flags → Option Flags
set_flag c fl =
    if c == b'H'
    then some (record fl { symopt = sym_h })
    else if c == b'L'
    then some (record fl { symopt = sym_l })
    else if c == b'P'
    then some (record fl { symopt = sym_p })
    else if c == b'R'
    then some (record fl { rflag = true })
    else if c == b'f'
    then some (record fl { fflag = true })
    else if c == b'i'
    then some (record fl { iflag = true })
    else if c == b'p'
    then some (record fl { pflag = true })
    else none

pub follow : Flags → Bool → Bool
follow fl top = elim fl.symopt [
  | sym_p ↦ false
  | sym_l ↦ true
  | sym_h ↦ top
  | sym_unset ↦ not fl.rflag
]

pub joinpath : List ℕ → List ℕ → List ℕ
joinpath dir name = take (trim_slashes 1 dir (length dir)) dir ++ (slash ∷ name)

pub destname : List ℕ → List ℕ → List ℕ
destname target src = joinpath target (after_slash src (last_slash src (length src)))

pub record Stat : Type 0 where
  pub kind : Kind
  pub mode : Mode
  pub dev : ℕ
  pub ino : ℕ
  pub rdev : ℕ
  pub uid : ℕ
  pub gid : ℕ
  pub atime : ℕ
  pub mtime : ℕ

-- The system calls, over the state of the file system. A call that may fail gives true where it
-- succeeds; opendir() gives the names that readdir() then returns.
pub record Os : Type 1 where
  pub streams : Loop.Streams
  pub stat : List ℕ → streams.World → Option Stat
  pub lstat : List ℕ → streams.World → Option Stat
  pub open_read : List ℕ → streams.World → Option ℕ × streams.World
  pub open_trunc : List ℕ → streams.World → Option ℕ × streams.World
  pub open_create : List ℕ → Mode → streams.World → Option ℕ × streams.World
  pub close : ℕ → streams.World → streams.World
  pub unlink : List ℕ → streams.World → Bool × streams.World
  pub readlink : List ℕ → streams.World → Option (List ℕ)
  pub make_symlink : List ℕ → List ℕ → streams.World → Bool × streams.World
  pub mkfifo : List ℕ → Mode → streams.World → Bool × streams.World
  pub mknod : List ℕ → Stat → streams.World → Bool × streams.World
  pub mkdir : List ℕ → Mode → streams.World → Bool × streams.World
  pub opendir : List ℕ → streams.World → Option (List (List ℕ))
  pub utime : List ℕ → ℕ → ℕ → streams.World → Bool × streams.World
  pub chown : List ℕ → ℕ → ℕ → streams.World → Bool × streams.World
  pub chmod : List ℕ → Mode → streams.World → Bool × streams.World
  pub umask : streams.World → Mode

-- `mode &= ~(S_ISUID | S_ISGID)`
without_ids : Mode → Mode
without_ids m (read w) = m (read w)
without_ids m (write w) = m (write w)
without_ids m (exec w) = m (exec w)
without_ids m suid = false
without_ids m sgid = false
without_ids m svtx = m svtx

-- `mode | S_IRWXU`
pub with_user : Mode → Mode
with_user m (read user) = true
with_user m (write user) = true
with_user m (exec user) = true
with_user m b = m b

module _ (os : Os) where
  open os.streams use {World}

  pub samefile : List ℕ → List ℕ → World → Bool
  samefile a b w = elim (os.stat a w) [
    | none ↦ false
    | some sa ↦ elim (os.stat b w) [
      | none ↦ false
      | some sb ↦ (sa.dev == sb.dev) && (sa.ino == sb.ino)
    ]
  ]

  pub preserve : List ℕ → Stat → World → World
  preserve dest sst w =
      let (timed, w1) = os.utime dest sst.atime sst.mtime w in
      let (owned, w2) = os.chown dest sst.uid sst.gid w1 in
      (os.chmod dest (if owned then sst.mode else without_ids sst.mode) w2).1

  abbrev pub fail : State World → State World
  fail s = record s { status = true }

  abbrev pub with_world : State World → World → State World
  with_world s w = record s { world = w }

  -- What a call that may fail leaves, where the function goes on or returns all the same.
  abbrev pub after_call : Bool × World → State World → State World
  after_call (ok, w) s = record s { world = w; status = s.status || not ok }

  -- `if (pflag) preserve(...)`
  pub keep_times : Flags → List ℕ → Stat → State World → State World
  keep_times fl dest sst s = if fl.pflag then with_world s (preserve dest sst s.world) else s

  pub reopen : Flags → List ℕ → Mode → Option ℕ × World → Option ℕ × World
  reopen fl dest mode (some dfd, w) = (some dfd, w)
  reopen fl dest mode (none, w) =
      let (gone, w') = os.unlink dest w in
      if not fl.fflag then (none, w) else if gone then os.open_create dest mode w' else (none, w')

  pub open_dest : Flags → List ℕ → Mode → Bool → World → Option ℕ × World
  open_dest fl dest mode destexists w =
      if destexists then reopen fl dest mode (os.open_trunc dest w) else os.open_create dest mode w

  -- The end of copy_regular, behind the loop.
  pub copy_done : Flags → List ℕ → Stat → ℕ → ℕ → State World → Copied × World → State World
  copy_done fl dest sst sfd dfd s (write_error, w) = record s {
    world = os.close dfd (os.close sfd w);
    status = true;
  }
  copy_done fl dest sst sfd dfd s (read_error, w) =
      keep_times fl dest sst (record s { world = os.close dfd (os.close sfd w); status = true })
  copy_done fl dest sst sfd dfd s (copied, w) =
      keep_times fl dest sst (with_world s (os.close dfd (os.close sfd w)))

  pub copy_opened :
      ℕ → Flags → List ℕ → Stat → ℕ → State World → Option ℕ × World → Outcome (State World)
  copy_opened rounds fl dest sst sfd s (none, w) =
      done (record s { world = os.close sfd w; status = true })
  copy_opened rounds fl dest sst sfd s (some dfd, w) =
      copy_loop os.streams rounds sfd dfd w >>= λ r. done (copy_done fl dest sst sfd dfd s r)

  pub copy_from :
      ℕ → Flags → List ℕ → Stat → Bool → State World → Option ℕ × World → Outcome (State World)
  copy_from rounds fl dest sst destexists s (none, w) = done (record s { world = w; status = true })
  copy_from rounds fl dest sst destexists s (some sfd, w) =
      copy_opened rounds fl dest sst sfd s (open_dest fl dest sst.mode destexists w)

  pub copy_regular : ℕ → Flags → List ℕ → List ℕ → Stat → Bool → State World → Outcome (State World)
  copy_regular rounds fl src dest sst destexists s =
      let (yes_said, rest) = confirm s.input in
      let asks : Bool = destexists && fl.iflag in
      let s' : State World = if asks then record s { input = rest } else s in
      if asks && not yes_said
      then done s'
      else copy_from rounds fl dest sst destexists s' (os.open_read src s'.world)

  -- `destexists && unlink(dest) < 0`, and then the call that makes the file
  make_node : List ℕ → Bool → (World → Bool × World) → State World → Bool × State World
  make_node dest destexists make s =
      let (gone, w) = if destexists then os.unlink dest s.world else (true, s.world) in
      let made : Bool × World = make w in
      if gone then (made.0, after_call made s) else (false, record s { world = w; status = true })

  pub copy_symlink : List ℕ → List ℕ → Bool → State World → State World
  copy_symlink src dest destexists s = elim (os.readlink src s.world) [
    | none ↦ fail s
    | some target ↦ (make_node dest destexists (os.make_symlink target dest) s).1
  ]

  abbrev is_device : Kind → Bool
  is_device block = true
  is_device char = true
  is_device _ = false

  abbrev is_fifo : Kind → Bool
  is_fifo fifo = true
  is_fifo _ = false

  -- The call for a fifo or a device; none for another type.
  special_call : List ℕ → Stat → Option (World → Bool × World)
  special_call dest sst =
      if is_fifo sst.kind
      then some (os.mkfifo dest sst.mode)
      else if is_device sst.kind
      then some (os.mknod dest sst)
      else none

  pub copy_special : Flags → List ℕ → Stat → Bool → State World → State World
  copy_special fl dest sst destexists s =
      let call : Option (World → Bool × World) = special_call dest sst in
      let make : World → Bool × World =
        λ (w : World). elim call [ none ↦ (false, w) | some f ↦ f w ] in
      let (made, t) = make_node dest destexists make s in
      if made then keep_times fl dest sst t else t
