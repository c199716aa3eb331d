-- ===== src/Cp/Tests.antt =====
-- A source whose bytes are still to be read, and a destination with what has been written.
use mkrn.Prelude.{
  ℕ, ◌≡◌, refl, ap, sym, arith, ◌==◌, Bool, true, false, none, some, List, [], ◌∷◌, done,
}
use mkrn.FileMode.{all_access, regular}
use mkrn.Rm.{State}
use mkrn.Copy.Tests.{Pipe, pipe_os, pipe_os-AreStreams}
use mkrn.Cp.{Flags, Stat, Os, sym_unset, copy_regular}
use mkrn.Cp.Regular.{AreOpen, truncated, IsCopied, copy_regular_lem}

abbrev pass : Pipe → Bool × Pipe
pass w = (true, w)

abbrev two_files : Os
two_files = record {
  streams = pipe_os;
  stat = λ path w. none;
  lstat = λ path w. none;
  open_read = λ path w. (some 0, w);
  open_trunc = λ path w. (some 1, (w.0, []));
  open_create = λ path m w. (some 1, w);
  close = λ fd w. w;
  unlink = λ path w. pass (w.0, []);
  readlink = λ path w. none;
  make_symlink = λ a b w. pass w;
  mkfifo = λ path m w. pass w;
  mknod = λ path st w. pass w;
  mkdir = λ path m w. pass w;
  opendir = λ path w. none;
  utime = λ path a m w. pass w;
  chown = λ path u g w. pass w;
  chmod = λ path m w. pass w;
  umask = λ w b. false;
}

abbrev src_name : List ℕ
src_name = b's' ∷ []

abbrev dest_name : List ℕ
dest_name = b'd' ∷ []

-- The bytes of the destination are what has been written, those of any other file what can be read.
abbrev contents : List ℕ → Pipe → List ℕ
contents (c ∷ path) w = elim (c == b'd') [ true ↦ w.1 | false ↦ w.0 ]
contents [] w = w.0

abbrev keep_all : Flags
keep_all = record { fflag = false; iflag = false; pflag = true; rflag = false; symopt = sym_unset }

abbrev src_stat : Stat
src_stat = record {
  kind = regular;
  mode = all_access;
  dev = 1;
  ino = 2;
  rdev = 0;
  uid = 0;
  gid = 0;
  atime = 0;
  mtime = 0;
}

abbrev start : State Pipe
start = record { world = (3 ∷ 4 ∷ 5 ∷ [], 9 ∷ []); input = []; status = false }

start-AreOpen : AreOpen two_files contents keep_all src_name dest_name all_access true start.world
start-AreOpen = record {
  sfd = 0;
  dfd = 1;
  reading = start.world;
  writing = (3 ∷ 4 ∷ 5 ∷ [], []);
  opened_src = refl;
  opened_dest = truncated refl refl;
  absent = λ e. cc;
  open_trunc_empties = λ v v' fd e. ap (λ r. r.1.1) (sym e);
  open_create_keeps = λ v v' fd e. ap (λ r. r.1.1) (sym e);
  unlink_removes = λ v v' e. ap (λ r. r.1.1) (sym e);
  str = pipe_os-AreStreams 0;
  at_start = refl;
  at_dest = refl;
  closed = λ v. refl;
  utime_keeps = λ a m v. refl;
  chown_keeps = λ u g v. refl;
  chmod_keeps = λ m v. refl;
}

copy_regular_lem_example :
    (t : State Pipe) × (copy_regular two_files 4 keep_all src_name dest_name src_stat true start
      ≡ done t)
    × IsCopied two_files contents keep_all src_name dest_name src_stat true start start-AreOpen t
copy_regular_lem_example =
    copy_regular_lem two_files contents keep_all src_name dest_name src_stat true start
      start-AreOpen 4 refl (omega arith)
