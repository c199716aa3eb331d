-- ===== src/Ls/Tests.antt =====
-- A directory "d" with a symbolic link "d/l" to itself, which ls follows with -L and -R.
use mkrn.Prelude.{ℕ, refl, arith, true, false, none, some, List, [], ◌∷◌, length}
use mkrn.FileMode.{all_access, directory}
use mkrn.Ls.{Stat, Flags, Key, Files, State, by_mtime, standard, seen, listdir}
use mkrn.Ls.Descent.{Returns, listdir-Returns}
use mkrn.Ls.Format.{Sign, descending, entrycmp}
use mkrn.Ls.Format.Order.{IsOrder, descending-IsOrder, along-IsOrder, entrycmp_lem}

abbrev d_stat : Stat
d_stat = record {
  kind = directory;
  mode = all_access;
  dev = 1;
  ino = 2;
  nlink = 2;
  uid = 0;
  gid = 0;
  size = 0;
  blocks = 0;
  mtime = 0;
  ctime = 0;
  atime = 0;
}

abbrev loop_files : Files
loop_files = record {
  stat = λ path. some d_stat;
  lstat = λ path. some d_stat;
  readlink = λ path. none;
  opendir = λ path. some ((b'l' ∷ []) ∷ []);
}

abbrev follow_all : Flags
follow_all = record {
  upper_a = false;
  upper_f = false;
  upper_h = false;
  upper_l = true;
  upper_r = true;
  upper_s = false;
  a = false;
  d = false;
  f = false;
  g = false;
  i = false;
  k = false;
  l = false;
  n = false;
  o = false;
  p = false;
  q = false;
  r = false;
  s = false;
  t = false;
  outfmt = standard;
  timesel = by_mtime;
}

abbrev all_dirs : List Key
all_dirs = (1, 2) ∷ []

abbrev start : State
start = record { out = []; status = false; first = true; stack = [] }

listdir-Returns_example :
    Returns loop_files follow_all
      (λ nameonly ents. ents)
      (λ ents withtotal. [])
      all_dirs
      []
      (listdir loop_files follow_all
        (λ nameonly ents. ents)
        (λ ents withtotal. [])
        2
        (b'd' ∷ [])
        (b'd' ∷ [])
        0
        false
        start)
unfolding seen
listdir-Returns_example =
    listdir-Returns loop_files follow_all (λ nameonly ents. ents) (λ ents withtotal. []) all_dirs
      (λ path h. refl) (λ path h. refl) (λ nameonly ents h. h) 2 (b'd' ∷ []) (b'd' ∷ []) 0 false []
      start refl (omega arith) tt tt

abbrev by_length : List ℕ → List ℕ → Sign
by_length a b = descending (length a) (length b)

entrycmp_lem_example : IsOrder (entrycmp by_length false follow_all)
entrycmp_lem_example =
    entrycmp_lem by_length false follow_all (along-IsOrder length descending descending-IsOrder)
