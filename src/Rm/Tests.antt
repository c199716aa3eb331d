-- ===== src/Rm/Tests.antt =====
-- A file system with a directory "d" and a file "d/f" in it. A state is which of the two exist.
use mkrn.Prelude.{
  ℕ, ◌≡◌, inl, inr, refl, arith, ◌&&◌, not, if◌then◌else◌, Bool, true, false, Option, none, some,
  List, [], ◌∷◌, ◌++◌, done,
}
use mkrn.Path.{same_text}
use mkrn.Rm.{Flags, Os, State, rm}
use mkrn.Rm.Below.{Survives, rm_lem}
use mkrn.Rm.Gone.{Removes}

abbrev d_name : List ℕ
d_name = b'd' ∷ []

abbrev f_name : List ℕ
f_name = b'd' ∷ b'/' ∷ b'f' ∷ []

abbrev Disk : Type 0
Disk = Bool × Bool

abbrev look : List ℕ → Disk → Option Bool
look path (d, f) =
    if same_text path f_name
    then if f then some false else none
    else if same_text path d_name && d
    then some true
    else none

abbrev unlink : List ℕ → Disk → Bool × Disk
unlink path (d, f) = if same_text path f_name && f then (true, (d, false)) else (false, (d, f))

abbrev rmdir : List ℕ → Disk → Bool × Disk
rmdir path (d, f) =
    if not (same_text path f_name) && same_text path d_name && d && not f
    then (true, (false, f))
    else (false, (d, f))

abbrev disk_os : Os
disk_os = record {
  World = Disk;
  path_max = 64;
  realpath = λ path w. none;
  lstat = look;
  access = λ path w. true;
  isatty = λ w. false;
  opendir = λ path w. if same_text path d_name then some ((b'f' ∷ []) ∷ []) else none;
  unlink = unlink;
  rmdir = rmdir;
}

abbrev recursive : Flags
recursive = record { fflag = false; iflag = false; rflag = true }

abbrev start : State Disk
start = record { world = (true, true); input = []; status = false }

unlinked :
    (path : List ℕ) (w : Disk) → (unlink path w).0 ≡ true → look path (unlink path w).1 ≡ none
unlinked path (d, f) e = ground arith

removed : (path : List ℕ) (w : Disk) → (rmdir path w).0 ≡ true → look path (rmdir path w).1 ≡ none
removed path (d, f) e = ground arith

disk_os-Removes : Removes disk_os
disk_os-Removes = record { unlinked = unlinked; removed = removed }

-- Removing "d/f" keeps "d".
abbrev HasDir : Disk → Type 0
HasDir w = w.0 ≡ true

HasDir-Survives : Survives disk_os HasDir f_name
unfolding same_text
HasDir-Survives q w b dot h = (
  unlink_keeps q w h,
  elim b [ inl e ↦ rw e (rmdir_keeps w h) | inr (more, e) ↦ rw e (rmdir_below more w h) ],
)
  where
    unlink_keeps : (q : List ℕ) (w : Disk) → HasDir w → HasDir (unlink q w).1
    unlink_keeps q (d, f) h = ground arith

    rmdir_keeps : (w : Disk) → HasDir w → HasDir (rmdir f_name w).1
    rmdir_keeps (d, f) h = h

    rmdir_below :
        (more : List ℕ) (w : Disk) → HasDir w → HasDir (rmdir (f_name ++ (b'/' ∷ more)) w).1
    rmdir_below more (d, f) h = h

rm_lem_example : (t : State Disk) × (rm disk_os 65 recursive f_name start ≡ done t) × HasDir t.world
rm_lem_example = rm_lem disk_os HasDir recursive f_name start HasDir-Survives refl
