-- ===== src/Mkdir/Tests.antt =====
-- A small file system: a list of directories, in which mkdir() leaves a directory with no access for
-- others, and chmod() fails for the path "x".
use mkrn.Prelude.{
  ℕ, ◌≡◌, ◌≢◌, ◌⊎◌, inl, inr, refl, ◌∙◌, Bool, true, false, Option, none, some, List, [], ◌∷◌, done,
  if◌then◌else◌, Bool-cases, if_true, if_false,
}
use mkrn.FileMode.{user, Bit, read, write, exec, Mode, all_access}
use mkrn.Path.{same_text}
use mkrn.Path.Scan.{same_text_refl}
use mkrn.Mkdir.{Made, made, exists, Stat, Os, makepath, mkone}
use mkrn.Mkdir.Grammar.{Clause}
use mkrn.Mkdir.One.{IsPosix, HasMode, mkone_lem}
use mkrn.Mkdir.Tree.{AllExist, makepath_lem}

abbrev Entry : Type 0
Entry = List ℕ × Mode

abbrev find : List ℕ → List Entry → Option Stat
find path [] = none
find path ((q, m) ∷ w) =
    if same_text path q then some (record { is_dir = true; mode = m }) else find path w

abbrev make : List ℕ → Mode → List Entry → Option Stat → Made × List Entry
make path m w none = (made, (path, m) ∷ w)
make path m w (some st) = (exists, w)

abbrev change : List ℕ → Mode → List Entry → Option Stat → Bool × List Entry
change path m w none = (false, w)
change path m w (some st) = (true, (path, m) ∷ w)

abbrev memory_os : Os
memory_os = record {
  World = List Entry;
  mkdir = λ path m w. make path m w (find path w);
  stat = find;
  chmod = λ path m w. change path m w (find path w);
}

abbrev IsDir : List ℕ → List Entry → Type 0
IsDir path w = (st : Stat) × (find path w ≡ some st)

find-cons : (path q : List ℕ) (m : Mode) (w : List Entry) → IsDir q w → IsDir q ((path, m) ∷ w)
find-cons path q m w (st, e) = elim (Bool-cases (same_text q path)) [
  | inl y ↦ (record { is_dir = true; mode = m }, if_true (same_text q path) _ _ y)
  | inr y ↦ (st, if_false (same_text q path) _ _ y ∙ e)
]

find-own :
    (path : List ℕ) (m : Mode) (w : List Entry)
    → find path ((path, m) ∷ w) ≡ some (record { is_dir = true; mode = m })
find-own path m w = if_true (same_text path path) _ _ (same_text_refl path)

make_dir :
    (path : List ℕ) (m : Mode) (w : List Entry) (o : Option Stat)
    → (make path m w o).0 ≡ made
    → IsDir path (make path m w o).1
make_dir path m w none e = (record { is_dir = true; mode = m }, find-own path m w)
make_dir path m w (some st) e = cc

make_keeps :
    (path : List ℕ) (m : Mode) (w : List Entry) (o : Option Stat) (q : List ℕ)
    → IsDir q w
    → IsDir q (make path m w o).1
make_keeps path m w none q h = find-cons path q m w h
make_keeps path m w (some st) q h = h

make_failed :
    (path : List ℕ) (m : Mode) (w : List Entry) (o : Option Stat)
    → (make path m w o).0 ≢ made
    → (make path m w o).1 ≡ w
make_failed path m w none h = absurd (h refl)
make_failed path m w (some st) h = refl

change_keeps :
    (path : List ℕ) (m : Mode) (w : List Entry) (o : Option Stat) (q : List ℕ)
    → IsDir q w
    → IsDir q (change path m w o).1
change_keeps path m w none q h = h
change_keeps path m w (some st) q h = find-cons path q m w h

change_sets :
    (path : List ℕ) (m : Mode) (w : List Entry) (o : Option Stat)
    → (change path m w o).0 ≡ true
    → (st : Stat) × (find path (change path m w o).1 ≡ some st) × ((b : Bit) → st.mode b ≡ m b)
change_sets path m w none e = cc
change_sets path m w (some st) e =
    (record { is_dir = true; mode = m }, find-own path m w, λ b. refl)

memory_os-IsPosix : IsPosix memory_os IsDir
memory_os-IsPosix = record {
  made_dir = λ path m w. make_dir path m w (find path w);
  mkdir_keeps = λ path m w. make_keeps path m w (find path w);
  mkdir_failed = λ path m w. make_failed path m w (find path w);
  chmod_keeps = λ path m w. change_keeps path m w (find path w);
  chmod_sets = λ path m w. change_sets path m w (find path w);
  stat_dir = λ path w {st} e d. (st, e);
}

-- "/a/b"
abbrev a_b : List ℕ
a_b = b'/' ∷ b'a' ∷ b'/' ∷ b'b' ∷ []

abbrev private : Mode
private (read user) = true
private (write user) = true
private (exec user) = true
private _ = false

makepath_lem_example :
    (r : Bool × List Entry) × (makepath memory_os a_b (some private) [] ≡ done r)
    × ((r.0 ≡ false) ⊎ ((r.0 ≡ true) × AllExist memory_os IsDir memory_os-IsPosix a_b r.1))
    × ((q : List ℕ) → IsDir q [] → IsDir q r.1)
makepath_lem_example = makepath_lem memory_os IsDir memory_os-IsPosix a_b (some private) []

mkone_lem_example :
    (((memory_os.mkdir a_b all_access []).0 ≡ made)
      × ((((mkone memory_os a_b true false (some private) []).0 ≡ true)
            × HasMode memory_os IsDir memory_os-IsPosix a_b private
                (mkone memory_os a_b true false (some private) []).1)
          ⊎ ((mkone memory_os a_b true false (some private) []).0 ≡ false)))
    ⊎ (((memory_os.mkdir a_b all_access []).0 ≢ made)
        × (mkone memory_os a_b true false (some private) [] ≡ (false, [])))
mkone_lem_example = mkone_lem memory_os IsDir memory_os-IsPosix a_b private []

-- "g-w+s"
abbrev symbolic : List ℕ
symbolic = b'g' ∷ b'-' ∷ b'w' ∷ b'+' ∷ b's' ∷ []
