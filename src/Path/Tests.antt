-- ===== src/Path/Tests.antt =====
-- "usr/lib//cc/"
use mkrn.Prelude.{ℕ, ◌≡◌, ◌≢◌, ◌<◌, zero, suc, arith, none, get_or, List, [], ◌∷◌}
use mkrn.Path.{dirname, basename}
use mkrn.Path.Parts.{IsPath, path, dirname-basename}

abbrev usr_lib : List ℕ
usr_lib = b'u' ∷ b's' ∷ b'r' ∷ b'/' ∷ b'l' ∷ b'i' ∷ b'b' ∷ []

abbrev cc_name : List ℕ
cc_name = b'c' ∷ b'c' ∷ []

usr_lib-IsPath : IsPath usr_lib cc_name
usr_lib-IsPath = record {
  some_dir = omega arith;
  dir_end = omega arith;
  some_base = omega arith;
  name = letters;
}
  where
    letters : (i : ℕ) → i < 2 → get_or cc_name i 0 ≢ b'/'
    letters zero l = omega arith
    letters (suc zero) l = omega arith
    letters (suc (suc i)) l = absurd (omega arith)

dirname-basename_example :
    (dirname (path usr_lib 1 cc_name 1) ≡ usr_lib)
    × (basename (path usr_lib 1 cc_name 1) none ≡ cc_name)
dirname-basename_example = dirname-basename usr_lib 1 cc_name 1 usr_lib-IsPath
