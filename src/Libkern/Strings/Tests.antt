-- ===== src/Libkern/Strings/Tests.antt =====
-- The strings "ab" at 16 and "ac" at 32.
use mkrn.Prelude.{ℕ, ◌≡◌, refl, arith, Mem, ◌==◌, if◌then◌else◌, done, List, [], ◌∷◌}
use mkrn.Libkern.Strings.{strcmp}
use mkrn.Libkern.Strings.Text.{IsString, difference, strcmp_lem}

abbrev text : Mem
text x =
    if x == 16
    then 97
    else if x == 17
    then 98
    else if x == 32
    then 97
    else if x == 33
    then 99
    else 0

abbrev left : List ℕ
left = 97 ∷ 98 ∷ []

abbrev right : List ℕ
right = 97 ∷ 99 ∷ []

left-IsString : IsString text 16 left
left-IsString = (refl, omega arith, (refl, omega arith, refl))

right-IsString : IsString text 32 right
right-IsString = (refl, omega arith, (refl, omega arith, refl))

strcmp_lem_example : strcmp text 16 32 ≡ done (difference left right)
strcmp_lem_example = strcmp_lem text 16 32 left right left-IsString right-IsString (omega arith)
