-- ===== src/Path.antt =====
-- src/usr.bin/basename/basename.c and src/usr.bin/dirname/dirname.c: what the two programs print
-- for their operands, without the newline of puts(). A string is the list of its characters, and
-- `s[n]` behind its end is the terminator. The functions of the C library are written out for what
-- the programs use of them.
pub mod Parts
pub mod Last
pub mod Scan
pub mod Tests
use mkrn.Prelude.{
  ℕ, zero, suc, ◌+◌, ◌-◌, ltb, ◌==◌, ◌&&◌, ◌||◌, not, if◌then◌else◌, Bool, true, false, Option,
  none, some, List, [], ◌∷◌, length, get_or,
}

abbrev pub slash : ℕ
slash = b'/'

-- `s` as it is when a terminator is written at `n`, and from `n` on
abbrev pub take : ℕ → List ℕ → List ℕ
take zero s = []
take (suc n) [] = []
take (suc n) (c ∷ s) = c ∷ take n s

abbrev pub drop : ℕ → List ℕ → List ℕ
drop zero s = s
drop (suc n) [] = []
drop (suc n) (c ∷ s) = drop n s

-- strcmp() for equality, and strspn(s, "/")
unfoldable pub same_text : List ℕ → List ℕ → Bool
same_text [] [] = true
same_text [] (d ∷ t) = false
same_text (c ∷ s) [] = false
same_text (c ∷ s) (d ∷ t) = (c == d) && same_text s t

pub leading : List ℕ → ℕ
leading [] = 0
leading (c ∷ s) = if c == slash then suc (leading s) else 0

-- `while (n > low && s[n - 1] == '/') n--;`
pub trim_slashes : ℕ → List ℕ → ℕ → ℕ
trim_slashes low s zero = zero
trim_slashes low s (suc n) =
    let rest : ℕ = trim_slashes low s n in
    if ltb low (suc n) && (get_or s n 0 == slash) then rest else suc n

-- `while (n > 0 && s[n - 1] != '/') n--;`
pub trim_name : List ℕ → ℕ → ℕ
trim_name s zero = zero
trim_name s (suc n) = let rest : ℕ = trim_name s n in if get_or s n 0 == slash then suc n else rest

-- strrchr(s, '/'), as an index, over the first `n` characters
pub last_slash : List ℕ → ℕ → Option ℕ
last_slash s zero = none
last_slash s (suc n) =
    let rest : Option ℕ = last_slash s n in if get_or s n 0 == slash then some n else rest

-- The last component, after the trailing slashes are gone.
pub after_slash : List ℕ → Option ℕ → List ℕ
after_slash s none = s
after_slash s (some i) = drop (i + 1) s

pub strip_suffix : List ℕ → Option (List ℕ) → List ℕ
strip_suffix s none = s
strip_suffix s (some suffix) =
    let slen : ℕ = length s in
    let suflen : ℕ = length suffix in
    if ltb 0 suflen && ltb suflen slen && same_text (drop (slen - suflen) s) suffix
    then take (slen - suflen) s
    else s

pub basename : List ℕ → Option (List ℕ) → List ℕ
basename s suffix =
    let slen : ℕ = trim_slashes 1 s (length s) in
    let s' : List ℕ = take slen s in
    if length s == 0
    then []
    else if (slen == 1) && (get_or s 0 0 == slash)
    then slash ∷ []
    else strip_suffix (after_slash s' (last_slash s' (length s'))) suffix

-- Steps 6 to 8 of dirname, and steps 2 to 5 in front of them.
pub drop_slashes : List ℕ → ℕ → List ℕ
drop_slashes s n = let n' : ℕ = trim_slashes 0 s n in if n' == 0 then slash ∷ [] else take n' s

pub drop_component : List ℕ → List ℕ
drop_component s =
    let n : ℕ = trim_slashes 0 s (length s) in
    let s' : List ℕ = take n s in
    let n' : ℕ = trim_name s' n in
    if ltb 0 (leading s) && (leading s == length s)
    then slash ∷ []
    else elim (last_slash s' n) [ none ↦ b'.' ∷ [] | some i ↦ drop_slashes (take n' s') n' ]

pub dirname : List ℕ → List ℕ
dirname s = if same_text s (slash ∷ slash ∷ []) then drop_slashes s (length s) else drop_component s
