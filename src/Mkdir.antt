-- ===== src/Mkdir.antt =====
-- src/bin/mkdir/mkdir.c. A string is the list of its characters. -1 and 0 of the functions that
-- parse are none and some; what is written to stderr is left out.
pub mod Grammar
pub mod Letters
pub mod Clause
pub mod One
pub mod Ends
pub mod Tree
pub mod Tests
use mkrn.Prelude.{
  ℕ, zero, suc, ◌+◌, ◌-◌, ◌*◌, ltb, leb, ◌==◌, ◌&&◌, ◌||◌, not, if◌then◌else◌, Bool, true, false,
  Option, none, some, List, [], ◌∷◌, length, Outcome, done, out_of_fuel, ◌>>=◌,
}
use mathlib.Core.List.{reverse}
use mathlib.Core.Option
use mkrn.FileMode.{
  Who, user, group, other, Bit, read, write, exec, suid, sgid, svtx, Mode, no_bits, all_access,
  mode_of, same_mode,
}
use mkrn.Path.{slash, take, drop, same_text, leading, trim_slashes}

-- The first loop of applyclause: one bit of `who` for each class.
abbrev pub is_who : ℕ → Bool
is_who c = (c == b'u') || (c == b'g') || (c == b'o') || (c == b'a')

abbrev pub class : ℕ → Who → Bool
class c user = (c == b'u') || (c == b'a')
class c group = (c == b'g') || (c == b'a')
class c other = (c == b'o') || (c == b'a')

pub take_who : List ℕ → (Who → Bool) → (Who → Bool) × List ℕ
take_who [] who = (who, [])
take_who (c ∷ p) who =
    let rest : (Who → Bool) × List ℕ = take_who p (λ w. who w || class c w) in
    if is_who c then rest else (who, c ∷ p)

-- `if (who == 0) who = 7`
pub all_if_none : (Who → Bool) → Who → Bool
all_if_none who w = if who user || who group || who other then who w else true

-- strchr("rwxXst", c) for a character other than the terminator, and the switch
abbrev pub is_perm : ℕ → Bool
is_perm c = (c == b'r') || (c == b'w') || (c == b'x') || (c == b'X') || (c == b's') || (c == b't')

pub perm_bits : (Who → Bool) → ℕ → Mode
perm_bits who c (read w) = (c == b'r') && who w
perm_bits who c (write w) = (c == b'w') && who w
perm_bits who c (exec w) = ((c == b'x') || (c == b'X')) && who w
perm_bits who c suid = (c == b's') && who user
perm_bits who c sgid = (c == b's') && who group
perm_bits who c svtx = c == b't'

pub take_perms : (Who → Bool) → List ℕ → Mode → Mode × List ℕ
take_perms who [] bits = (bits, [])
take_perms who (c ∷ p) bits =
    let rest : Mode × List ℕ = take_perms who p (λ b. bits b || perm_bits who c b) in
    if is_perm c then rest else (bits, c ∷ p)

-- The bits that `=` takes away.
pub class_bits : (Who → Bool) → Mode
class_bits who (read w) = who w
class_bits who (write w) = who w
class_bits who (exec w) = who w
class_bits who suid = who user
class_bits who sgid = who group
class_bits who svtx = who other

pub apply_op : (Who → Bool) → ℕ → Mode → Mode → Mode
apply_op who op bits m b =
    if op == b'+'
    then m b || bits b
    else if op == b'-'
    then m b && not (bits b)
    else (m b && not (class_bits who b)) || bits b

abbrev pub is_op : ℕ → Bool
is_op c = (c == b'+') || (c == b'-') || (c == b'=')

abbrev pub op_next : List ℕ → Bool
op_next [] = false
op_next (c ∷ p) = is_op c

abbrev pub accept_end : List ℕ → Mode → Option Mode
accept_end [] m = some m
accept_end (c ∷ p) m = none

-- The loop over the operators, on fuel.
pub clause_loop : ℕ → (Who → Bool) → Mode → List ℕ → Outcome (Option Mode)
clause_loop zero who m p = out_of_fuel
clause_loop (suc fuel) who m [] = done none
clause_loop (suc fuel) who m (op ∷ p) =
    let (bits, p') = take_perms who p no_bits in
    let m' : Mode = apply_op who op bits m in
    let rest : Outcome (Option Mode) = clause_loop fuel who m' p' in
    if not (is_op op) then done none else if op_next p' then rest else done (accept_end p' m')

pub applyclause : Mode → List ℕ → Outcome (Option Mode)
applyclause m clause =
    let (who, p) = take_who clause (λ w. false) in
    clause_loop (suc (length p)) (all_if_none who) m p

-- strtok_r(s, ","): the parts of a string between commas that are not empty, with `tok` the
-- characters of the part that is being read, last first
end_token : List ℕ → List (List ℕ) → List (List ℕ)
end_token [] toks = toks
end_token (c ∷ tok) toks = reverse (c ∷ tok) ∷ toks

tokens : List ℕ → List ℕ → List (List ℕ)
tokens tok [] = end_token tok []
tokens tok (c ∷ s) =
    let next : List (List ℕ) = tokens [] s in
    let more : List (List ℕ) = tokens (c ∷ tok) s in if c == b',' then end_token tok next else more

apply_clauses : Mode → List (List ℕ) → Outcome (Option Mode)
apply_clauses m [] = done (some m)
apply_clauses m (tok ∷ toks) = do
  r ← applyclause m tok
  elim r [ none ↦ done none | some m' ↦ apply_clauses m' toks ]

-- strtol(s, &end, 8) with the test that it ends at the terminator. On a value above LONG_MAX it
-- gives LONG_MAX, which is above 07777 as well.
octal : List ℕ → ℕ → Option ℕ
octal [] v = some v
octal (c ∷ s) v =
    let rest : Option ℕ = octal s (v * 8 + (c - b'0')) in
    if leb b'0' c && leb c b'7' then rest else none

abbrev pub is_digit : ℕ → Bool
is_digit c = leb b'0' c && leb c b'9'

abbrev starts_with_digit : List ℕ → Bool
starts_with_digit [] = false
starts_with_digit (c ∷ s) = is_digit c

octal_mode : Option ℕ → Option Mode
octal_mode none = none
octal_mode (some v) = if ltb 4095 v then none else some (mode_of v)

parsemode : List ℕ → Outcome (Option Mode)
parsemode s =
    if starts_with_digit s
    then done (octal_mode (octal s 0))
    else apply_clauses all_access (tokens [] s)

-- The system calls of mkone, over the state of the file system.
pub data Made : Type 0 where
  made exists failed : Made

pub record Stat : Type 0 where
  pub is_dir : Bool
  pub mode : Mode

pub record Os : Type 1 where
  pub World : Type 0
  pub mkdir : List ℕ → Mode → World → Made × World
  pub stat : List ℕ → World → Option Stat
  pub chmod : List ℕ → Mode → World → Bool × World

-- st_mode | S_IWUSR | S_IXUSR
pub usable : Mode → Mode
usable m (read w) = m (read w)
usable m (write user) = true
usable m (write group) = m (write group)
usable m (write other) = m (write other)
usable m (exec user) = true
usable m (exec group) = m (exec group)
usable m (exec other) = m (exec other)
usable m suid = m suid
usable m sgid = m sgid
usable m svtx = m svtx

-- strchr(p, '/') - p
pub find_slash : List ℕ → Option ℕ
find_slash [] = none
find_slash (c ∷ p) =
    let rest : Option ℕ = Option.map suc (find_slash p) in if c == slash then some 0 else rest

module _ (os : Os) where
  open os use {World, mkdir, stat, chmod}

  -- The end of mkone, for a directory that has just been made. true stands for the result 0.
  pub set_mode : List ℕ → Bool → Option Mode → Stat → World → Bool × World
  set_mode path true none st w = (true, w)
  set_mode path true (some m) st w = if not (same_mode st.mode m) then chmod path m w else (true, w)
  set_mode path false m st w =
      if not (st.mode (write user) && st.mode (exec user))
      then chmod path (usable st.mode) w
      else (true, w)

  pub made_dir : List ℕ → Bool → Option Mode → Option Stat → World → Bool × World
  made_dir path isfinal m none w = (false, w)
  made_dir path isfinal m (some st) w = set_mode path isfinal m st w

  pub existing : Bool → Option Stat → World → Bool × World
  existing ignoreexist none w = (false, w)
  existing ignoreexist (some st) w = (ignoreexist && st.is_dir, w)

  -- has_m and modearg are one value, `some` if has_m is set.
  pub mkone_after : List ℕ → Bool → Bool → Option Mode → Made × World → Bool × World
  mkone_after path isfinal ignoreexist m (made, w) = made_dir path isfinal m (stat path w) w
  mkone_after path isfinal ignoreexist m (exists, w) = existing ignoreexist (stat path w) w
  mkone_after path isfinal ignoreexist m (failed, w) = (false, w)

  pub mkone : List ℕ → Bool → Bool → Option Mode → World → Bool × World
  mkone path isfinal ignoreexist m w =
      mkone_after path isfinal ignoreexist m (mkdir path all_access w)

  -- The call of mkone in the loop of makepath, with the test in front of it.
  pub make_prefix : List ℕ → Bool → Option Mode → World → Bool × World
  make_prefix dup isfinal m w =
      if not (length dup == 0) && not (same_text dup (b'.' ∷ []))
      then mkone dup isfinal true m w
      else (true, w)

  -- The loop from the index `p` on, on fuel.
  pub walk : ℕ → List ℕ → ℕ → Option Mode → World → Outcome (Bool × World)
  walk zero dup p m w = out_of_fuel
  walk (suc fuel) dup p m w = elim (find_slash (drop p dup)) [
    | none ↦ done (make_prefix dup true m w)
    | some k ↦
        let (rv, w') = make_prefix (take (p + k) dup) false m w in
        let next : ℕ = p + k + 1 in
        let p' : ℕ = next + leading (drop next dup) in
        let rest : Outcome (Bool × World) = walk fuel dup p' m w' in
        if rv then rest else done (false, w')
  ]

  pub makepath : List ℕ → Option Mode → World → Outcome (Bool × World)
  makepath dir m w =
      let dup : List ℕ = take (trim_slashes 1 dir (length dir)) dir in
      walk (suc (length dup)) dup (leading dup) m w

  -- The loop of main over the operands, with its exit status.
  make_all : Bool → Option Mode → List (List ℕ) → Bool → World → Outcome (Bool × World)
  make_all pflag m [] ok w = done (ok, w)
  make_all pflag m (arg ∷ args) ok w = do
    r ← if pflag then makepath arg m w else done (mkone arg true false m w)
    make_all pflag m args (ok && r.0) r.1
