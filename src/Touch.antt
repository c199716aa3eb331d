-- ===== src/Touch.antt =====
-- src/usr.bin/touch/touch.c. A string is the list of its characters, and `s[n]` behind its end is
-- the terminator; -1 of the parsers is none. What is written to stderr is left out.
pub mod Stamp
pub mod Iso
pub mod Tests
use mkrn.Prelude.{
  ℕ, zero, suc, ◌+◌, ◌-◌, ◌*◌, ltb, leb, ◌==◌, ◌&&◌, ◌||◌, not, if◌then◌else◌, Bool, true, false,
  Option, none, some, List, [], ◌∷◌, length, get_or, sub32,
}
use mathlib.Core.Option
use mkrn.Path.{drop}

pub record Timespec : Type 0 where
  pub tv_sec : ℕ
  pub tv_nsec : ℕ

-- The fields of struct tm that the parsers set; tm_year is a 32-bit int.
pub record Tm : Type 0 where
  pub tm_year : ℕ
  pub tm_mon : ℕ
  pub tm_mday : ℕ
  pub tm_hour : ℕ
  pub tm_min : ℕ
  pub tm_sec : ℕ

abbrev pub is_digit : ℕ → Bool
is_digit c = leb b'0' c && leb c b'9'

pub digits : List ℕ → ℕ → Bool
digits s zero = true
digits [] (suc n) = false
digits (c ∷ s) (suc n) = is_digit c && digits s n

-- `(p[i] - '0') * 10 + (p[i + 1] - '0')` for two digits
abbrev pub two_digits : List ℕ → ℕ → ℕ
two_digits p i = (get_or p i 0 - b'0') * 10 + (get_or p (i + 1) 0 - b'0')

-- strcspn(s, ".") and strspn(s, "0123456789")
pub dot_index : List ℕ → ℕ
dot_index [] = 0
dot_index (c ∷ s) = let rest : ℕ = dot_index s in if c == b'.' then 0 else suc rest

pub digit_count : List ℕ → ℕ
digit_count [] = 0
digit_count (c ∷ s) = let rest : ℕ = digit_count s in if is_digit c then suc rest else 0

pub is_valid : ℕ → ℕ → ℕ → ℕ → ℕ → Bool
is_valid mon day hh mm ss =
    not (ltb mon 1 || ltb 12 mon || ltb day 1 || ltb 31 day || ltb 23 hh || ltb 59 mm || ltb 60 ss)

-- From the range check to the end of both parsers. `mktime` is given whether the time is UTC, which
-- parsedtime asks for by TZ and tm_isdst.
pub stamp : (Bool → Tm → Option ℕ) → Bool → ℕ → ℕ → ℕ → ℕ → ℕ → ℕ → ℕ → Option Timespec
stamp mktime utc year mon day hh mm ss nsec =
    let tmv : Tm = record {
      tm_year = sub32 year 1900;
      tm_mon = mon - 1;
      tm_mday = day;
      tm_hour = hh;
      tm_min = mm;
      tm_sec = ss;
    } in
    if is_valid mon day hh mm ss
    then Option.map (λ t. record { tv_sec = t; tv_nsec = nsec }) (mktime utc tmv)
    else none

-- The seconds of -t behind the digits.
pub seconds_of : List ℕ → ℕ → Option ℕ
seconds_of s len =
    let rest : List ℕ = drop (len + 1) s in
    if get_or s len 0 == b'.'
    then if not (length rest == 2) || not (digits rest 2) then none else some (two_digits rest 0)
    else if not (get_or s len 0 == 0)
    then none
    else some 0

-- The year and the characters that it takes; `this_year` is that of localtime_r().
pub year_of : ℕ → List ℕ → ℕ → ℕ × ℕ
year_of this_year s len =
    let first : ℕ = two_digits s 0 in
    if len == 8
    then (this_year, 0)
    else if len == 10
    then ((if leb 69 first then 19 else 20) * 100 + first, 2)
    else (first * 100 + two_digits s 2, 4)

pub parsettime : (Bool → Tm → Option ℕ) → ℕ → List ℕ → Option Timespec
parsettime mktime this_year s =
    let len : ℕ = dot_index s in
    let (year, start) = year_of this_year s len in
    let p : List ℕ = drop start s in
    if not (len == 8 || len == 10 || len == 12) || not (digits s len)
    then none
    else elim (seconds_of s len) [
      | none ↦ none
      | some ss ↦
          stamp mktime false year (two_digits p 0) (two_digits p 2) (two_digits p 4)
            (two_digits p 6) ss 0
    ]

infixl 5 ◌>>=◌
abbrev pub ◌>>=◌ {ℓ κ} : {A : Type ℓ} {B : Type κ} → Option A → (A → Option B) → Option B
none >>= f = none
some a >>= f = f a

-- strtol() of decimal digits, in a long of 32 bits
pub decimal : List ℕ → ℕ → ℕ → ℕ
decimal s zero v = v
decimal [] (suc n) v = v
decimal (c ∷ s) (suc n) v = decimal s n (v * 10 + (c - b'0'))

abbrev pub long_max : ℕ
long_max = 2147483647

pub strtol : List ℕ → ℕ → ℕ
strtol s n = let v : ℕ = decimal s n 0 in if ltb long_max v then long_max else v

-- A separator and two digits, with the rest of the text.
pub field : Bool → List ℕ → Option (ℕ × List ℕ)
field sep p =
    let next : List ℕ = drop 1 p in
    if not sep || not (digits next 2) then none else some (two_digits next 0, drop 2 next)

-- The buffer of nine digits for the fraction, filled up with zeros.
pub nanos : ℕ → List ℕ → ℕ → ℕ → ℕ
nanos zero p ndig v = v
nanos (suc k) [] ndig v = nanos k [] ndig (v * 10)
nanos (suc k) (c ∷ p) zero v = nanos k p zero (v * 10)
nanos (suc k) (c ∷ p) (suc ndig) v = nanos k p ndig (v * 10 + (c - b'0'))

pub fraction : List ℕ → Option (ℕ × List ℕ)
fraction p =
    let next : List ℕ = drop 1 p in
    let ndig : ℕ = digit_count next in
    if not (get_or p 0 0 == b'.') && not (get_or p 0 0 == b',')
    then some (0, p)
    else if ndig == 0
    then none
    else some (nanos 9 next ndig 0, drop ndig next)

pub zone : List ℕ → Bool × List ℕ
zone [] = (false, [])
zone (c ∷ p) = if c == b'Z' then (true, p) else (false, c ∷ p)

-- What follows the year.
pub parse_rest : (Bool → Tm → Option ℕ) → ℕ → List ℕ → Option Timespec
parse_rest mktime year p0 = do
  (mon, p1) ← field (get_or p0 0 0 == b'-') p0
  (day, p2) ← field (get_or p1 0 0 == b'-') p1
  (hh, p3) ← field (get_or p2 0 0 == b'T' || get_or p2 0 0 == b' ') p2
  (mm, p4) ← field (get_or p3 0 0 == b':') p3
  (ss, p5) ← field (get_or p4 0 0 == b':') p4
  (nsec, p6) ← fraction p5
  let (utc, p7) = zone p6
  if not (length p7 == 0) then none else stamp mktime utc year mon day hh mm ss nsec

pub parsedtime : (Bool → Tm → Option ℕ) → List ℕ → Option Timespec
parsedtime mktime s =
    let n : ℕ = digit_count s in if ltb n 4 then none else parse_rest mktime (strtol s n) (drop n s)

-- UTIME_OMIT and UTIME_NOW of sys/stat.h are given as a timespec.
pub record Flags : Type 0 where
  pub aflag : Bool
  pub mflag : Bool
  pub cflag : Bool

-- `if (!aflag && !mflag) aflag = mflag = 1`
both_if_none : Flags → Flags
both_if_none fl =
    if not fl.aflag && not fl.mflag then record fl { aflag = true; mflag = true } else fl

-- The two times of a file, with `omitted` from omit(), and `source` what the options gave.
pub times : Flags → Timespec → Timespec × Timespec → Timespec × Timespec
times fl omitted (access, change) =
    ((if fl.aflag then access else omitted), (if fl.mflag then change else omitted))

-- The system calls of the loop over the operands; create() is open() with O_CREAT.
pub record Os : Type 1 where
  pub World : Type 0
  pub exists : List ℕ → World → Bool
  pub create : List ℕ → World → Option ℕ × World
  pub futimens : ℕ → Timespec × Timespec → World → Bool × World
  pub close : ℕ → World → World
  pub utimensat : List ℕ → Timespec × Timespec → World → Bool × World

module _ (os : Os) where
  open os use {World, exists, create, futimens, close, utimensat}

  touch_created : Timespec × Timespec → Option ℕ × World → Bool × World
  touch_created ts (none, w) = (false, w)
  touch_created ts (some fd, w) = let (ok, w') = futimens fd ts w in (ok, close fd w')

  -- One round of the loop; the result is false where status is set.
  touch : Flags → Timespec × Timespec → List ℕ → World → Bool × World
  touch fl ts path w =
      if exists path w
      then utimensat path ts w
      else if fl.cflag
      then (true, w)
      else touch_created ts (create path w)

  touch_all : Flags → Timespec × Timespec → List (List ℕ) → Bool → World → Bool × World
  touch_all fl ts [] ok w = (ok, w)
  touch_all fl ts (path ∷ paths) ok w =
      let (done_one, w') = touch fl ts path w in touch_all fl ts paths (ok && done_one) w'
