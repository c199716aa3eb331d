-- ===== src/Touch/Stamp.antt =====
-- What the two parsers make of a time that is printed in their format.
use mkrn.Prelude.{
  ℕ, suc, ◌+◌, ◌-◌, ◌*◌, ◌/◌, ◌%◌, ◌<◌, leb, ltb, ◌==◌, ◌≡◌, refl, ap, ap₂, ◌∙◌, arith, ◌||◌, ◌&&◌,
  ◌^◌, if◌then◌else◌, Bool, true, false, Option, sub32, none, some, List, [], ◌∷◌, ◌++◌, length,
}
use mkrn.Path.{drop}
use mathlib.Core.Option
use mkrn.Touch.{
  Tm, Timespec, is_valid, is_digit, digits, two_digits, dot_index, stamp, seconds_of, year_of,
  parsettime,
}

abbrev pub AllDigits : List ℕ → Type 0
AllDigits [] = Unit {0}
AllDigits (c ∷ s) = (is_digit c ≡ true) × AllDigits s

-- A number below 100 as two digits.
abbrev pub two : ℕ → List ℕ → List ℕ
two n rest = (b'0' + n / 10) ∷ (b'0' + n % 10) ∷ rest

pub two_digits-two : (n : ℕ) → n < 100 → (b'0' + n / 10 - b'0') * 10 + (b'0' + n % 10 - b'0') ≡ n
two_digits-two n l = omega arith

AllDigits-two : (n : ℕ) (ds : List ℕ) → n < 100 → AllDigits ds → AllDigits (two n ds)
AllDigits-two n ds l h = (ground arith, (ground arith, h))

-- The year of -t in its three forms.
pub data Year : Type 0 where
  current : Year
  short : ℕ → Year
  century : ℕ → ℕ → Year

abbrev pub year_text : Year → List ℕ → List ℕ
year_text current rest = rest
year_text (short yy) rest = two yy rest
year_text (century cc yy) rest = two cc (two yy rest)

-- With two digits the years are 1969 to 2068.
abbrev pub year_value : ℕ → Year → ℕ
year_value this_year current = this_year
year_value this_year (short yy) = if ltb yy 69 then 2000 + yy else 1900 + yy
year_value this_year (century cc yy) = cc * 100 + yy

abbrev IsYear : Year → Type 0
IsYear current = Unit {0}
IsYear (short yy) = yy < 100
IsYear (century cc yy) = (cc < 100) × (yy < 100)

abbrev pub second_text : Option ℕ → List ℕ
second_text none = []
second_text (some ss) = b'.' ∷ two ss []

abbrev pub second_value : Option ℕ → ℕ
second_value none = 0
second_value (some ss) = ss

abbrev AreFields : ℕ → ℕ → ℕ → ℕ → Type 0
AreFields mon day hh mm = (mon < 100) × (day < 100) × (hh < 100) × (mm < 100)

dot_index_lem :
    (ds : List ℕ) (sec : Option ℕ) → AllDigits ds → dot_index (ds ++ second_text sec) ≡ length ds
unfolding dot_index
dot_index_lem [] none h = refl
dot_index_lem [] (some ss) h = refl
dot_index_lem (c ∷ ds) sec h = ground (arith, h.0, dot_index_lem ds sec h.1)

digits_lem : (ds rest : List ℕ) → AllDigits ds → digits (ds ++ rest) (length ds) ≡ true
unfolding digits
digits_lem [] rest h = refl
digits_lem (c ∷ ds) rest h = ground (arith, h.0, digits_lem ds rest h.1)

abbrev IsSecond : Option ℕ → Type 0
IsSecond none = Unit {0}
IsSecond (some ss) = ss < 100

-- The digits in front of the seconds.
abbrev pub day_text : ℕ → ℕ → ℕ → ℕ → List ℕ → List ℕ
day_text mon day hh mm rest = two mon (two day (two hh (two mm rest)))

-- The fields stand for a time of day of some day: the month counts from 1, and a minute may have a
-- leap second.
abbrev pub in_range : ℕ → ℕ → ℕ → ℕ → ℕ → Bool
in_range mon day hh mm ss =
    (leb 1 mon && leb mon 12) && (leb 1 day && leb day 31) && leb hh 23 && leb mm 59 && leb ss 60

-- What mktime() is asked for: months from 0, and years from 1900 on in 32 bits.
abbrev pub fields_of : ℕ → ℕ → ℕ → ℕ → ℕ → ℕ → Tm
fields_of year mon day hh mm ss = record {
  tm_year = (year + (2 ^ 32 - 1900)) % 2 ^ 32;
  tm_mon = mon - 1;
  tm_mday = day;
  tm_hour = hh;
  tm_min = mm;
  tm_sec = ss;
}

-- The seconds of mktime(), with the nanoseconds.
abbrev pub at_nanos : ℕ → Option ℕ → Option Timespec
at_nanos nsec none = none
at_nanos nsec (some t) = some (record { tv_sec = t; tv_nsec = nsec })

pub stamp_lem :
    (mktime : Bool → Tm → Option ℕ) (utc : Bool) (year mon day hh mm ss nsec : ℕ)
    → stamp mktime utc year mon day hh mm ss nsec ≡ (
        if in_range mon day hh mm ss
        then at_nanos nsec (mktime utc (fields_of year mon day hh mm ss))
        else none)
unfolding stamp is_valid
stamp_lem mktime utc year mon day hh mm ss nsec =
    let same : is_valid mon day hh mm ss ≡ in_range mon day hh mm ss = ground arith in
    let years : sub32 year 1900 ≡ (year + (2 ^ 32 - 1900)) % 2 ^ 32 = omega arith in
    rw (same, years)
      (ap (λ x. if in_range mon day hh mm ss then x else none)
        (with_nanos (mktime utc (fields_of year mon day hh mm ss))))
  where
    with_nanos :
        (o : Option ℕ) → Option.map (λ t. record { tv_sec = t; tv_nsec = nsec }) o ≡ at_nanos nsec o
    with_nanos none = refl
    with_nanos (some t) = refl

stamp-fields :
    (mktime : Bool → Tm → Option ℕ) (utc : Bool) (nsec : ℕ) {y y' m m' d d' h h' n n' s s' : ℕ}
    → y ≡ y'
    → m ≡ m'
    → d ≡ d'
    → h ≡ h'
    → n ≡ n'
    → s ≡ s'
    → stamp mktime utc y m d h n s nsec ≡ stamp mktime utc y' m' d' h' n' s' nsec
stamp-fields mktime utc nsec e0 e1 e2 e3 e4 e5 i =
    stamp mktime utc (e0 i) (e1 i) (e2 i) (e3 i) (e4 i) (e5 i) nsec

AllDigits-day_text :
    (mon day hh mm : ℕ) → AreFields mon day hh mm → AllDigits (day_text mon day hh mm [])
AllDigits-day_text mon day hh mm (a, b, c, d) = AllDigits-two mon (two day (two hh (two mm []))) a (
    AllDigits-two day (two hh (two mm [])) b
      (AllDigits-two hh (two mm []) c (AllDigits-two mm [] d tt)))

seconds_of_lem :
    (ds : List ℕ) (sec : Option ℕ)
    → IsSecond sec
    → seconds_of (ds ++ second_text sec) (length ds) ≡ some (second_value sec)
unfolding seconds_of digits
seconds_of_lem [] none h = refl
seconds_of_lem [] (some ss) h =
    let tens : is_digit (b'0' + ss / 10) ≡ true = ground arith in
    let ones : is_digit (b'0' + ss % 10) ≡ true = ground arith in
    rw (tens, ones) (ap some (two_digits-two ss h))
seconds_of_lem (c ∷ ds) sec h =
    let e : suc (length ds) + 1 ≡ suc (length ds + 1) = omega arith in
    rw e (seconds_of_lem ds sec h)

-- The parser once the length of the digits is known.
parsettime-at :
    (mktime : Bool → Tm → Option ℕ) (this_year len year start ss : ℕ) (s : List ℕ)
    → dot_index s ≡ len
    → (len == 8 || len == 10 || len == 12) ≡ true
    → digits s len ≡ true
    → seconds_of s len ≡ some ss
    → year_of this_year s len ≡ (year, start)
    → parsettime mktime this_year s
      ≡ stamp mktime false year
          (two_digits (drop start s) 0)
          (two_digits (drop start s) 2)
          (two_digits (drop start s) 4)
          (two_digits (drop start s) 6)
          ss
          0
unfolding parsettime
parsettime-at mktime this_year len year start ss s e l d c y =
    let y' : year_of this_year s (dot_index s) ≡ (year, start) = ap (year_of this_year s) e ∙ y in
    rw (e, l, d, c, y') refl

window :
    (yy : ℕ)
    → yy < 100
    → (if leb 69 ((b'0' + yy / 10 - b'0') * 10 + (b'0' + yy % 10 - b'0')) then 19 else 20) * 100
        + ((b'0' + yy / 10 - b'0') * 10 + (b'0' + yy % 10 - b'0'))
      ≡ (if ltb yy 69 then 2000 + yy else 1900 + yy)
window yy l = rw (two_digits-two yy l) (ground arith)

module _ (mktime : Bool → Tm → Option ℕ) (this_year : ℕ) where
  -- The fields that reach the end of the parser.
  parsettime-stamp :
      (y : Year) (mon day hh mm : ℕ) (sec : Option ℕ)
      → IsYear y
      → AreFields mon day hh mm
      → IsSecond sec
      → parsettime mktime this_year (year_text y (day_text mon day hh mm (second_text sec)))
        ≡ stamp mktime false (year_value this_year y) mon day hh mm (second_value sec) 0
  unfolding year_of
  parsettime-stamp current mon day hh mm sec h (a, b, c, d) k =
      let ds : List ℕ = day_text mon day hh mm [] in
      let all : AllDigits ds = AllDigits-day_text mon day hh mm (a, b, c, d) in
      parsettime-at mktime this_year 8 this_year 0 (second_value sec) (ds ++ second_text sec)
        (dot_index_lem ds sec all) refl (digits_lem ds (second_text sec) all)
        (seconds_of_lem ds sec k) refl
      ∙ stamp-fields mktime false 0 refl (two_digits-two mon a) (two_digits-two day b)
          (two_digits-two hh c) (two_digits-two mm d) refl
  parsettime-stamp (short yy) mon day hh mm sec h (a, b, c, d) k =
      let ds : List ℕ = two yy (day_text mon day hh mm []) in
      let all : AllDigits ds =
        AllDigits-two yy (day_text mon day hh mm []) h
          (AllDigits-day_text mon day hh mm (a, b, c, d)) in
      parsettime-at mktime this_year 10
        ((if leb 69 (two_digits ds 0) then 19 else 20) * 100 + two_digits ds 0) 2 (second_value sec)
        (ds ++ second_text sec) (dot_index_lem ds sec all) refl
        (digits_lem ds (second_text sec) all) (seconds_of_lem ds sec k) refl
      ∙ stamp-fields mktime false 0 (window yy h) (two_digits-two mon a) (two_digits-two day b)
          (two_digits-two hh c) (two_digits-two mm d) refl
  parsettime-stamp (century cc yy) mon day hh mm sec (g, h) (a, b, c, d) k =
      let ds : List ℕ = two cc (two yy (day_text mon day hh mm [])) in
      let all : AllDigits ds = AllDigits-two cc (two yy (day_text mon day hh mm [])) g (
        AllDigits-two yy (day_text mon day hh mm []) h
          (AllDigits-day_text mon day hh mm (a, b, c, d))) in
      parsettime-at mktime this_year 12 (two_digits ds 0 * 100 + two_digits ds 2) 4
        (second_value sec) (ds ++ second_text sec) (dot_index_lem ds sec all) refl
        (digits_lem ds (second_text sec) all) (seconds_of_lem ds sec k) refl
      ∙ stamp-fields mktime false 0
          (ap₂ (λ x z. x * 100 + z) (two_digits-two cc g) (two_digits-two yy h))
          (two_digits-two mon a) (two_digits-two day b) (two_digits-two hh c) (two_digits-two mm d)
          refl

  -- -t reads each of its three forms, with or without seconds, as the fields that were printed. If
  -- the month is from 1 to 12, the day from 1 to 31, the hour up to 23, the minute up to 59 and the
  -- second up to 60, the time is the one that mktime() gives for them, with the month counted from 0
  -- and the year from 1900, and no nanoseconds; if not, the text is refused. Two digits for the year
  -- are a year from 1969 to 2068, none the current year.
  pub parsettime_lem :
      (y : Year) (mon day hh mm : ℕ) (sec : Option ℕ)
      → IsYear y
      → AreFields mon day hh mm
      → IsSecond sec
      → parsettime mktime this_year (year_text y (day_text mon day hh mm (second_text sec))) ≡ (
          if in_range mon day hh mm (second_value sec)
          then at_nanos 0
              (mktime false (fields_of (year_value this_year y) mon day hh mm (second_value sec)))
          else none)
  parsettime_lem y mon day hh mm sec h k l =
      parsettime-stamp y mon day hh mm sec h k l
      ∙ stamp_lem mktime false (year_value this_year y) mon day hh mm (second_value sec) 0
