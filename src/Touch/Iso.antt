-- ===== src/Touch/Iso.antt =====
-- What parsedtime makes of a date and time that is printed in its format.
use mkrn.Prelude.{
  ℕ, zero, suc, ◌+◌, ◌-◌, ◌*◌, ◌/◌, ◌%◌, ◌≤◌, ◌<◌, ltb, ◌==◌, ◌≡◌, refl, ap, ap₂, ◌∙◌, arith, ◌||◌,
  if◌then◌else◌, Bool, true, false, Option, none, some, List, [], ◌∷◌, ◌++◌, length, replicate,
}
use mkrn.Path.{take, drop}
use mkrn.Path.Parts.{drop-append}
use mkrn.Touch.{
  Tm, is_digit, digits, digit_count, stamp, decimal, long_max, strtol, field, nanos, fraction, zone,
  parse_rest, parsedtime,
}
use mkrn.Touch.Stamp.{in_range, fields_of, at_nanos, stamp_lem, AllDigits, two, two_digits-two}

-- The number that digits stand for, behind a number `v`.
abbrev pub value : ℕ → List ℕ → ℕ
value v [] = v
value v (c ∷ s) = value (v * 10 + (c - b'0')) s

-- The text behind the seconds: a fraction after a point or a comma, and the zone.
pub data Fraction : Type 0 where
  whole : Fraction
  point comma : List ℕ → Fraction

abbrev zone_text : Bool → List ℕ
zone_text true = b'Z' ∷ []
zone_text false = []

abbrev fraction_text : Fraction → List ℕ → List ℕ
fraction_text whole rest = rest
fraction_text (point fs) rest = b'.' ∷ (fs ++ rest)
fraction_text (comma fs) rest = b',' ∷ (fs ++ rest)

-- The nanoseconds are the first nine digits, with zeros behind them.
abbrev pub nano_value : Fraction → ℕ
nano_value whole = 0
nano_value (point fs) = value 0 (take 9 (fs ++ replicate 9 b'0'))
nano_value (comma fs) = value 0 (take 9 (fs ++ replicate 9 b'0'))

abbrev IsFraction : Fraction → Type 0
IsFraction whole = Unit {0}
IsFraction (point fs) = (0 < length fs) × AllDigits fs
IsFraction (comma fs) = (0 < length fs) × AllDigits fs

-- No digit in front.
abbrev StopsDigits : List ℕ → Type 0
StopsDigits [] = Unit {0}
StopsDigits (c ∷ s) = is_digit c ≡ false

digit_count_lem :
    (ds rest : List ℕ) → AllDigits ds → StopsDigits rest → digit_count (ds ++ rest) ≡ length ds
unfolding digit_count
digit_count_lem [] [] h s = refl
digit_count_lem [] (c ∷ rest) h s = rw s refl
digit_count_lem (c ∷ ds) rest h s = rw h.0 (ap suc (digit_count_lem ds rest h.1 s))

decimal-value : (ds rest : List ℕ) (v : ℕ) → decimal (ds ++ rest) (length ds) v ≡ value v ds
unfolding decimal
decimal-value [] [] v = refl
decimal-value [] (c ∷ rest) v = refl
decimal-value (c ∷ ds) rest v = decimal-value ds rest (v * 10 + (c - b'0'))

nanos-zeros :
    (k m : ℕ) (p : List ℕ) (v : ℕ) → k ≤ m → nanos k p zero v ≡ value v (take k (replicate m b'0'))
unfolding nanos
nanos-zeros zero m p v l = refl
nanos-zeros (suc k) zero p v l = absurd (omega arith)
nanos-zeros (suc k) (suc m) [] v l =
    let e : v * 10 + (b'0' - b'0') ≡ v * 10 = omega arith in
    rw e (nanos-zeros k m [] (v * 10) (omega arith))
nanos-zeros (suc k) (suc m) (c ∷ p) v l =
    let e : v * 10 + (b'0' - b'0') ≡ v * 10 = omega arith in
    rw e (nanos-zeros k m p (v * 10) (omega arith))

nanos-value :
    (k m : ℕ) (fs rest : List ℕ) (v : ℕ)
    → k ≤ m
    → nanos k (fs ++ rest) (length fs) v ≡ value v (take k (fs ++ replicate m b'0'))
unfolding nanos
nanos-value zero m fs rest v l = refl
nanos-value (suc k) m [] rest v l = nanos-zeros (suc k) m rest v l
nanos-value (suc k) m (c ∷ fs) rest v l =
    nanos-value k m fs rest (v * 10 + (c - b'0')) (omega arith)

field-two :
    (sep : Bool) (c n : ℕ) (rest : List ℕ)
    → sep ≡ true
    → n < 100
    → field sep (c ∷ two n rest) ≡ some (n, rest)
unfolding field digits
field-two sep c n rest s l =
    let tens : is_digit (b'0' + n / 10) ≡ true = ground arith in
    let ones : is_digit (b'0' + n % 10) ≡ true = ground arith in
    rw (s, tens, ones) (ap (λ t. some (t, rest)) (two_digits-two n l))

zone-text : (utc : Bool) → zone (zone_text utc) ≡ (utc, [])
unfolding zone
zone-text true = refl
zone-text false = refl

zone-Stops : (utc : Bool) → StopsDigits (zone_text utc)
zone-Stops true = refl
zone-Stops false = tt

-- The fraction behind its point or comma.
fraction_digits :
    (fs : List ℕ) (utc : Bool)
    → (0 < length fs) × AllDigits fs
    → let next = fs ++ zone_text utc in
      if◌then◌else◌ {A = Option (ℕ × List ℕ)}
        (digit_count next == 0)
        none
        (some (nanos 9 next (digit_count next) 0, drop (digit_count next) next))
      ≡ some (value 0 (take 9 (fs ++ replicate 9 b'0')), zone_text utc)
fraction_digits fs utc h =
    let count = digit_count_lem fs (zone_text utc) h.1 (zone-Stops utc) in
    let some_digit : (length fs == 0) ≡ false = ground (arith, h.0) in
    rw (count, some_digit)
      (ap₂ (λ n r. some (n, r)) (nanos-value 9 9 fs (zone_text utc) 0 (omega arith))
        (drop-append fs (zone_text utc) (length fs) refl))

fraction-text :
    (fr : Fraction) (utc : Bool)
    → IsFraction fr
    → fraction (fraction_text fr (zone_text utc)) ≡ some (nano_value fr, zone_text utc)
unfolding fraction
fraction-text whole true h = refl
fraction-text whole false h = refl
fraction-text (point fs) utc h = fraction_digits fs utc h
fraction-text (comma fs) utc h = fraction_digits fs utc h

abbrev AreTimes : ℕ → ℕ → ℕ → ℕ → ℕ → Type 0
AreTimes mon day hh mm ss = (mon < 100) × (day < 100) × (hh < 100) × (mm < 100) × (ss < 100)

-- What stands behind the year; the date ends with T or a space.
abbrev pub rest_text : Bool → ℕ → ℕ → ℕ → ℕ → ℕ → Fraction → Bool → List ℕ
rest_text blank mon day hh mm ss fr utc =
    b'-'
    ∷ two mon (
        b'-'
        ∷ two day (
            (if blank then b' ' else b'T')
            ∷ two hh (b':' ∷ two mm (b':' ∷ two ss (fraction_text fr (zone_text utc))))))

module _ (mktime : Bool → Tm → Option ℕ) (blank : Bool) (mon day hh mm ss : ℕ) (fr : Fraction)
    (utc : Bool) (fields : AreTimes mon day hh mm ss) (digits_of : IsFraction fr) where
  parse_rest_lem :
      (year : ℕ)
      → parse_rest mktime year (rest_text blank mon day hh mm ss fr utc)
        ≡ stamp mktime utc year mon day hh mm ss (nano_value fr)
  unfolding parse_rest
  parse_rest_lem year =
      let (a, b, c, d, e) = fields in
      let p4 : List ℕ = b':' ∷ two ss (fraction_text fr (zone_text utc)) in
      let p3 : List ℕ = b':' ∷ two mm p4 in
      let p2 : List ℕ = (if blank then b' ' else b'T') ∷ two hh p3 in
      let p1 : List ℕ = b'-' ∷ two day p2 in
      let sep : ((if blank then b' ' else b'T') == b'T' || (if blank then b' ' else b'T') == b' ')
          ≡ true =
        ground arith in
      rw
        (
          field-two true b'-' mon p1 refl a,
          field-two true b'-' day p2 refl b,
          field-two _ (if blank then b' ' else b'T') hh p3 sep c,
          field-two true b':' mm p4 refl d,
          field-two true b':' ss (fraction_text fr (zone_text utc)) refl e,
          fraction-text fr utc digits_of,
          zone-text utc,
        )
        refl

  -- The fields that reach the end of the parser.
  parsedtime-stamp :
      (year : List ℕ)
      → AllDigits year
      → 4 ≤ length year
      → parsedtime mktime (year ++ rest_text blank mon day hh mm ss fr utc)
        ≡ stamp mktime utc
            (if ltb long_max (value 0 year) then long_max else value 0 year)
            mon
            day
            hh
            mm
            ss
            (nano_value fr)
  unfolding parsedtime strtol
  parsedtime-stamp year h l =
      let rest : List ℕ = rest_text blank mon day hh mm ss fr utc in
      let enough : ltb (length year) 4 ≡ false = ground (arith, l) in
      rw
        (
          digit_count_lem year rest h refl,
          enough,
          drop-append year rest (length year) refl,
          decimal-value year rest 0,
        )
        (parse_rest_lem (if ltb long_max (value 0 year) then long_max else value 0 year))

  -- -d reads a date and time in its format, with any fraction and zone, as the fields that were
  -- printed. If the month is from 1 to 12, the day from 1 to 31, the hour up to 23, the minute up to
  -- 59 and the second up to 60, the time is the one that mktime() gives for them, with the month
  -- counted from 0 and the year from 1900, in UTC for a Z; if not, the text is refused. The year has
  -- four digits or more and is cut at LONG_MAX; the nanoseconds are the first nine digits of the
  -- fraction.
  pub parsedtime_lem :
      (year : List ℕ)
      → AllDigits year
      → 4 ≤ length year
      → parsedtime mktime (year ++ rest_text blank mon day hh mm ss fr utc) ≡ (
          if in_range mon day hh mm ss
          then at_nanos (nano_value fr) (
              mktime utc (
                fields_of
                  (if ltb long_max (value 0 year) then long_max else value 0 year)
                  mon
                  day
                  hh
                  mm
                  ss))
          else none)
  parsedtime_lem year h l =
      parsedtime-stamp year h l
      ∙ stamp_lem mktime utc (if ltb long_max (value 0 year) then long_max else value 0 year) mon
          day hh mm ss (nano_value fr)
