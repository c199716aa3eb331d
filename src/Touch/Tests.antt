-- ===== src/Touch/Tests.antt =====
-- 5 March 2031, 14:07:09, and a clock that counts the seconds of the day.
use mkrn.Prelude.{
  ℕ, ◌+◌, ◌*◌, ◌≡◌, refl, arith, if◌then◌else◌, ltb, Bool, true, false, Option, none, some, List,
  [], ◌∷◌, ◌++◌,
}
use mkrn.Touch.{Tm, parsettime, parsedtime, long_max}
use mkrn.Touch.Stamp.{
  in_range, fields_of, at_nanos, short, year_text, year_value, day_text, second_text, second_value,
  parsettime_lem,
}
use mkrn.Touch.Iso.{point, rest_text, value, nano_value, parsedtime_lem}

abbrev seconds : Bool → Tm → Option ℕ
seconds utc tm = some (3600 * tm.tm_hour + 60 * tm.tm_min + tm.tm_sec)

-- "3103051407.09"
parsettime_lem_example :
    parsettime seconds 2026 (year_text (short 31) (day_text 3 5 14 7 (second_text (some 9)))) ≡ (
      if in_range 3 5 14 7 (second_value (some 9))
      then at_nanos 0
          (seconds false (fields_of (year_value 2026 (short 31)) 3 5 14 7 (second_value (some 9))))
      else none)
parsettime_lem_example =
    parsettime_lem seconds 2026 (short 31) 3 5 14 7 (some 9) (omega arith)
      (omega arith, omega arith, omega arith, omega arith) (omega arith)

abbrev year_2031 : List ℕ
year_2031 = b'2' ∷ b'0' ∷ b'3' ∷ b'1' ∷ []

abbrev half : List ℕ
half = b'5' ∷ []

-- "2031-03-05T14:07:09.5Z"
parsedtime_lem_example :
    parsedtime seconds (year_2031 ++ rest_text false 3 5 14 7 9 (point half) true) ≡ (
      if in_range 3 5 14 7 9
      then at_nanos (nano_value (point half)) (
          seconds true (
            fields_of
              (if ltb long_max (value 0 year_2031) then long_max else value 0 year_2031)
              3
              5
              14
              7
              9))
      else none)
parsedtime_lem_example =
    parsedtime_lem seconds false 3 5 14 7 9 (point half) true
      (omega arith, omega arith, omega arith, omega arith, omega arith) (omega arith, (refl, tt))
      year_2031 (refl, (refl, (refl, (refl, tt)))) (omega arith)
