-- ===== src/Adoption/Types.antt =====
-- Dates of the Gregorian calendar, as datetime.date has them, and DateSpan.
use docket_pub.Prelude.{ℕ, ◌%◌, Bool, ◌&&◌, ◌||◌, not, leb, ltb, ◌==◌, if◌then◌else◌}

pub record Date : Type 0 where
  pub year : ℕ
  pub month : ℕ
  pub day : ℕ

-- a < b
unfoldable pub is_before : Date → Date → Bool
is_before a b =
    ltb a.year b.year
    || (a.year == b.year && (ltb a.month b.month || (a.month == b.month && ltb a.day b.day)))

-- a <= b
abbrev pub is_upto : Date → Date → Bool
is_upto a b = not (is_before b a)

unfoldable pub is_leap : (year : ℕ) → Bool
is_leap y = y % 4 == 0 && (not (y % 100 == 0) || y % 400 == 0)

unfoldable pub days_in : (year month : ℕ) → ℕ
days_in y m =
    if m == 2
    then if is_leap y then 29 else 28
    else if m == 4 || m == 6 || m == 9 || m == 11
    then 30
    else 31

-- Whether date(y, m, d) does not raise.
unfoldable pub is_date : Date → Bool
is_date d =
    leb 1 d.year
    && leb d.year 9999
    && leb 1 d.month
    && leb d.month 12
    && leb 1 d.day
    && leb d.day (days_in d.year d.month)

pub record DateSpan : Type 0 where
  pub start : Date
  pub end : Date

unfoldable pub same_date : Date → Date → Bool
same_date a b = a.year == b.year && a.month == b.month && a.day == b.day

unfoldable pub is_range : DateSpan → Bool
is_range s = not (same_date s.start s.end)
