-- ===== src/Search/Dates.antt =====
-- `resolve_relative_date` (app/search/dates.py). A date is its proleptic ordinal, 1 being the first of
-- January of the year 1, as `date.toordinal` counts; none stands for a `ValueError` or an
-- `OverflowError`, which both give no range.
use ktb4_2nd_ai.Prelude.{
  ℕ, zero, suc, ◌+◌, ◌-◌, ◌*◌, ◌/◌, ◌%◌, Bool, true, false, not, ◌&&◌, ◌||◌, Option, none, some,
  ltb, leb, ◌==◌, if◌then◌else◌, ◌>>=◌, bit,
}
pub mod Ranges
pub mod Meaning

-- `Weekday` and `Season`
pub data Weekday : Type 0 where
  mon tue wed thu fri sat sun : Weekday

pub data Season : Type 0 where
  spring summer fall winter : Season

-- `Unit`; the unit "none" is `no_unit`
pub data DateUnit : Type 0 where
  no_unit day week weekday month year season : DateUnit

-- an `int`: `ahead n` is n and `back n` is -n
pub data Offset : Type 0 where
  ahead back : ℕ → Offset

-- `RelativeDate`
pub record RelativeDate : Type 0 where
  pub unit : DateUnit
  pub offset : Option Offset
  pub weekday : Option Weekday
  pub season : Option Season

-- `WEEKDAYS.index`
abbrev pub index : Weekday → ℕ
index mon = 0
index tue = 1
index wed = 2
index thu = 3
index fri = 4
index sat = 5
index sun = 6

-- `SEASON_START_MONTH`
abbrev pub start_month : Season → ℕ
start_month spring = 3
start_month summer = 6
start_month fall = 9
start_month winter = 12

-- the calendar: leap years, `monthrange(year, month)[1]`, and the days before a month and a year
abbrev pub is_leap : ℕ → Bool
is_leap y = y % 4 == 0 && (not (y % 100 == 0) || y % 400 == 0)

unfoldable pub month_days : ℕ → ℕ → ℕ
month_days y m =
    if m == 2
    then 28 + bit (is_leap y)
    else if m == 4 || (m == 6 || (m == 9 || m == 11))
    then 30
    else 31

unfoldable pub days_before_month : ℕ → ℕ → ℕ
unfolding month_days
days_before_month y zero = 0
days_before_month y (suc zero) = 0
days_before_month y (suc (suc m)) = days_before_month y (suc m) + month_days y (suc m)

unfoldable pub days_before_year : ℕ → ℕ
days_before_year y = (y - 1) * 365 + (y - 1) / 4 - (y - 1) / 100 + (y - 1) / 400

-- `date(year, month, day)`
unfoldable pub to_ordinal : ℕ → ℕ → ℕ → ℕ
unfolding days_before_year days_before_month
to_ordinal y m d = days_before_year y + days_before_month y m + d

abbrev pub max_ordinal : ℕ
max_ordinal = 3652059

unfoldable pub make_date : ℕ → ℕ → ℕ → Option ℕ
unfolding to_ordinal month_days
make_date y m d =
    if leb 1 y && (leb y 9999 && (leb 1 m && (leb m 12 && (leb 1 d && leb d (month_days y m)))))
    then some (to_ordinal y m d)
    else none

-- `int + int`, for results that are not negative
abbrev pub shift : ℕ → Offset → Option ℕ
shift n (ahead k) = some (n + k)
shift n (back k) = if leb k n then some (n - k) else none

abbrev pub times_seven : Offset → Offset
times_seven (ahead k) = ahead (7 * k)
times_seven (back k) = back (7 * k)

-- `date + timedelta(days=…)`
abbrev pub in_calendar : ℕ → Option ℕ
in_calendar n = if leb 1 n && leb n max_ordinal then some n else none

unfoldable pub add_days : ℕ → Offset → Option ℕ
add_days d o = shift d o >>= λ n. in_calendar n

-- `date.weekday`
abbrev pub weekday_of : ℕ → ℕ
weekday_of d = (d + 6) % 7

-- the year, month and day of today
pub record Today : Type 0 where
  pub year : ℕ
  pub month : ℕ
  pub day : ℕ

abbrev pub ordinal : Today → ℕ
ordinal t = to_ordinal t.year t.month t.day

-- `_month_range` from the number of months before the first of its months
unfoldable pub months_from : ℕ → ℕ → Option (ℕ × ℕ)
unfolding make_date
months_from first months = do
  start ← make_date (first / 12) (first % 12 + 1) 1
  end ←
      make_date ((first + months - 1) / 12) ((first + months - 1) % 12 + 1)
        (month_days ((first + months - 1) / 12) ((first + months - 1) % 12 + 1))
  some (start, end)

abbrev pub both : ℕ → Option (ℕ × ℕ)
both d = some (d, d)

unfoldable pub resolve_day : Offset → ℕ → Option (ℕ × ℕ)
unfolding add_days
resolve_day o today = add_days today o >>= λ d. both d

unfoldable pub resolve_week : Offset → Option Weekday → ℕ → Option (ℕ × ℕ)
unfolding add_days
resolve_week o w today = do
  first ← add_days today (back (weekday_of today))
  monday ← add_days first (times_seven o)
  elim w [
    | none ↦ add_days monday (ahead 6) >>= λ d. some (monday, d)
    | some v ↦ add_days monday (ahead (index v)) >>= λ d. both d
  ]

-- Python's `%` gives a number from 0 to 6, also for a negative difference
unfoldable pub resolve_weekday : Weekday → ℕ → Option (ℕ × ℕ)
unfolding add_days
resolve_weekday w today =
    add_days today (back ((weekday_of today + 7 - index w) % 7)) >>= λ d. both d

unfoldable pub resolve_month : Offset → Today → Option (ℕ × ℕ)
unfolding months_from
resolve_month o t = shift (t.year * 12 + t.month - 1) o >>= λ first. months_from first 1

unfoldable pub resolve_year : Offset → Today → Option (ℕ × ℕ)
unfolding make_date
resolve_year o t = do
  y ← shift t.year o
  start ← make_date y 1 1
  end ← make_date y 12 31
  some (start, end)

-- the year of the latest season that has begun
unfoldable pub season_year : Season → Today → ℕ
unfolding to_ordinal
season_year s t =
    if leb (to_ordinal t.year (start_month s) 1) (ordinal t) then t.year else t.year - 1

unfoldable pub resolve_season : Season → Option Offset → Today → Option (ℕ × ℕ)
unfolding season_year months_from
resolve_season s none t = months_from (season_year s t * 12 + start_month s - 1) 3
resolve_season s (some o) t = shift t.year o >>= λ y. months_from (y * 12 + start_month s - 1) 3

-- `_resolve`, the cases of its `match`
unfoldable pub resolve_unit : DateUnit → RelativeDate → Today → Option (ℕ × ℕ)
unfolding resolve_day resolve_week resolve_weekday resolve_month resolve_year resolve_season
resolve_unit no_unit e t = none
resolve_unit day e t = e.offset >>= λ o. resolve_day o (ordinal t)
resolve_unit week e t = e.offset >>= λ o. resolve_week o e.weekday (ordinal t)
resolve_unit weekday e t = e.weekday >>= λ w. resolve_weekday w (ordinal t)
resolve_unit month e t = e.offset >>= λ o. resolve_month o t
resolve_unit year e t = e.offset >>= λ o. resolve_year o t
resolve_unit season e t = e.season >>= λ s. resolve_season s e.offset t

unfoldable pub resolve : RelativeDate → Today → Option (ℕ × ℕ)
unfolding resolve_unit
resolve e t = resolve_unit e.unit e t
