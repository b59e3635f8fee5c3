-- ===== src/Search/Tests.antt =====
-- The search service on concrete questions (app/search/).
use ktb4_2nd_ai.Prelude.{
  ℕ, ◌+◌, ◌-◌, ◌%◌, ◌≤◌, ◌<◌, ◌≡◌, refl, none, some, ltb, if◌then◌else◌, arith,
}
use ktb4_2nd_ai.Search.Dates.{
  fri, winter, back, DateUnit, RelativeDate, month_days, days_before_month, days_before_year,
  to_ordinal, make_date, add_days, weekday_of, index, Today, ordinal, months_from, resolve_month,
  resolve_weekday, season_year, resolve_season, resolve_unit, resolve,
}
use ktb4_2nd_ai.Search.Dates.Ranges.{IsRange}
use ktb4_2nd_ai.Search.Dates.Meaning.{resolve-IsRange, resolve-weekday}
use ktb4_2nd_ai.Search.Times.{contains, contains-around}

abbrev today : Today
today = record { year = 2026; month = 11; day = 25 }

abbrev last_month : RelativeDate
last_month = record { unit = DateUnit.month; offset = some (back 1); weekday = none; season = none }

abbrev last_friday : RelativeDate
last_friday = record { unit = DateUnit.weekday; offset = none; weekday = some fri; season = none }

abbrev a_winter : RelativeDate
a_winter = record { unit = DateUnit.season; offset = none; weekday = none; season = some winter }

october : resolve last_month today ≡ some (739890, 739920)
unfolding resolve resolve_unit resolve_month months_from make_date to_ordinal days_before_year
    days_before_month month_days
october = refl

friday : resolve last_friday today ≡ some (739940, 739940)
unfolding resolve resolve_unit resolve_weekday add_days to_ordinal days_before_year
    days_before_month month_days
friday = refl

-- from December of last year to the end of February
last_winter : resolve a_winter today ≡ some (739586, 739675)
unfolding resolve resolve_unit resolve_season season_year months_from make_date to_ordinal
    days_before_year days_before_month month_days
last_winter = refl

resolve-IsRange_example : IsRange 739890 739920
resolve-IsRange_example = resolve-IsRange last_month today 739890 739920 october

resolve-weekday_example :
    (◌≡◌ {A = ℕ} 739940 739940)
    × (739940 ≤ ordinal today)
    × (ordinal today < 739940 + 7)
    × (weekday_of 739940 ≡ index fri)
resolve-weekday_example = resolve-weekday last_friday fri today 739940 739940 refl refl friday

contains-around_example : contains 79200 21600 3600 ≡ (
    if ltb 79200 21600
    then ltb ((3600 + 86400 - 79200) % 86400) (21600 - 79200)
    else ltb ((3600 + 86400 - 79200) % 86400) (21600 + 86400 - 79200))
contains-around_example = contains-around 79200 21600 3600 (omega arith) (omega arith) (omega arith)
