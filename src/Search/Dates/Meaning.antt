-- ===== src/Search/Dates/Meaning.antt =====
-- What a relative date means (`resolve_relative_date`, app/search/dates.py).
use ktb4_2nd_ai.Prelude.{
  ℕ, ◌+◌, ◌-◌, ◌*◌, ◌%◌, ◌≤◌, ◌<◌, ◌≡◌, refl, Option, none, some, ◌>>=◌, arith, inr, some_injective,
  ap, sym, ◌∙◌,
}
use ktb4_2nd_ai.Search.Dates.{
  Weekday, Offset, ahead, back, RelativeDate, DateUnit, index, month_days, to_ordinal, max_ordinal,
  make_date, shift, add_days, weekday_of, Today, ordinal, resolve_day, resolve_week,
  resolve_weekday, resolve_month, resolve_year, resolve_season, resolve, Season, times_seven, both,
  start_month, season_year, resolve_unit,
}
use ktb4_2nd_ai.Search.Dates.Ranges.{
  IsRange, bind_some, months_from-IsRange, make_date-IsDate, date_order, in_range, first_day,
  index-lt,
}

-- a sum of days that the calendar has
record IsDay (d : ℕ) (o : Offset) (n : ℕ) : Type 0 where
  low : 1 ≤ n
  high : n ≤ max_ordinal
  sum : shift d o ≡ some n

add_days-IsDay : (d : ℕ) (o : Offset) (n : ℕ) → add_days d o ≡ some n → IsDay d o n
unfolding add_days
add_days-IsDay d (ahead k) n h = record {
  low = ground (arith, h);
  high = ground (arith, h);
  sum = ground (arith, h);
}
add_days-IsDay d (back k) n h = record {
  low = ground (arith, h);
  high = ground (arith, h);
  sum = ground (arith, h);
}

one_day : (d a b : ℕ) → both d ≡ some (a, b) → (d ≡ a) × (d ≡ b)
one_day d a b h =
    (ap (λ (x : ℕ × ℕ). x.0) (some_injective h), ap (λ (x : ℕ × ℕ). x.1) (some_injective h))

day-IsRange :
    (d : ℕ) (o : Offset) (today a b : ℕ)
    → add_days today o ≡ some d
    → both d ≡ some (a, b)
    → IsRange a b
day-IsRange d o today a b h e =
    let (p, q) = one_day d a b e in
    let r = add_days-IsDay today o d h in
    record {
      low = omega (arith, p, r.low);
      ordered = omega (arith, p, q);
      high = omega (arith, q, r.high);
    }

week-IsRange :
    (o : Offset) (w : Option Weekday) (today a b : ℕ)
    → resolve_week o w today ≡ some (a, b)
    → IsRange a b
unfolding resolve_week
week-IsRange o none today a b h =
    let (first, p, q) = bind_some (add_days today (back (weekday_of today))) _ (a, b) h in
    let (monday, r, u) = bind_some (add_days first (times_seven o)) _ (a, b) q in
    let (last, v, z) = bind_some (add_days monday (ahead 6)) _ (a, b) u in
    let m = add_days-IsDay first (times_seven o) monday r in
    let l = add_days-IsDay monday (ahead 6) last v in
    let is_a : monday ≡ a = ap (λ (x : ℕ × ℕ). x.0) (some_injective z) in
    let is_b : last ≡ b = ap (λ (x : ℕ × ℕ). x.1) (some_injective z) in
    let six : monday + 6 ≡ last = some_injective l.sum in
    record {
      low = omega (arith, is_a, m.low);
      ordered = omega (arith, is_a, is_b, six);
      high = omega (arith, is_b, l.high);
    }
week-IsRange o (some w) today a b h =
    let (first, p, q) = bind_some (add_days today (back (weekday_of today))) _ (a, b) h in
    let (monday, r, u) = bind_some (add_days first (times_seven o)) _ (a, b) q in
    let (d, v, z) = bind_some (add_days monday (ahead (index w))) _ (a, b) u in
    day-IsRange d (ahead (index w)) monday a b v z

december : (y : ℕ) → month_days y 12 ≡ 31
unfolding month_days
december y = refl

year-IsRange : (o : Offset) (t : Today) (a b : ℕ) → resolve_year o t ≡ some (a, b) → IsRange a b
unfolding resolve_year
year-IsRange o t a b h =
    let (y, p, q) = bind_some (shift t.year o) _ (a, b) h in
    let (start, r, u) = bind_some (make_date y 1 1) _ (a, b) q in
    let (end, v, z) = bind_some (make_date y 12 31) _ (a, b) u in
    let d = make_date-IsDate y 1 1 start r in
    let f = make_date-IsDate y 12 31 end v in
    let is_a : start ≡ a = ap (λ (x : ℕ × ℕ). x.0) (some_injective z) in
    let is_b : end ≡ b = ap (λ (x : ℕ × ℕ). x.1) (some_injective z) in
    let order =
      date_order y 1 y 12 d.year_low (ground arith) (ground arith) (ground arith)
        (inr (refl, ground arith)) in
    let top = in_range y 12 31 f.year_low f.year_high (ground arith) (ground arith) f.day_high in
    let days : month_days y 12 ≡ 31 = december y in
    let last : to_ordinal y 12 (month_days y 12) ≡ to_ordinal y 12 31 =
      ap (λ (x : ℕ). to_ordinal y 12 x) days in
    record {
      low = omega (arith, is_a, d.value, first_day y 1);
      ordered = omega (arith, is_a, is_b, d.value, f.value, order, last);
      high = omega (arith, is_b, f.value, top);
    }

season-IsRange :
    (s : Season) (o : Option Offset) (t : Today) (a b : ℕ)
    → resolve_season s o t ≡ some (a, b)
    → IsRange a b
unfolding resolve_season
season-IsRange s none t a b h =
    months_from-IsRange (season_year s t * 12 + start_month s - 1) 3 a b (ground arith) h
season-IsRange s (some o) t a b h =
    let (y, p, q) = bind_some (shift t.year o) _ (a, b) h in
    months_from-IsRange (y * 12 + start_month s - 1) 3 a b (ground arith) q

unit-IsRange :
    (u : DateUnit) (e : RelativeDate) (t : Today) (a b : ℕ)
    → resolve_unit u e t ≡ some (a, b)
    → IsRange a b
unfolding resolve_unit resolve_day resolve_weekday resolve_month
unit-IsRange DateUnit.no_unit e t a b h = absurd (cc)
unit-IsRange DateUnit.day e t a b h =
    let (o, p, q) = bind_some e.offset _ (a, b) h in
    let (d, r, u) = bind_some (add_days (ordinal t) o) _ (a, b) q in
    day-IsRange d o (ordinal t) a b r u
unit-IsRange DateUnit.week e t a b h =
    let (o, p, q) = bind_some e.offset _ (a, b) h in week-IsRange o e.weekday (ordinal t) a b q
unit-IsRange DateUnit.weekday e t a b h =
    let (w, p, q) = bind_some e.weekday _ (a, b) h in
    let o = back ((weekday_of (ordinal t) + 7 - index w) % 7) in
    let (d, r, u) = bind_some (add_days (ordinal t) o) _ (a, b) q in
    day-IsRange d o (ordinal t) a b r u
unit-IsRange DateUnit.month e t a b h =
    let (o, p, q) = bind_some e.offset _ (a, b) h in
    let (first, r, u) = bind_some (shift (t.year * 12 + t.month - 1) o) _ (a, b) q in
    months_from-IsRange first 1 a b (ground arith) u
unit-IsRange DateUnit.year e t a b h =
    let (o, p, q) = bind_some e.offset _ (a, b) h in year-IsRange o t a b q
unit-IsRange DateUnit.season e t a b h =
    let (s, p, q) = bind_some e.season _ (a, b) h in season-IsRange s e.offset t a b q

-- Every range that a relative date gives lies in the calendar, its first day no later than its last.
pub resolve-IsRange :
    (e : RelativeDate) (t : Today) (a b : ℕ) → resolve e t ≡ some (a, b) → IsRange a b
unfolding resolve
resolve-IsRange e t a b h = unit-IsRange e.unit e t a b h

latest_weekday :
    (today k n : ℕ)
    → n < 7
    → 1 ≤ today - k
    → k ≤ today
    → k ≡ (weekday_of today + 7 - n) % 7
    → (today < today - k + 7) × (weekday_of (today - k) ≡ n)
latest_weekday today k n h low fits e = (omega arith, omega arith)

weekday_back :
    (today k d : ℕ) → add_days today (back k) ≡ some d → (d ≡ today - k) × (k ≤ today) × (1 ≤ d)
unfolding add_days
weekday_back today k d h = (ground (arith, h), ground (arith, h), ground (arith, h))

unit_weekday :
    (e : RelativeDate) (w : Weekday) (t : Today)
    → e.unit ≡ DateUnit.weekday
    → e.weekday ≡ some w
    → resolve e t
      ≡ (add_days (ordinal t) (back ((weekday_of (ordinal t) + 7 - index w) % 7)) >>= λ d. both d)
unfolding resolve resolve_unit resolve_weekday
unit_weekday e w t g h = rw (resolve, resolve_unit, g, h) refl

-- A weekday without a week is the latest one up to today: one date, no later than today and less
-- than a week before it, on that weekday.
pub resolve-weekday :
    (e : RelativeDate) (w : Weekday) (t : Today) (a b : ℕ)
    → e.unit ≡ DateUnit.weekday
    → e.weekday ≡ some w
    → resolve e t ≡ some (a, b)
    → (a ≡ b) × (a ≤ ordinal t) × (ordinal t < a + 7) × (weekday_of a ≡ index w)
unfolding resolve resolve_unit resolve_weekday
resolve-weekday e w t a b is_unit is_day h =
    let today = ordinal t in
    let k = (weekday_of today + 7 - index w) % 7 in
    let found : (add_days today (back k) >>= λ d. both d) ≡ some (a, b) =
      sym (unit_weekday e w t is_unit is_day) ∙ h in
    let (d, r, u) = bind_some (add_days today (back k)) _ (a, b) found in
    let (p, q) = one_day d a b u in
    let (x, y, z) = weekday_back today k d r in
    let (v, i) = latest_weekday today k (index w) (index-lt w) (omega (arith, x, z)) y refl in
    let eq : a ≡ today - k = sym p ∙ x in
    (sym p ∙ q, omega (arith, eq, y), omega (arith, eq, v), ap weekday_of eq ∙ i)
