-- ===== src/Search/Dates/Ranges.antt =====
-- The ranges that relative dates give (app/search/dates.py).
use ktb4_2nd_ai.Prelude.{
  ℕ, zero, suc, ◌+◌, ◌-◌, ◌/◌, ◌%◌, ◌≤◌, ◌<◌, ◌≡◌, ◌⊎◌, refl, Option, none, some, ltb, ◌>>=◌, bit,
  arith, Bool-cases, inl, inr, some_injective, ap, subst,
}
use ktb4_2nd_ai.Search.Dates.{
  Weekday, mon, tue, wed, thu, fri, sat, sun, index, is_leap, month_days, days_before_month,
  days_before_year, to_ordinal, max_ordinal, make_date, months_from,
}

pub bind_some :
    {A B : Type 0} (o : Option A) (f : A → Option B) (b : B)
    → o >>= f ≡ some b
    → (a : A) × (o ≡ some a) × (f a ≡ some b)
bind_some none f b h = absurd (cc)
bind_some (some a) f b h = (a, refl, h)

pub index-lt : (w : Weekday) → index w < 7
index-lt mon = ground arith
index-lt tue = ground arith
index-lt wed = ground arith
index-lt thu = ground arith
index-lt fri = ground arith
index-lt sat = ground arith
index-lt sun = ground arith

next_year : (y : ℕ) → 1 ≤ y → days_before_year (y + 1) ≡ days_before_year y + 365 + bit (is_leap y)
unfolding days_before_year
next_year y h = ground arith

year_order : (y z : ℕ) → y ≤ z → days_before_year y ≤ days_before_year z
unfolding days_before_year
year_order y z h = ground arith

month_step :
    (y m : ℕ) → 1 ≤ m → days_before_month y (m + 1) ≡ days_before_month y m + month_days y m
unfolding days_before_month
month_step y zero h = absurd (ground arith)
month_step y (suc m) h =
    let next : suc m + 1 ≡ suc (suc m) = ground arith in ap (days_before_month y) next

month_order : (y m k : ℕ) → 1 ≤ m → days_before_month y m ≤ days_before_month y (m + k)
month_order y m zero h =
    let same : m + 0 ≡ m = ground arith in
    let e : days_before_month y (m + 0) ≡ days_before_month y m = ap (days_before_month y) same in
    omega (arith, e)
month_order y m (suc k) h =
    let next : m + suc k ≡ (m + k) + 1 = ground arith in
    let e : days_before_month y (m + suc k) ≡ days_before_month y ((m + k) + 1) =
      ap (days_before_month y) next in
    omega (arith, e, month_step y (m + k) (ground arith), month_order y m k h)

whole_year : (y : ℕ) → days_before_month y 13 ≡ 365 + bit (is_leap y)
unfolding days_before_month month_days
whole_year y = ground arith

month_order_to : (y m n : ℕ) → 1 ≤ m → m ≤ n → days_before_month y m ≤ days_before_month y n
month_order_to y m n h k =
    let split : m + (n - m) ≡ n = ground arith in
    subst (λ (x : ℕ). days_before_month y m ≤ days_before_month y x) split
      (month_order y m (n - m) h)

-- the last day of a month is within its year
month_end :
    (y m : ℕ) → 1 ≤ m → m ≤ 12 → days_before_month y m + month_days y m ≤ 365 + bit (is_leap y)
month_end y m h k = omega (
  arith,
  month_step y m h,
  month_order_to y (m + 1) 13 (ground arith) (ground arith),
  whole_year y,
)

end_of_time : days_before_year 10000 ≡ 3652059
unfolding days_before_year
end_of_time = refl

month_first : (y m : ℕ) → 28 ≤ month_days y m
unfolding month_days
month_first y m = ground arith

-- the first of a month is no later than the end of that month or of a later one
pub date_order :
    (y m z n : ℕ)
    → 1 ≤ y
    → 1 ≤ m
    → m ≤ 12
    → 1 ≤ n
    → ((y < z) ⊎ ((y ≡ z) × (m ≤ n)))
    → to_ordinal y m 1 ≤ to_ordinal z n (month_days z n)
unfolding to_ordinal
date_order y m z n hy hm km hn (inl h) = omega (
  arith,
  next_year y hy,
  year_order (y + 1) z (ground arith),
  month_end y m hm km,
  month_first y m,
  month_first z n,
)
date_order y m z n hy hm km hn (inr (e, h)) =
    let same : days_before_year y ≡ days_before_year z = ap days_before_year e in
    let months : days_before_month y m ≤ days_before_month z n =
      subst (λ (x : ℕ). days_before_month y m ≤ days_before_month x n) e
        (month_order_to y m n hm h) in
    omega (arith, same, months, month_first z n)

pub in_range :
    (y m d : ℕ)
    → 1 ≤ y
    → y ≤ 9999
    → 1 ≤ m
    → m ≤ 12
    → d ≤ month_days y m
    → to_ordinal y m d ≤ max_ordinal
unfolding to_ordinal
in_range y m d hy ky hm km h =
    let last : days_before_year (y + 1) ≤ 3652059 = upper (y + 1) (ground arith) in
    omega (arith, next_year y hy, last, month_end y m hm km)
  where
    upper : (z : ℕ) → z ≤ 10000 → days_before_year z ≤ 3652059
    upper z h = omega (arith, year_order z 10000 h, end_of_time)

pub first_day : (y m : ℕ) → 1 ≤ to_ordinal y m 1
unfolding to_ordinal
first_day y m = ground arith

-- what a date that `date(…)` accepts is
pub record IsDate (y m d o : ℕ) : Type 0 where
  pub year_low : 1 ≤ y
  pub year_high : y ≤ 9999
  pub month_low : 1 ≤ m
  pub month_high : m ≤ 12
  pub day_high : d ≤ month_days y m
  pub value : o ≡ to_ordinal y m d

pub make_date-IsDate : (y m d o : ℕ) → make_date y m d ≡ some o → IsDate y m d o
unfolding make_date
make_date-IsDate y m d o h = record {
  year_low = ground (arith, h);
  year_high = ground (arith, h);
  month_low = ground (arith, h);
  month_high = ground (arith, h);
  day_high = ground (arith, h);
  value = ground (arith, h);
}

-- a range of the calendar
pub record IsRange (a b : ℕ) : Type 0 where
  pub low : 1 ≤ a
  pub ordered : a ≤ b
  pub high : b ≤ max_ordinal

pub months_from-IsRange :
    (first months a b : ℕ) → 1 ≤ months → months_from first months ≡ some (a, b) → IsRange a b
unfolding months_from
months_from-IsRange first months a b h e =
    let last = first + months - 1 in
    let y = first / 12 in
    let m = first % 12 + 1 in
    let z = last / 12 in
    let n = last % 12 + 1 in
    let (start, p, q) = bind_some (make_date y m 1) _ (a, b) e in
    let (end, r, v) = bind_some (make_date z n (month_days z n)) _ (a, b) q in
    let d = make_date-IsDate y m 1 start p in
    let f = make_date-IsDate z n (month_days z n) end r in
    let is_a : start ≡ a = ap (λ (x : ℕ × ℕ). x.0) (some_injective v) in
    let is_b : end ≡ b = ap (λ (x : ℕ × ℕ). x.1) (some_injective v) in
    let later : (y < z) ⊎ ((y ≡ z) × (m ≤ n)) = after first last (ground arith) in
    let order = date_order y m z n d.year_low d.month_low d.month_high f.month_low later in
    let top =
      in_range z n (month_days z n) f.year_low f.year_high f.month_low f.month_high
        (ground arith) in
    record {
      low = omega (arith, is_a, d.value, positive y m);
      ordered = omega (arith, is_a, is_b, d.value, f.value, order);
      high = omega (arith, is_b, f.value, top);
    }
  where
    positive : (y m : ℕ) → 1 ≤ to_ordinal y m 1
    positive y m = first_day y m

    after : (f l : ℕ) → f ≤ l → (f / 12 < l / 12) ⊎ ((f / 12 ≡ l / 12) × (f % 12 + 1 ≤ l % 12 + 1))
    after f l h = elim (Bool-cases (ltb (f / 12) (l / 12))) [
      | inl b ↦ inl (ground arith)
      | inr b ↦ inr (ground arith, ground arith)
    ]
