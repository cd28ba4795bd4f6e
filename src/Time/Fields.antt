-- ===== src/Time/Fields.antt =====
-- What the getters of `Date` read back from an instant, for src/time/components-to-utc-iso.ts.
use replays_fetcher.Base.{◌≡◌, ℕ, ◌+◌, ◌-◌, ◌*◌, ◌/◌, ◌≤◌, ◌<◌, arith, ◌==◌, ◌||◌, if◌then◌else◌}
use replays_fetcher.Time.Calendar.{
  leap_day, day_from_year, month_start, month_of, year_of, get_utc_full_year, get_utc_month,
  get_utc_date, get_utc_hours, get_utc_minutes, get_utc_seconds,
}
use replays_fetcher.Time.Rule.{
  day_from_year-suc, year_of_lem, year_of_range, month_of_lem, month_of_range,
}

abbrev pub days_in_month : ℕ → ℕ → ℕ
days_in_month y m =
    if m == 2 then 28 + leap_day y else if m == 4 || m == 6 || m == 9 || m == 11 then 30 else 31

pub leap_day-le : (y : ℕ) → leap_day y ≤ 1
unfolding leap_day
leap_day-le y = ground arith

month_start-suc :
    (y m : ℕ)
    → m ≤ 11
    → month_start (leap_day y) (m + 1) ≡ month_start (leap_day y) m + days_in_month y (m + 1)
unfolding month_start
month_start-suc y m h = ground arith

pub month_start-le : (l m : ℕ) → m ≤ 12 → month_start l m ≤ 365 + l
unfolding month_start
month_start-le l m h = ground arith

abbrev pub seconds_at : (d h m s : ℕ) → ℕ
seconds_at d h m s = d * 86400 + h * 3600 + m * 60 + s

-- The time of day is read back.
pub clock_lem :
    (d h m s : ℕ)
    → h ≤ 23
    → m ≤ 59
    → s ≤ 59
    → (seconds_at d h m s / 86400 ≡ d)
      × (get_utc_hours (seconds_at d h m s) ≡ h)
      × (get_utc_minutes (seconds_at d h m s) ≡ m)
      × (get_utc_seconds (seconds_at d h m s) ≡ s)
unfolding get_utc_hours get_utc_minutes get_utc_seconds
clock_lem d h m s i j k = ground arith

-- The date is read back; the month counts from 0.
pub date_lem :
    (s y m d : ℕ)
    → m ≤ 11
    → 1 ≤ d
    → d ≤ days_in_month y (m + 1)
    → s / 86400 ≡ day_from_year y + month_start (leap_day y) m + d - 1
    → (get_utc_full_year s ≡ y) × (get_utc_month s ≡ m) × (get_utc_date s ≡ d)
unfolding get_utc_full_year get_utc_month get_utc_date
date_lem s y m d h i j e =
    let next = month_start-suc y m h in
    let below = month_start-le (leap_day y) (m + 1) (omega (arith, h)) in
    let year_suc = day_from_year-suc y in
    let year =
      year_of_lem y (s / 86400) (omega (arith, e, i))
        (omega (arith, e, i, j, next, below, year_suc)) in
    let month =
      month_of_lem (leap_day y) m (s / 86400 - day_from_year y) (leap_day-le y) h
        (omega (arith, e, i, j, next)) (omega (arith, e, i, j, next)) in
    (year, rw year month, rw (year, month) (omega (arith, e, i)))

-- Whatever the instant, its date is one of the calendar.
pub range_lem :
    (s : ℕ)
    → (get_utc_month s ≤ 11)
      × (1 ≤ get_utc_date s)
      × (get_utc_date s ≤ days_in_month (get_utc_full_year s) (get_utc_month s + 1))
      × (get_utc_hours s ≤ 23)
      × (get_utc_minutes s ≤ 59)
      × (get_utc_seconds s ≤ 59)
      × (day_from_year (get_utc_full_year s) ≤ s / 86400)
      × (s / 86400 < day_from_year (get_utc_full_year s + 1))
unfolding get_utc_full_year get_utc_month get_utc_date get_utc_hours get_utc_minutes get_utc_seconds
range_lem s =
    let y = year_of (s / 86400) in
    let (low, high) = year_of_range (s / 86400) in
    let year_suc = day_from_year-suc y in
    let (i, j, k) =
      month_of_range (leap_day y) (s / 86400 - day_from_year y) (leap_day-le y)
        (omega (arith, low, high, year_suc)) in
    let next = month_start-suc y (month_of (leap_day y) (s / 86400 - day_from_year y)) k in
    omega (arith, low, high, i, j, k, next)

-- The day number is that of the date.
pub day_number :
    (s : ℕ)
    → day_from_year (get_utc_full_year s)
        + month_start (leap_day (get_utc_full_year s)) (get_utc_month s)
        + get_utc_date s
        - 1
      ≡ s / 86400
unfolding get_utc_full_year get_utc_month get_utc_date
day_number s =
    let y = year_of (s / 86400) in
    let (low, high) = year_of_range (s / 86400) in
    let year_suc = day_from_year-suc y in
    let (i, _, _) =
      month_of_range (leap_day y) (s / 86400 - day_from_year y) (leap_day-le y)
        (omega (arith, low, high, year_suc)) in
    omega (arith, low, i)

pub days_in_month-le : (y m : ℕ) → days_in_month y m ≤ 31
days_in_month-le y m = ground (arith, leap_day-le y)
