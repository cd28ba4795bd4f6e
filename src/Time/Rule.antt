-- ===== src/Time/Rule.antt =====
-- The years and months of `Date` (src/time/components-to-utc-iso.ts reads them back from an instant).
use replays_fetcher.Base.{◌≡◌, ℕ, ◌+◌, ◌≤◌, ◌<◌, arith}
use replays_fetcher.Time.Calendar.{leap_day, day_from_year, month_start, month_of, year_of}

pub day_from_year-suc : (y : ℕ) → day_from_year (y + 1) ≡ day_from_year y + 365 + leap_day y
unfolding day_from_year leap_day
day_from_year-suc y = ground arith

day_from_year_mono : (y z : ℕ) → y < z → day_from_year y + 365 ≤ day_from_year z
unfolding day_from_year
day_from_year_mono y z h = omega (arith, h)

pub year_of_lem : (y d : ℕ) → day_from_year y ≤ d → d < day_from_year (y + 1) → year_of d ≡ y
unfolding day_from_year year_of
year_of_lem y d h k = ground arith

pub year_of_range : (d : ℕ) → (day_from_year (year_of d) ≤ d) × (d < day_from_year (year_of d + 1))
unfolding day_from_year year_of
year_of_range d = ground arith

pub month_of_lem :
    (l m d : ℕ)
    → l ≤ 1
    → m ≤ 11
    → month_start l m ≤ d
    → d < month_start l (m + 1)
    → month_of l d ≡ m
unfolding month_start month_of
month_of_lem l m d h k i j = ground arith

pub month_of_range :
    (l d : ℕ)
    → l ≤ 1
    → d < 365 + l
    → (month_start l (month_of l d) ≤ d)
      × (d < month_start l (month_of l d + 1))
      × (month_of l d ≤ 11)
unfolding month_start month_of
month_of_range l d h k = ground arith
