-- ===== src/Time/Calendar.antt =====
-- What src/time/components-to-utc-iso.ts and src/time/epoch-to-utc-iso.ts use of `Date`, as ECMAScript
-- defines it: instants of UTC by whole seconds, counted from the start of the year 0.
use replays_fetcher.Base.{
  ℕ, ◌+◌, ◌-◌, ◌*◌, ◌/◌, ◌%◌, Option, none, some, Bool, ◌&&◌, ◌||◌, not, ltb, leb, ◌==◌,
  if◌then◌else◌,
}

abbrev pub leap_year : ℕ → Bool
leap_year y = y % 4 == 0 && (not (y % 100 == 0) || y % 400 == 0)

-- `DayFromYear`, from the start of the year 0.
unfoldable pub day_from_year : ℕ → ℕ
day_from_year y = 365 * y + (y + 3) / 4 + (y + 399) / 400 - (y + 99) / 100

unfoldable pub leap_day : ℕ → ℕ
leap_day y = if leap_year y then 1 else 0

-- The day of the year on which a month starts; months count from 0.
unfoldable pub month_start : ℕ → ℕ → ℕ
month_start leap m =
    if leb m 0
    then 0
    else if leb m 1
    then 31
    else if leb m 2
    then 59 + leap
    else if leb m 3
    then 90 + leap
    else if leb m 4
    then 120 + leap
    else if leb m 5
    then 151 + leap
    else if leb m 6
    then 181 + leap
    else if leb m 7
    then 212 + leap
    else if leb m 8
    then 243 + leap
    else if leb m 9
    then 273 + leap
    else if leb m 10
    then 304 + leap
    else if leb m 11
    then 334 + leap
    else 365 + leap

-- The last month that starts on or before the day.
unfoldable pub month_of : ℕ → ℕ → ℕ
month_of leap d =
    if ltb d 31
    then 0
    else if ltb d (59 + leap)
    then 1
    else if ltb d (90 + leap)
    then 2
    else if ltb d (120 + leap)
    then 3
    else if ltb d (151 + leap)
    then 4
    else if ltb d (181 + leap)
    then 5
    else if ltb d (212 + leap)
    then 6
    else if ltb d (243 + leap)
    then 7
    else if ltb d (273 + leap)
    then 8
    else if ltb d (304 + leap)
    then 9
    else if ltb d (334 + leap)
    then 10
    else 11

-- `YearFromTime`: the last year that starts on or before the day.
unfoldable pub year_of : ℕ → ℕ
year_of d =
    let y = d * 400 / 146097 in
    if ltb d (day_from_year y) then y - 1 else if leb (day_from_year (y + 1)) d then y + 1 else y

-- The days from the start of the year 0 to 1970-01-01.
abbrev pub epoch_day : ℕ
epoch_day = 719528

abbrev pub seconds_per_day : ℕ
seconds_per_day = 86400

-- `TimeClip`, whose limit is 8.64e15 milliseconds on either side of 1970.
abbrev pub time_clip : ℕ → Option ℕ
time_clip s = if leb s (epoch_day * seconds_per_day + 8640000000000) then some s else none

-- `Date.UTC(year, month - 1, day, hour, minute, second)`, with `none` for `NaN`: the years 0 to 99
-- are those of the twentieth century, and months and days beyond their range roll over.
unfoldable pub date_utc : (year month day hour minute second : ℕ) → Option ℕ
date_utc year month day hour minute second =
    let full = if leb year 99 then 1900 + year else year in
    let y = full + (month + 11) / 12 - 1 in
    let days = day_from_year y + month_start (leap_day y) ((month + 11) % 12) + day - 1 in
    time_clip (days * seconds_per_day + hour * 3600 + minute * 60 + second)

abbrev pub day_of : ℕ → ℕ
day_of s = s / seconds_per_day

unfoldable pub get_utc_full_year : ℕ → ℕ
get_utc_full_year s = year_of (day_of s)

abbrev pub day_within_year : ℕ → ℕ
day_within_year s = day_of s - day_from_year (get_utc_full_year s)

unfoldable pub get_utc_month : ℕ → ℕ
get_utc_month s = month_of (leap_day (get_utc_full_year s)) (day_within_year s)

unfoldable pub get_utc_date : ℕ → ℕ
get_utc_date s =
    day_within_year s - month_start (leap_day (get_utc_full_year s)) (get_utc_month s) + 1

unfoldable pub get_utc_hours : ℕ → ℕ
get_utc_hours s = s % seconds_per_day / 3600

unfoldable pub get_utc_minutes : ℕ → ℕ
get_utc_minutes s = s % 3600 / 60

unfoldable pub get_utc_seconds : ℕ → ℕ
get_utc_seconds s = s % 60
