-- ===== src/Time/Valid.antt =====
-- Which dates src/time/components-to-utc-iso.ts renders.
use replays_fetcher.Base.{
  ◌≡◌, refl, ◌↔◌, ℕ, ◌+◌, ◌-◌, ◌/◌, ◌%◌, ◌≤◌, ◌<◌, true, false, Option, none, some, or_else, arith,
  ◌⊎◌, inl, inr, leb, leb→le, Text, Bool-cases, Option-cases,
}
use replays_fetcher.Time.Calendar.{
  leap_day, day_from_year, month_start, date_utc, get_utc_full_year, get_utc_month, get_utc_date,
  get_utc_hours, get_utc_minutes, get_utc_seconds,
}
use replays_fetcher.Time.Defs.{UtcDateComponents, iso_text, survives, components_to_utc_iso}
use replays_fetcher.Time.Fields.{
  days_in_month, days_in_month-le, leap_day-le, month_start-le, seconds_at, clock_lem, date_lem,
  range_lem,
}

-- A date and a time of day of the Gregorian calendar, in a year from 100 on.
pub record IsCalendarDate (c : UtcDateComponents) : Type 0 where
  pub year_in : 100 ≤ c.year
  pub month_in : (1 ≤ c.month) × (c.month ≤ 12)
  pub day_in : (1 ≤ c.day) × (c.day ≤ days_in_month c.year c.month)
  pub hour_in : c.hour ≤ 23
  pub minute_in : c.minute ≤ 59
  pub second_in : or_else c.second 0 ≤ 59

-- `survives` compares six numbers.
survives_iff :
    (c : UtcDateComponents) (s : ℕ)
    → (survives c s ≡ true) ↔ (
        (get_utc_full_year s ≡ c.year)
        × (get_utc_month s + 1 ≡ c.month)
        × (get_utc_date s ≡ c.day)
        × (get_utc_hours s ≡ c.hour)
        × (get_utc_minutes s ≡ c.minute)
        × (get_utc_seconds s ≡ or_else c.second 0))
unfolding survives
survives_iff c s = ground arith

abbrev pub utc_of : UtcDateComponents → Option ℕ
utc_of c = date_utc c.year c.month c.day c.hour c.minute (or_else c.second 0)

-- The years before 100 are read as years of the twentieth century, or the December before it.
date_utc-late :
    (c : UtcDateComponents) (s : ℕ)
    → utc_of c ≡ some s
    → c.year ≤ 99
    → day_from_year 1899 ≤ s / 86400 + 1
unfolding date_utc day_from_year
date_utc-late c s h k = ground (arith, h, k)

day_from_year_100 : (y : ℕ) → y ≤ 99 → day_from_year (y + 1) + 1 ≤ day_from_year 1899
unfolding day_from_year
day_from_year_100 y h = omega (arith, h)

survives-IsCalendarDate :
    (c : UtcDateComponents) (s : ℕ) → utc_of c ≡ some s → survives c s ≡ true → IsCalendarDate c
survives-IsCalendarDate c s h k =
    let (y, m, d, hh, mm, ss) = (survives_iff c s).0 k in
    let (rm, rd, re, rh, rmin, rs, low, high) = range_lem s in
    record {
      year_in = elim (Bool-cases (leb c.year 99)) [
        | inl old ↦
            let past : c.year ≤ 99 = leb→le _ _ old in
            let upper : s / 86400 < day_from_year (c.year + 1) = rw (← y) high in
            omega (arith, past, upper, date_utc-late c s h past, day_from_year_100 c.year past)
        | inr new ↦ ground (arith, new)
      ];
      month_in = (omega (arith, m), omega (arith, m, rm));
      day_in = (omega (arith, d, rd), rw (← y, ← d, ← m) re);
      hour_in = omega (arith, hh, rh);
      minute_in = omega (arith, mm, rmin);
      second_in = omega (arith, ss, rs);
    }

-- The clock does not overflow in a year of four digits.
date_utc_clip :
    (y m d : ℕ)
    → y ≤ 9999
    → m ≤ 12
    → d ≤ 31
    → day_from_year y + month_start (leap_day y) m + d - 1 ≤ 3653000
unfolding day_from_year
date_utc_clip y m d h i j = omega (arith, month_start-le (leap_day y) m i, leap_day-le y, h, j)

abbrev pub seconds_of : UtcDateComponents → ℕ
seconds_of c =
    seconds_at (day_from_year c.year + month_start (leap_day c.year) (c.month - 1) + c.day - 1)
      c.hour c.minute (or_else c.second 0)

pub utc_of-seconds_of :
    (c : UtcDateComponents) → c.year ≤ 9999 → IsCalendarDate c → utc_of c ≡ some (seconds_of c)
unfolding date_utc
utc_of-seconds_of c h v =
    let record {
      year_in = late;
      month_in = (first, last);
      day_in = (d1, d2);
      hour_in = hh;
      minute_in = mm;
      second_in = ss;
    } =
      v in
    let e1 : leb c.year 99 ≡ false = ground arith in
    let e2 : c.year + (c.month + 11) / 12 - 1 ≡ c.year = omega arith in
    let e3 : (c.month + 11) % 12 ≡ c.month - 1 = omega arith in
    let clip =
      date_utc_clip c.year (c.month - 1) c.day h (omega arith)
        (omega (arith, d2, days_in_month-le c.year c.month)) in
    rw (e1, e2, e3) ground (arith, clip, hh, mm, ss)

IsCalendarDate-survives :
    (c : UtcDateComponents) → c.year ≤ 9999 → IsCalendarDate c → survives c (seconds_of c) ≡ true
IsCalendarDate-survives c h v =
    let record {
      year_in = late;
      month_in = (first, last);
      day_in = (d1, d2);
      hour_in = hh;
      minute_in = mm;
      second_in = ss;
    } =
      v in
    let clock =
      clock_lem (day_from_year c.year + month_start (leap_day c.year) (c.month - 1) + c.day - 1)
        c.hour c.minute (or_else c.second 0) hh mm ss in
    let same : c.month - 1 + 1 ≡ c.month = omega arith in
    let date =
      date_lem (seconds_of c) c.year (c.month - 1) c.day (omega arith) d1 (rw same d2) clock.0 in
    (survives_iff c (seconds_of c)).1
      (date.0, omega (arith, date.1, same), date.2, clock.1, clock.2, clock.3)

abbrev pub iso_of : UtcDateComponents → Text
iso_of c = iso_text c.year c.month c.day c.hour c.minute (or_else c.second 0)

valid-iso :
    (c : UtcDateComponents)
    → c.year ≤ 9999
    → IsCalendarDate c
    → components_to_utc_iso c ≡ some (iso_of c)
unfolding components_to_utc_iso
valid-iso c h v = rw (utc_of-seconds_of c h v, IsCalendarDate-survives c h v) refl

iso-valid : (c : UtcDateComponents) → (components_to_utc_iso c ≡ none) ⊎ IsCalendarDate c
unfolding components_to_utc_iso
iso-valid c = elim (Option-cases (utc_of c)) [
  | inl e ↦ inl (rw e refl)
  | inr (s, e) ↦ elim (Bool-cases (survives c s)) [
    | inl k ↦ inr (survives-IsCalendarDate c s e k)
    | inr k ↦ inl (rw (e, k) refl)
  ]
]

pub iso-some :
    (c : UtcDateComponents) (t : Text)
    → components_to_utc_iso c ≡ some t
    → IsCalendarDate c × (iso_of c ≡ t)
unfolding components_to_utc_iso
iso-some c t h = elim (Option-cases (utc_of c)) [
  | inl e ↦ ground (arith, h, e)
  | inr (s, e) ↦ elim (Bool-cases (survives c s)) [
    | inl k ↦ (survives-IsCalendarDate c s e k, ground (arith, h, e, k))
    | inr k ↦ ground (arith, h, e, k)
  ]
]

-- Of components whose year has at most four digits, exactly the dates and times of the Gregorian
-- calendar in the years from 100 on are rendered, each by its own ISO text, and the others give nothing.
pub components_to_utc_iso_iff :
    (c : UtcDateComponents)
    → c.year ≤ 9999
    → ((components_to_utc_iso c ≡ some (iso_of c)) ↔ IsCalendarDate c)
      × ((components_to_utc_iso c ≡ none) ↔ (¬ IsCalendarDate c))
components_to_utc_iso_iff c h =
    let valid = valid-iso c h in
    elim (iso-valid c) [ inl e ↦ ground (arith, e, valid) | inr v ↦ ground (arith, v, valid v) ]
