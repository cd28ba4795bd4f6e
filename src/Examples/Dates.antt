-- ===== src/Examples/Dates.antt =====
-- Dates and identifiers on which the parsers of timestamps run.
use replays_fetcher.Base.{◌≡◌, refl, ◌↔◌, ℕ, ◌≤◌, Option, none, some, Text, codes, arith}
use replays_fetcher.Time.{
  parse_game_date_to_utc_iso, filename_groups, game_date_groups, pad_two, pad_four, survives,
  date_utc, get_utc_full_year, get_utc_month, get_utc_date, get_utc_hours, get_utc_minutes,
  get_utc_seconds, day_from_year, month_start, month_of, year_of, UtcDateComponents,
  components_to_utc_iso, replay_timestamp_from_filename, iso_text, epoch_to_utc_iso, string_of,
  to_iso_string, epoch_lower_bound_seconds, epoch_upper_bound_seconds, leap_day,
}
use replays_fetcher.Time.Valid.{IsCalendarDate, iso_of, components_to_utc_iso_iff}
use replays_fetcher.Time.Texts.{filename_of, replay_timestamp-filename_of}
use replays_fetcher.Time.Epoch.{epoch_to_utc_iso_iff}

abbrev leap_date : UtcDateComponents
leap_date = record { day = 29; hour = 12; minute = 34; month = 2; second = some 56; year = 2024 }

leap_date-IsCalendarDate : IsCalendarDate leap_date
unfolding leap_day
leap_date-IsCalendarDate = record {
  year_in = omega arith;
  month_in = (omega arith, omega arith);
  day_in = (omega arith, omega arith);
  hour_in = omega arith;
  minute_in = omega arith;
  second_in = omega arith;
}

components_to_utc_iso_iff_example :
    ((components_to_utc_iso leap_date ≡ some (iso_of leap_date)) ↔ IsCalendarDate leap_date)
    × ((components_to_utc_iso leap_date ≡ none) ↔ (¬ IsCalendarDate leap_date))
components_to_utc_iso_iff_example = components_to_utc_iso_iff leap_date (omega arith)

replay_timestamp-filename_of_example :
    replay_timestamp_from_filename (filename_of 2024 2 29 12 34 56 (codes "mission.json"))
    ≡ some (iso_text 2024 2 29 12 34 56)
replay_timestamp-filename_of_example =
    replay_timestamp-filename_of 2024 2 29 12 34 56 (codes "mission.json") (omega arith)
      leap_date-IsCalendarDate

epoch_to_utc_iso_iff_example :
    (epoch_to_utc_iso (codes "1709210096") ≡ some (codes "2024-02-29T12:34:56.000Z")) ↔ (
      (s : ℕ) × (epoch_lower_bound_seconds ≤ s)
      × (s ≤ epoch_upper_bound_seconds)
      × (string_of s ≡ codes "1709210096")
      × (to_iso_string s ≡ codes "2024-02-29T12:34:56.000Z"))
epoch_to_utc_iso_iff_example =
    epoch_to_utc_iso_iff (codes "1709210096") (codes "2024-02-29T12:34:56.000Z")

abbrev shown_1 : Option Text
shown_1 = replay_timestamp_from_filename (codes "2024_02_29__12_34_56__mission")

abbrev shown_2 : Option Text
shown_2 = parse_game_date_to_utc_iso (codes " 31.12.1999  23:59 ")

abbrev shown_3 : Option Text
shown_3 = parse_game_date_to_utc_iso (codes "31.04.2020 23:59")

abbrev shown_4 : Option Text
shown_4 = epoch_to_utc_iso (codes "1709210096")

abbrev shown_5 : Option Text
shown_5 = parse_game_date_to_utc_iso (codes "01.00.2020 23:59")

printed_filename : shown_1 ≡ some (codes "2024-02-29T12:34:56.000Z")
unfolding filename_groups replay_timestamp_from_filename components_to_utc_iso string_of pad_two
    pad_four iso_text survives date_utc get_utc_full_year get_utc_month get_utc_date get_utc_hours
    get_utc_minutes get_utc_seconds day_from_year month_start month_of year_of leap_day
printed_filename = refl

printed_cell : shown_2 ≡ some (codes "1999-12-31T23:59:00.000Z")
unfolding game_date_groups parse_game_date_to_utc_iso components_to_utc_iso string_of pad_two
    pad_four iso_text survives date_utc get_utc_full_year get_utc_month get_utc_date get_utc_hours
    get_utc_minutes get_utc_seconds day_from_year month_start month_of year_of leap_day
printed_cell = refl

rejected_cells : (shown_3 ≡ none) × (shown_5 ≡ none)
unfolding game_date_groups parse_game_date_to_utc_iso components_to_utc_iso string_of pad_two
    pad_four iso_text survives date_utc get_utc_full_year get_utc_month get_utc_date get_utc_hours
    get_utc_minutes get_utc_seconds day_from_year month_start month_of year_of leap_day
rejected_cells = (refl, refl)

printed_epoch : shown_4 ≡ some (codes "2024-02-29T12:34:56.000Z")
unfolding epoch_to_utc_iso to_iso_string string_of pad_two pad_four iso_text get_utc_full_year
    get_utc_month get_utc_date get_utc_hours get_utc_minutes get_utc_seconds day_from_year
    month_start month_of year_of leap_day
printed_epoch = refl
