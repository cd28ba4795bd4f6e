-- ===== src/Time/Texts.antt =====
-- What src/time/components-to-utc-iso.ts prints, read by the parsers of src/staging/payload.ts and
-- src/discovery/html.ts.
use replays_fetcher.Base.{
  ◌≡◌, refl, ap, ℕ, ◌/◌, ◌≤◌, false, none, some, arith, [], ◌∷◌, ◌++◌, Text, is_space, trim,
}
use replays_fetcher.Time.Defs.{
  digit, pad_two, pad_four, iso_text, read_two, filename_groups, replay_timestamp_from_filename,
  components_to_utc_iso, skip_spaces, game_date_groups, parse_game_date_to_utc_iso, survives,
}
use replays_fetcher.Time.Valid.{IsCalendarDate, components_to_utc_iso_iff}
use replays_fetcher.Time.Fields.{days_in_month-le}
use replays_fetcher.Time.Digits.{
  pad_two_lem, pad_four_lem, digit-is_digit, found, read_two-pad_two, read_four-pad_four,
}

-- The name of a replay file: its timestamp, and the rest of the name.
abbrev pub filename_of : (year month day hour minute second : ℕ) → Text → Text
filename_of year month day hour minute second rest =
    pad_four year
    ++ b'_'
      ∷ (pad_two month
          ++ b'_'
            ∷ (pad_two day
                ++ b'_'
                  ∷ b'_'
                  ∷ (pad_two hour
                      ++ b'_' ∷ (pad_two minute ++ b'_' ∷ (pad_two second ++ b'_' ∷ b'_' ∷ rest)))))

filename_groups-filename_of :
    (year month day hour minute second : ℕ) (rest : Text)
    → year ≤ 9999
    → month ≤ 99
    → day ≤ 99
    → hour ≤ 99
    → minute ≤ 99
    → second ≤ 99
    → filename_groups (filename_of year month day hour minute second rest)
      ≡ some record {
        day = day;
        hour = hour;
        minute = minute;
        month = month;
        second = some second;
        year = year;
      }
unfolding filename_groups
filename_groups-filename_of year month day hour minute second rest h1 h2 h3 h4 h5 h6 =
    rw
      (
        read_four-pad_four year _ h1,
        read_two-pad_two month _ h2,
        read_two-pad_two day _ h3,
        read_two-pad_two hour _ h4,
        read_two-pad_two minute _ h5,
        read_two-pad_two second _ h6,
      )
      refl

-- The filename of every date and time of the calendar, in a year of four digits, is read as the ISO
-- text of that date and time, whatever follows the timestamp in the name.
pub replay_timestamp-filename_of :
    (year month day hour minute second : ℕ) (rest : Text)
    → year ≤ 9999
    → IsCalendarDate record {
      day = day;
      hour = hour;
      minute = minute;
      month = month;
      second = some second;
      year = year;
    }
    → replay_timestamp_from_filename (filename_of year month day hour minute second rest)
      ≡ some (iso_text year month day hour minute second)
unfolding replay_timestamp_from_filename
replay_timestamp-filename_of year month day hour minute second rest h v =
    let most = days_in_month-le year month in
    rw
      (filename_groups-filename_of year month day hour minute second rest h
        (omega (arith, v.month_in.1)) (omega (arith, v.day_in.1, most)) (omega (arith, v.hour_in))
        (omega (arith, v.minute_in)) (omega (arith, v.second_in)))
      ((components_to_utc_iso_iff _ h).0.1 v)

-- The "Game date" cell of a listing's row.
abbrev pub cell_of : (day month year hour minute : ℕ) → Text
cell_of day month year hour minute =
    pad_two day
    ++ b'.'
      ∷ (pad_two month ++ b'.' ∷ (pad_four year ++ b' ' ∷ (pad_two hour ++ b':' ∷ pad_two minute)))

digit-is_space : (n : ℕ) → is_space (digit n) ≡ false
digit-is_space n = ground arith

trim-cell_of :
    (day month year hour minute : ℕ)
    → day ≤ 99
    → month ≤ 99
    → year ≤ 9999
    → hour ≤ 99
    → minute ≤ 99
    → trim (cell_of day month year hour minute) ≡ cell_of day month year hour minute
trim-cell_of day month year hour minute h1 h2 h3 h4 h5 =
    rw
      (
        pad_two_lem day h1,
        pad_two_lem month h2,
        pad_four_lem year h3,
        pad_two_lem hour h4,
        pad_two_lem minute h5,
        digit-is_space (day / 10),
        digit-is_space minute,
      )
      refl

read_two-last : (n : ℕ) → n ≤ 99 → read_two (pad_two n) ≡ some (n, [])
read_two-last n h =
    rw (pad_two_lem n h, digit-is_digit (n / 10), digit-is_digit n)
      (ap (found []) (omega (arith, h)))

skip_spaces-pad_two : (n : ℕ) (t : Text) → n ≤ 99 → skip_spaces (pad_two n ++ t) ≡ pad_two n ++ t
skip_spaces-pad_two n t h = rw (pad_two_lem n h, digit-is_space (n / 10)) refl

game_date_groups-cell_of :
    (day month year hour minute : ℕ)
    → day ≤ 99
    → month ≤ 99
    → year ≤ 9999
    → hour ≤ 99
    → minute ≤ 99
    → game_date_groups (cell_of day month year hour minute)
      ≡ some record {
        day = day;
        hour = hour;
        minute = minute;
        month = month;
        second = none;
        year = year;
      }
unfolding game_date_groups
game_date_groups-cell_of day month year hour minute h1 h2 h3 h4 h5 =
    rw
      (
        read_two-pad_two day _ h1,
        read_two-pad_two month _ h2,
        read_four-pad_four year _ h3,
        skip_spaces-pad_two hour _ h4,
        read_two-pad_two hour _ h4,
        read_two-last minute h5,
      )
      refl

-- The cell of a listing and the name of a file that carry the same numbers, and the second 0 in the
-- name, give the same text or both give nothing: the two parsers reject the same dates.
pub parse_game_date-filename :
    (day month year hour minute : ℕ) (rest : Text)
    → day ≤ 99
    → month ≤ 99
    → year ≤ 9999
    → hour ≤ 99
    → minute ≤ 99
    → parse_game_date_to_utc_iso (cell_of day month year hour minute)
      ≡ replay_timestamp_from_filename (filename_of year month day hour minute 0 rest)
unfolding parse_game_date_to_utc_iso replay_timestamp_from_filename components_to_utc_iso survives
parse_game_date-filename day month year hour minute rest h1 h2 h3 h4 h5 =
    rw
      (
        trim-cell_of day month year hour minute h1 h2 h3 h4 h5,
        game_date_groups-cell_of day month year hour minute h1 h2 h3 h4 h5,
        filename_groups-filename_of year month day hour minute 0 rest h3 h2 h1 h4 h5 (omega arith),
      )
      refl
