-- ===== src/Time/Defs.antt =====
-- src/time/components-to-utc-iso.ts, src/time/epoch-to-utc-iso.ts, and the timestamps that
-- src/staging/payload.ts reads from a filename and src/discovery/html.ts from a listing's cell.
-- Numbers are natural: every caller reads them from runs of two or four digits.
use replays_fetcher.Base.{
  ℕ, zero, suc, ◌+◌, ◌*◌, ◌/◌, ◌%◌, Option, none, some, Bool, ◌&&◌, ltb, leb, ◌==◌, [], ◌∷◌, ◌++◌,
  Text, codes, text_eq, is_digit, is_digits, decimal, is_space, trim, or_else, if◌then◌else◌, ◌>>=◌,
}
use replays_fetcher.Time.Calendar.{
  epoch_day, seconds_per_day, date_utc, get_utc_full_year, get_utc_month, get_utc_date,
  get_utc_hours, get_utc_minutes, get_utc_seconds,
}

pub record UtcDateComponents : Type 0 where
  pub day : ℕ
  pub hour : ℕ
  pub minute : ℕ
  pub month : ℕ
  pub second : Option ℕ
  pub year : ℕ

abbrev pub digit : ℕ → ℕ
digit n = b'0' + n % 10

-- The decimal digits of a number in front of a text: `String(value)`, on as many digits as the fuel.
abbrev pub digits_before : ℕ → ℕ → Text → Text
digits_before zero n t = t
digits_before (suc fuel) n t =
    let rest = digits_before fuel (n / 10) (digit n ∷ t) in if ltb n 10 then digit n ∷ t else rest

-- A number prints as its digits below 1e21, and 22 digits are enough for those.
unfoldable pub string_of : ℕ → Text
string_of n = digits_before 22 n []

-- `padStart(2, "0")`
abbrev pub pad_start_two : Text → Text
pad_start_two [] = codes "00"
pad_start_two (a ∷ []) = b'0' ∷ a ∷ []
pad_start_two (a ∷ b ∷ t) = a ∷ b ∷ t

-- `padStart(4, "0")`
abbrev pub pad_start_four : Text → Text
pad_start_four [] = codes "0000"
pad_start_four (a ∷ []) = codes "000" ++ a ∷ []
pad_start_four (a ∷ b ∷ []) = codes "00" ++ a ∷ b ∷ []
pad_start_four (a ∷ b ∷ c ∷ []) = b'0' ∷ a ∷ b ∷ c ∷ []
pad_start_four (a ∷ b ∷ c ∷ d ∷ t) = a ∷ b ∷ c ∷ d ∷ t

unfoldable pub pad_two : ℕ → Text
pad_two value = pad_start_two (string_of value)

unfoldable pub pad_four : ℕ → Text
pad_four value = pad_start_four (string_of value)

-- The ISO text of a year, a month from 1, a day, an hour, a minute and a second.
unfoldable pub iso_text : (year month day hour minute second : ℕ) → Text
iso_text year month day hour minute second =
    pad_four year
    ++ b'-' ∷ pad_two month
    ++ b'-' ∷ pad_two day
    ++ b'T' ∷ pad_two hour
    ++ b':' ∷ pad_two minute
    ++ b':' ∷ pad_two second
    ++ codes ".000Z"

-- Every component survives the way through `Date.UTC`.
unfoldable pub survives : UtcDateComponents → ℕ → Bool
survives c date =
    get_utc_full_year date == c.year
    && get_utc_month date + 1 == c.month
    && get_utc_date date == c.day
    && get_utc_hours date == c.hour
    && get_utc_minutes date == c.minute
    && get_utc_seconds date == or_else c.second 0

abbrev pub iso_if : UtcDateComponents → Option ℕ → Option Text
iso_if c none = none
iso_if c (some date) =
    if survives c date
    then some (iso_text c.year c.month c.day c.hour c.minute (or_else c.second 0))
    else none

unfoldable pub components_to_utc_iso : UtcDateComponents → Option Text
components_to_utc_iso c =
    iso_if c (date_utc c.year c.month c.day c.hour c.minute (or_else c.second 0))

abbrev pub epoch_lower_bound_seconds : ℕ
epoch_lower_bound_seconds = 1420070400

abbrev pub epoch_upper_bound_seconds : ℕ
epoch_upper_bound_seconds = 2051222400

-- `new Date(seconds * 1000).toISOString()`, of an instant whose year has at most four digits.
unfoldable pub to_iso_string : ℕ → Text
to_iso_string seconds =
    let date = epoch_day * seconds_per_day + seconds in
    iso_text (get_utc_full_year date) (get_utc_month date + 1) (get_utc_date date)
      (get_utc_hours date) (get_utc_minutes date) (get_utc_seconds date)

-- `Number(externalId)` rounds from 2^53 on; such a number is beyond the upper bound either way.
unfoldable pub epoch_to_utc_iso : Text → Option Text
epoch_to_utc_iso external_id =
    let seconds = decimal external_id in
    if is_digits external_id
      && text_eq (string_of seconds) external_id
      && leb epoch_lower_bound_seconds seconds
      && leb seconds epoch_upper_bound_seconds
    then some (to_iso_string seconds)
    else none

-- What a group `\d{2}` or `\d{4}` matched, with the rest of the text.
abbrev pub read_two : Text → Option (ℕ × Text)
read_two [] = none
read_two (a ∷ []) = none
read_two (a ∷ b ∷ t) = if is_digit a && is_digit b then some (decimal (a ∷ b ∷ []), t) else none

abbrev pub read_four : Text → Option (ℕ × Text)
read_four [] = none
read_four (a ∷ []) = none
read_four (a ∷ b ∷ []) = none
read_four (a ∷ b ∷ c ∷ []) = none
read_four (a ∷ b ∷ c ∷ d ∷ t) =
    if is_digit a && is_digit b && is_digit c && is_digit d
    then some (decimal (a ∷ b ∷ c ∷ d ∷ []), t)
    else none

-- A literal character of the pattern.
abbrev pub read_char : ℕ → Text → Option Text
read_char c [] = none
read_char c (a ∷ t) = if a == c then some t else none

-- `\s+`, after which only a digit can follow.
abbrev pub skip_spaces : Text → Text
skip_spaces [] = []
skip_spaces (a ∷ t) = let rest = skip_spaces t in if is_space a then rest else a ∷ t

abbrev pub read_spaces : Text → Option Text
read_spaces [] = none
read_spaces (a ∷ t) = if is_space a then some (skip_spaces t) else none

abbrev pub read_end : Text → Option (Unit {0})
read_end [] = some tt
read_end (_ ∷ _) = none

-- The groups of `/^(\d{4})_(\d{2})_(\d{2})__(\d{2})_(\d{2})_(\d{2})__/u`.
unfoldable pub filename_groups : Text → Option UtcDateComponents
filename_groups filename = do
  (year, t) ← read_four filename
  t ← read_char b'_' t
  (month, t) ← read_two t
  t ← read_char b'_' t
  (day, t) ← read_two t
  t ← read_char b'_' t
  t ← read_char b'_' t
  (hour, t) ← read_two t
  t ← read_char b'_' t
  (minute, t) ← read_two t
  t ← read_char b'_' t
  (second, t) ← read_two t
  t ← read_char b'_' t
  t ← read_char b'_' t
  some record {
    day = day;
    hour = hour;
    minute = minute;
    month = month;
    second = some second;
    year = year;
  }

unfoldable pub replay_timestamp_from_filename : Text → Option Text
replay_timestamp_from_filename filename = filename_groups filename >>= components_to_utc_iso

-- The groups of `/^(\d{2})\.(\d{2})\.(\d{4})\s+(\d{2}):(\d{2})$/u`.
unfoldable pub game_date_groups : Text → Option UtcDateComponents
game_date_groups cell = do
  (day, t) ← read_two cell
  t ← read_char b'.' t
  (month, t) ← read_two t
  t ← read_char b'.' t
  (year, t) ← read_four t
  t ← read_spaces t
  (hour, t) ← read_two t
  t ← read_char b':' t
  (minute, t) ← read_two t
  _ ← read_end t
  some record { day = day; hour = hour; minute = minute; month = month; second = none; year = year }

unfoldable pub parse_game_date_to_utc_iso : Text → Option Text
parse_game_date_to_utc_iso cell = game_date_groups (trim cell) >>= components_to_utc_iso
