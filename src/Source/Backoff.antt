-- ===== src/Source/Backoff.antt =====
-- src/source/backoff.ts: the full-jitter delay and the `Retry-After` header.
use replays_fetcher.Base.{
  ℕ, ◌-◌, ◌*◌, ◌^◌, ◌≤◌, min, Option, none, some, Text, trim, is_digits, decimal, if◌then◌else◌,
  or_else,
}

abbrev pub base_delay_ms : ℕ
base_delay_ms = 500

abbrev pub cap_delay_ms : ℕ
cap_delay_ms = 30000

abbrev pub seconds_to_ms : ℕ
seconds_to_ms = 1000

abbrev pub retry_after_cap_ms : ℕ
retry_after_cap_ms = cap_delay_ms

pub record JitterBounds : Type 0 where
  pub base : Option ℕ
  pub cap : Option ℕ

abbrev pub default_bounds : JitterBounds
default_bounds = record { base = none; cap = none }

-- What the code relies on of one call of `random()`, a number in [0, 1): `scale n` is
-- `Math.floor(random() * n)`.
pub record IsRandom (scale : ℕ → ℕ) : Type 0 where
  pub scale_le : (n : ℕ) → scale n ≤ n

unfoldable pub full_jitter_delay : ℕ → (ℕ → ℕ) → JitterBounds → ℕ
full_jitter_delay round random bounds =
    let exponential = or_else bounds.base base_delay_ms * 2 ^ round in
    random (min exponential (or_else bounds.cap cap_delay_ms))

-- `date_parse` is `Date.parse`, with `none` for `NaN`, on dates that are not before 1970;
-- `Math.max(0, dateMs - now())` is the subtraction that stops at 0.
unfoldable pub parse_retry_after : (Text → Option ℕ) → Option Text → ℕ → Option ℕ
parse_retry_after date_parse none now = none
parse_retry_after date_parse (some value) now =
    let trimmed = trim value in
    if is_digits trimmed
    then some (decimal trimmed * seconds_to_ms)
    else elim (date_parse trimmed) [ none ↦ none | some date_ms ↦ some (date_ms - now) ]
