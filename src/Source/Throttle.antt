-- ===== src/Source/Throttle.antt =====
-- src/source/throttle.ts: the AIMD controller of the effective concurrency.
pub mod Bounds
use replays_fetcher.Base.{ℕ, ◌+◌, ◌/◌, min, max, Option, none, some, ltb, if◌then◌else◌}

abbrev pub ai_step : ℕ
ai_step = 1

abbrev pub concurrency_floor : ℕ
concurrency_floor = 1

abbrev pub rate_limited_window : ℕ
rate_limited_window = 2

abbrev pub clean_window : ℕ
clean_window = 3

abbrev pub pacing_floor_step_ms : ℕ
pacing_floor_step_ms = 100

pub record ThrottleControllerOptions : Type 0 where
  pub base_concurrency : ℕ
  pub min_concurrency : ℕ
  pub max_concurrency : ℕ
  pub base_spacing_ms : ℕ

-- What the closure of `createThrottleController` captures; the first two never change.
pub record ThrottleController : Type 0 where
  pub floor : ℕ
  pub max_concurrency : ℕ
  pub concurrency : ℕ
  pub pacing_floor_ms : ℕ
  pub rate_limited_streak : ℕ
  pub clean_streak : ℕ
  -- `none` is `NaN`
  pub last_signal_at_ms : Option ℕ

unfoldable pub create_throttle_controller : ThrottleControllerOptions → ThrottleController
create_throttle_controller o = record {
  floor = max concurrency_floor o.min_concurrency;
  max_concurrency = o.max_concurrency;
  concurrency = o.base_concurrency;
  pacing_floor_ms = o.base_spacing_ms;
  rate_limited_streak = 0;
  clean_streak = 0;
  last_signal_at_ms = none;
}

-- `Math.floor(concurrency * 0.5)` is the halving of a natural number.
unfoldable pub on_rate_limited : ℕ → ThrottleController → ThrottleController
on_rate_limited now_ms t =
    let streak = t.rate_limited_streak + 1 in
    if ltb streak rate_limited_window
    then record t {
      last_signal_at_ms = some now_ms;
      clean_streak = 0;
      rate_limited_streak = streak;
    }
    else record t {
      last_signal_at_ms = some now_ms;
      clean_streak = 0;
      rate_limited_streak = 0;
      concurrency = max t.floor (t.concurrency / 2);
      pacing_floor_ms = t.pacing_floor_ms + pacing_floor_step_ms;
    }

unfoldable pub on_clean_window : ℕ → ThrottleController → ThrottleController
on_clean_window now_ms t =
    let streak = t.clean_streak + 1 in
    if ltb streak clean_window
    then record t {
      last_signal_at_ms = some now_ms;
      rate_limited_streak = 0;
      clean_streak = streak;
    }
    else record t {
      last_signal_at_ms = some now_ms;
      rate_limited_streak = 0;
      clean_streak = 0;
      concurrency = min t.max_concurrency (t.concurrency + ai_step);
    }
