-- ===== src/Examples/Source.antt =====
-- Runs of src/source: the throttle, the pacer and the retries.
use replays_fetcher.Base.{
  Option, codes, ltb, if◌then◌else◌, ℕ, ◌+◌, ◌≡◌, ◌⊎◌, ◌≤◌, ◌<◌, ◌≢◌, refl, none, some, false, Text,
  arith, length,
}
use replays_fetcher.Source.Failure.{FailureKind, FailureClassification, transient, rate_limited}
use replays_fetcher.Source.Throttle.{ThrottleControllerOptions, ThrottleController}
use replays_fetcher.Source.Pacing.{Pacer, await_floor}
use replays_fetcher.Source.Pacing.Floor.{request_at, await_floor_shortfall}
use replays_fetcher.Source.Backoff.{IsRandom}
use replays_fetcher.Source.Retry.{
  SourceReadPhase, ReadResult, RetryResult, RetrySourceReadOptions, with_retry, is_retryable,
  retry_rounds, after_read, abortable_sleep,
}
use replays_fetcher.Source.Retry.Bounds.{with_retry_bounds}
use replays_fetcher.Source.Retry.Pauses.{with_sleep, with_retry-events, EventsFrom}
use replays_fetcher.Source.Retry.Outcome.{with_retry_thrown}

abbrev throttle_options : ThrottleControllerOptions
throttle_options = record {
  base_concurrency = 6;
  min_concurrency = 2;
  max_concurrency = 8;
  base_spacing_ms = 250;
}

abbrev fresh_throttle : ThrottleController
fresh_throttle = record {
  floor = 2;
  max_concurrency = 8;
  concurrency = 6;
  pacing_floor_ms = 250;
  rate_limited_streak = 0;
  clean_streak = 0;
  last_signal_at_ms = none;
}

abbrev classified : FailureKind → FailureClassification
classified kind = record {
  cause_code = none;
  cause_message = none;
  cf_challenge = false;
  http_status = some 503;
  kind = kind;
}

-- The reads of a source that fails `failures` times with `kind` and then answers; the outside is the
-- number of reads so far.
abbrev flaky : ℕ → FailureKind → ℕ → ℕ × ReadResult ℕ FailureKind
flaky failures kind w =
    (w + 1, if ltb w failures then ReadResult.rejected kind else ReadResult.resolved w)

abbrev options : ℕ → FailureKind → RetrySourceReadOptions ℕ ℕ FailureKind Text
options failures kind = record {
  attempts = 2;
  classify = classified;
  now = λ w. w;
  page = some 1;
  phase = SourceReadPhase.list;
  random = λ round n. n;
  read = flaky failures kind;
  retry_after_ms = some (λ e now. some 90000);
  signal = λ w. none;
  sleep = λ ms w. (w, none);
}

options-IsRandom :
    (failures : ℕ) (kind : FailureKind) (n : ℕ) → IsRandom ((options failures kind).random n)
options-IsRandom failures kind n = record { scale_le = λ m. omega arith }

abbrev pacer_at_1000 : Pacer
pacer_at_1000 = record { spacing_ms = 500; last_request_at = some 1000 }

await_floor_shortfall_example :
    let (next, slept) = await_floor 1200 pacer_at_1000 in
    let request = 1200 + slept in (0 < slept) × (request_at request next + slept ≡ request + 500)
await_floor_shortfall_example =
    await_floor_shortfall pacer_at_1000 1000 1200 refl (omega arith) (omega arith)

with_retry_bounds_example :
    let run = with_retry (options 1 transient) 0 in
    (run.result ≢ RetryResult.out_of_fuel)
    × (run.reads ≤ 3)
    × (length run.events ≤ 2)
    × (length run.events ≤ run.reads)
    × (run.reads ≤ length run.events + 1)
    × (((reason : Text) × (run.result ≡ RetryResult.aborted reason))
        ⊎ (run.reads ≡ length run.events + 1))
with_retry_bounds_example = with_retry_bounds (options 1 transient) 0

-- A pause that never ends where it is longer than half a minute.
abbrev short_sleep : ℕ → ℕ → ℕ × Option Text
short_sleep ms w = if ltb 30000 ms then (w, some (codes "never")) else (w, none)

short_sleep-agrees :
    (ms w : ℕ) → ms ≤ 30000 → (options 2 rate_limited).sleep ms w ≡ short_sleep ms w
short_sleep-agrees ms w h = ground arith

with_retry-events_example :
    EventsFrom (options 2 rate_limited) 0 (with_retry (options 2 rate_limited) 0).events
    × (with_retry (options 2 rate_limited) 0
        ≡ with_retry (with_sleep (options 2 rate_limited) short_sleep) 0)
with_retry-events_example =
    with_retry-events (options 2 rate_limited) short_sleep short_sleep-agrees
      (options-IsRandom 2 rate_limited) 0

with_retry_thrown_example :
    (is_retryable (classified transient) ≡ false) ⊎ (2 < (with_retry (options 5 transient) 0).reads)
unfolding with_retry retry_rounds after_read is_retryable abortable_sleep
with_retry_thrown_example = with_retry_thrown (options 5 transient) 0 transient refl
