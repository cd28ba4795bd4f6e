-- ===== src/Source/Retry/Defs.antt =====
-- src/source/retry.ts: `withRetry` and what it calls. The caller's functions are the fields of
-- `RetrySourceReadOptions`, over the state `W` of what lies outside; an error of a read is an `E`,
-- the reason of an abort an `R`.
use replays_fetcher.Base.{
  ℕ, zero, suc, ◌+◌, min, max, Option, none, some, Bool, true, false, ◌||◌, not, leb, List, [], ◌∷◌,
  Text, or_else, if◌then◌else◌,
}
use replays_fetcher.Source.Failure.{
  FailureClassification, FailureKind, permanent, rate_limited, transient,
}
use replays_fetcher.Source.Backoff.{full_jitter_delay, retry_after_cap_ms, default_bounds}

pub data SourceReadPhase : Type 0 where
  bytes detail list : SourceReadPhase

pub record RetryAttemptEvent : Type 0 where
  pub attempt : ℕ
  pub cause_code : Option Text
  pub delay_ms : ℕ
  pub http_status : Option ℕ
  pub page : Option ℕ
  pub phase : SourceReadPhase

-- How the promise of one `read(signal)` settles.
pub data ReadResult (A E : Type 0) : Type 0 where
  resolved : A → ReadResult A E
  rejected : E → ReadResult A E

-- How the promise of `withRetry` settles. The last is the model's own: no fuel is left.
pub data RetryResult (A E R : Type 0) : Type 0 where
  returned : A → RetryResult A E R
  thrown : E → RetryResult A E R
  aborted : R → RetryResult A E R
  out_of_fuel : RetryResult A E R

pub record RetrySourceReadOptions (W A E R : Type 0) : Type 0 where
  pub attempts : ℕ
  pub classify : E → FailureClassification
  pub now : W → ℕ
  pub page : Option ℕ
  pub phase : SourceReadPhase
  -- `Math.floor(random() * n)`, for the call of `random` that each round makes
  pub random : ℕ → ℕ → ℕ
  pub read : W → W × ReadResult A E
  pub retry_after_ms : Option (E → ℕ → Option ℕ)
  -- the reason, where the caller's signal is aborted
  pub signal : W → Option R
  -- the pause, and the reason where the signal is aborted before it ends
  pub sleep : ℕ → W → W × Option R

-- What a call does: how it settles, the events that it hands to `onRetry`, and (for the statements
-- only) how many reads it makes.
pub record RetryRun (W A E R : Type 0) : Type 0 where
  pub result : RetryResult A E R
  pub events : List RetryAttemptEvent
  pub reads : ℕ
  pub world : W

abbrev pub is_retryable_kind : FailureKind → Bool
is_retryable_kind transient = true
is_retryable_kind rate_limited = true
is_retryable_kind permanent = false

unfoldable pub is_retryable : FailureClassification → Bool
is_retryable c = is_retryable_kind c.kind

-- A `Retry-After` counts only for a rate limit, and up to its cap.
abbrev pub delay_for_kind : FailureKind → ℕ → ℕ → ℕ
delay_for_kind rate_limited backoff retry_after = min (max backoff retry_after) retry_after_cap_ms
delay_for_kind _ backoff retry_after = backoff

module _ {W A E R : Type 0} where
  -- `options.retryAfterMs?.(error, now) ?? 0`
  abbrev pub resolve_retry_after : RetrySourceReadOptions W A E R → E → ℕ → ℕ
  resolve_retry_after o error now = elim (o.retry_after_ms) [
    | none ↦ 0
    | some f ↦ or_else (f error now) 0
  ]

  unfoldable pub resolve_delay :
      RetrySourceReadOptions W A E R → FailureClassification → E → ℕ → ℕ → ℕ
  resolve_delay o c error now round =
      delay_for_kind c.kind (full_jitter_delay round (o.random round) default_bounds)
        (resolve_retry_after o error now)

  unfoldable pub build_retry_event :
      RetrySourceReadOptions W A E R → FailureClassification → ℕ → ℕ → RetryAttemptEvent
  build_retry_event o c round delay = record {
    attempt = round + 1;
    cause_code = c.cause_code;
    delay_ms = delay;
    http_status = c.http_status;
    page = o.page;
    phase = o.phase;
  }

  -- `abortableSleep`: the check of the signal before the race, and the race.
  unfoldable pub abortable_sleep : RetrySourceReadOptions W A E R → ℕ → W → W × Option R
  abortable_sleep o delay w = elim (o.signal w) [
    | some reason ↦ (w, some reason)
    | none ↦ o.sleep delay w
  ]

  abbrev pub settle : RetryResult A E R → ℕ → W → RetryRun W A E R
  settle result reads w = record { result = result; events = []; reads = reads; world = w }

  -- One event and one read stand before the rest of the run.
  abbrev pub after_retry : RetryAttemptEvent → RetryRun W A E R → RetryRun W A E R
  after_retry event run = record run { events = event ∷ run.events; reads = suc run.reads }

  -- `!isRetryable(classification) || round >= options.attempts`
  abbrev pub gives_up : RetrySourceReadOptions W A E R → FailureClassification → ℕ → Bool
  gives_up o c round = not (is_retryable c) || leb o.attempts round

  -- After the pause: on to the next round, unless the signal was aborted.
  abbrev pub resume : W × Option R → (W → RetryRun W A E R) → RetryRun W A E R
  resume (w, some reason) next = settle (RetryResult.aborted reason) 0 w
  resume (w, none) next = next w

  -- The body of the loop once the read has settled; `next` is the rest of the loop.
  unfoldable pub after_read :
      RetrySourceReadOptions W A E R
      → ℕ
      → ReadResult A E
      → W
      → (W → RetryRun W A E R)
      → RetryRun W A E R
  after_read o round (resolved a) w next = settle (RetryResult.returned a) 1 w
  after_read o round (rejected error) w next =
      let c = o.classify error in
      let delay = resolve_delay o c error (o.now w) round in
      if gives_up o c round
      then settle (RetryResult.thrown error) 1 w
      else after_retry (build_retry_event o c round delay) (resume (abortable_sleep o delay w) next)

  -- The rounds from `round` on; the source's loop has no bound of its own.
  unfoldable pub retry_rounds : RetrySourceReadOptions W A E R → ℕ → ℕ → W → RetryRun W A E R
  retry_rounds o zero round w = settle RetryResult.out_of_fuel 0 w
  retry_rounds o (suc fuel) round w = elim (o.signal w) [
    | some reason ↦ settle (RetryResult.aborted reason) 0 w
    | none ↦
        let (w', outcome) = o.read w in
        after_read o round outcome w' (retry_rounds o fuel (round + 1))
  ]

  unfoldable pub with_retry : RetrySourceReadOptions W A E R → W → RetryRun W A E R
  with_retry o w = retry_rounds o (suc o.attempts) 0 w
