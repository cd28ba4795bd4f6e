-- ===== src/Client/Terminal.antt =====
-- src/discovery/source-client-retry.ts, and the errors that src/discovery/source-client-error.ts makes of
-- what the retries let through. `W` is the state of what lies outside, `R` the reason of an abort.
use replays_fetcher.Base.{ℕ, ◌+◌, Option, none, some, true, Text, codes, or_else}
use replays_fetcher.Source.Failure.{FailureClassification}
use replays_fetcher.Source.Classify.{no_input, classify_failure}
use replays_fetcher.Source.Retry.{
  SourceReadPhase, ReadResult, RetrySourceReadOptions, RetryRun, with_retry,
}
use replays_fetcher.Client.Errors.{
  SourceFetchError, ReadError, fetch_error, cloudflare_challenge_error, other_error,
  build_source_fetch_error, reclassify_direct, as_thrown,
}

-- What `onRetry` is told is in the events of a run.
pub record SourceFetchOptions (W R : Type 0) : Type 0 where
  pub attempts : Option ℕ
  pub now : Option (W → ℕ)
  pub page : Option ℕ
  pub phase : Option SourceReadPhase
  pub random : Option (ℕ → ℕ → ℕ)
  pub signal : Option (W → Option R)
  pub sleep : Option (ℕ → W → W × Option R)

-- What `withRetry` takes where the options give nothing: the clock, `Math.random` and the timer.
pub record RetryDefaults (W R : Type 0) : Type 0 where
  pub now : W → ℕ
  pub random : ℕ → ℕ → ℕ
  pub sleep : ℕ → W → W × Option R

abbrev pub no_retry_attempts : ℕ
no_retry_attempts = 0

abbrev pub initial_try : ℕ
initial_try = 1

pub record RetryWiring (W A E : Type 0) : Type 0 where
  pub classify : E → FailureClassification
  pub phase : SourceReadPhase
  pub read : W → W × ReadResult A E
  pub retry_after_ms : Option (E → ℕ → Option ℕ)

module _ {W R : Type 0} where
  -- The signal of a controller that nobody aborts.
  abbrev pub never_aborted : W → Option R
  never_aborted w = none

  unfoldable pub total_tries : Option (SourceFetchOptions W R) → ℕ
  total_tries none = no_retry_attempts + initial_try
  total_tries (some options) = or_else options.attempts no_retry_attempts + initial_try

  -- `options?.field`
  abbrev pub option_of {ℓ} :
      {A : Type ℓ}
      → (SourceFetchOptions W R → Option A)
      → Option (SourceFetchOptions W R)
      → Option A
  option_of field none = none
  option_of field (some options) = field options

  unfoldable pub retry_options_of :
      {A E : Type 0}
      → RetryDefaults W R
      → RetryWiring W A E
      → Option (SourceFetchOptions W R)
      → RetrySourceReadOptions W A E R
  retry_options_of defaults wiring options = record {
    attempts = or_else (option_of (λ o. o.attempts) options) no_retry_attempts;
    classify = wiring.classify;
    now = or_else (option_of (λ o. o.now) options) defaults.now;
    page = option_of (λ o. o.page) options;
    phase = wiring.phase;
    random = or_else (option_of (λ o. o.random) options) defaults.random;
    read = wiring.read;
    retry_after_ms = wiring.retry_after_ms;
    signal = or_else (option_of (λ o. o.signal) options) never_aborted;
    sleep = or_else (option_of (λ o. o.sleep) options) defaults.sleep;
  }

  unfoldable pub run_with_retry :
      {A E : Type 0}
      → RetryDefaults W R
      → RetryWiring W A E
      → Option (SourceFetchOptions W R)
      → W
      → RetryRun W A E R
  run_with_retry defaults wiring options = with_retry (retry_options_of defaults wiring options)

  unfoldable pub resolve_phase : Option (SourceFetchOptions W R) → SourceReadPhase
  resolve_phase options = or_else (option_of (λ o. o.phase) options) SourceReadPhase.list

  unfoldable pub to_direct_fetch_error :
      Option (SourceFetchOptions W R) → SourceReadPhase → Text → ReadError → SourceFetchError
  to_direct_fetch_error options phase url (cloudflare_challenge_error _) =
      build_source_fetch_error record {
        attempts = total_tries options;
        classification = classify_failure (record no_input { cf_challenge = some true });
        fallback_message = codes "Source returned a Cloudflare challenge";
        original_error = none;
        page = option_of (λ o. o.page) options;
        phase = phase;
        url = url;
      }
  to_direct_fetch_error options phase url (fetch_error e) = build_source_fetch_error record {
    attempts = total_tries options;
    classification = reclassify_direct e;
    fallback_message = e.message;
    original_error = none;
    page = option_of (λ o. o.page) options;
    phase = phase;
    url = url;
  }
  to_direct_fetch_error options phase url (other_error e) = build_source_fetch_error record {
    attempts = total_tries options;
    classification = classify_failure (record no_input { error = some e });
    fallback_message = codes "Source request failed";
    original_error = some e;
    page = option_of (λ o. o.page) options;
    phase = phase;
    url = url;
  }

  unfoldable pub to_ssh_fetch_error :
      Option (SourceFetchOptions W R) → SourceReadPhase → Text → ReadError → SourceFetchError
  to_ssh_fetch_error options phase url e = build_source_fetch_error record {
    attempts = total_tries options;
    classification = classify_failure (record no_input { error = some (as_thrown e) });
    fallback_message = codes "SSH source request failed";
    original_error = some (as_thrown e);
    page = option_of (λ o. o.page) options;
    phase = phase;
    url = url;
  }
