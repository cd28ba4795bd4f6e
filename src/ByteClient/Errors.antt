-- ===== src/ByteClient/Errors.antt =====
-- src/storage/replay-byte-client-error.ts and src/storage/replay-byte-client-retry.ts. `W` is the state of
-- what lies outside, `R` the reason of an abort.
use replays_fetcher.Base.{ℕ, ◌+◌, Option, none, some, false, Text, codes, ◌++◌, or_else}
use replays_fetcher.Time.{string_of}
use replays_fetcher.Source.Failure.{
  FailureKind, permanent, rate_limited, transient, FailureClassification,
}
use replays_fetcher.Source.Backoff.{parse_retry_after}
use replays_fetcher.Source.Classify.{Thrown, js_error, no_input, classify_failure}
use replays_fetcher.Source.Retry.{SourceReadPhase, ReadResult, RetrySourceReadOptions}
use replays_fetcher.Client.{FailureDetails, ResponseHead, RetryDefaults, details_field, cause_field}

pub data ByteFetchCode : Type 0 where
  fetch_failed_code byte_rate_limited_code : ByteFetchCode

pub record ReplayByteFetchError : Type 0 where
  pub code : ByteFetchCode
  pub message : Text
  pub cause : Option Thrown
  pub details : Option FailureDetails

-- What a read of bytes rejects with: an `instanceof ReplayByteFetchError`, or any other value.
pub data ByteReadError : Type 0 where
  byte_error : ReplayByteFetchError → ByteReadError
  other_byte_error : Thrown → ByteReadError

pub record ByteFetchOptions (W R : Type 0) : Type 0 where
  pub attempts : Option ℕ
  pub now : Option (W → ℕ)
  pub page : Option ℕ
  pub random : Option (ℕ → ℕ → ℕ)
  pub signal : Option (W → Option R)
  pub sleep : Option (ℕ → W → W × Option R)

abbrev pub bytes_phase : SourceReadPhase
bytes_phase = SourceReadPhase.bytes

unfoldable pub to_byte_code : FailureKind → ByteFetchCode
to_byte_code rate_limited = byte_rate_limited_code
to_byte_code transient = fetch_failed_code
to_byte_code permanent = fetch_failed_code

abbrev pub byte_code_text : ByteFetchCode → Text
byte_code_text fetch_failed_code = codes "fetch_failed"
byte_code_text byte_rate_limited_code = codes "rate_limited"

unfoldable pub as_byte_thrown : ByteReadError → Thrown
as_byte_thrown (byte_error e) =
    js_error
      record {
        name = codes "ReplayByteFetchError";
        message = e.message;
        code = some (byte_code_text e.code);
      }
      (cause_field e.cause)
as_byte_thrown (other_byte_error e) = e

pub record BuildByteErrorInput : Type 0 where
  pub attempts : ℕ
  pub classification : FailureClassification
  pub fallback_message : Text
  pub original_error : Option Thrown
  pub page : Option ℕ
  pub url : Text

unfoldable pub build_byte_fetch_error : BuildByteErrorInput → ReplayByteFetchError
build_byte_fetch_error input = record {
  code = to_byte_code input.classification.kind;
  message = input.fallback_message;
  cause = input.original_error;
  details = some record {
    attempts = some input.attempts;
    cause_code = input.classification.cause_code;
    cause_message = input.classification.cause_message;
    cf_challenge = some input.classification.cf_challenge;
    http_status = input.classification.http_status;
    page = input.page;
    phase = some bytes_phase;
    retry_after = none;
    url = some input.url;
  };
}

unfoldable pub build_direct_byte_http_error : ResponseHead → Text → ReplayByteFetchError
build_direct_byte_http_error response url =
    let classification =
      classify_failure (record no_input { http_status = some response.status }) in
    record {
      code = to_byte_code classification.kind;
      message = codes "Replay byte request failed with status " ++ string_of response.status;
      cause = none;
      details = some record {
        attempts = none;
        cause_code = none;
        cause_message = none;
        cf_challenge = some false;
        http_status = some response.status;
        page = none;
        phase = some bytes_phase;
        retry_after = response.retry_after;
        url = some url;
      };
    }

-- `date_parse` as in `parse_retry_after`.
unfoldable pub direct_byte_retry_after : (Text → Option ℕ) → ByteReadError → ℕ → Option ℕ
direct_byte_retry_after date_parse (byte_error e) now =
    parse_retry_after date_parse (details_field (λ d. d.retry_after) e.details) now
direct_byte_retry_after date_parse (other_byte_error _) now = none

unfoldable pub reclassify_direct_byte : ReplayByteFetchError → FailureClassification
reclassify_direct_byte e = classify_failure record {
  cf_challenge = some false;
  error = none;
  http_status = details_field (λ d. d.http_status) e.details;
  malformed_body = none;
}

unfoldable pub classify_direct_byte : ByteReadError → FailureClassification
classify_direct_byte (byte_error e) = reclassify_direct_byte e
classify_direct_byte (other_byte_error e) = classify_failure (record no_input { error = some e })

unfoldable pub classify_ssh_byte : ByteReadError → FailureClassification
classify_ssh_byte e = classify_failure (record no_input { error = some (as_byte_thrown e) })

module _ {W R : Type 0} where
  unfoldable pub total_byte_tries : Option (ByteFetchOptions W R) → ℕ
  total_byte_tries none = 0 + 1
  total_byte_tries (some options) = or_else options.attempts 0 + 1

  -- `options?.field`
  abbrev pub byte_option {ℓ} :
      {A : Type ℓ} → (ByteFetchOptions W R → Option A) → Option (ByteFetchOptions W R) → Option A
  byte_option field none = none
  byte_option field (some options) = field options

  unfoldable pub byte_retry_options :
      {A E : Type 0}
      → RetryDefaults W R
      → (E → FailureClassification)
      → (W → W × ReadResult A E)
      → Option (E → ℕ → Option ℕ)
      → Option (ByteFetchOptions W R)
      → RetrySourceReadOptions W A E R
  byte_retry_options defaults classify read retry_after_ms options = record {
    attempts = or_else (byte_option (λ o. o.attempts) options) 0;
    classify = classify;
    now = or_else (byte_option (λ o. o.now) options) defaults.now;
    page = byte_option (λ o. o.page) options;
    phase = bytes_phase;
    random = or_else (byte_option (λ o. o.random) options) defaults.random;
    read = read;
    retry_after_ms = retry_after_ms;
    signal = or_else (byte_option (λ o. o.signal) options) (λ w. none);
    sleep = or_else (byte_option (λ o. o.sleep) options) defaults.sleep;
  }

  unfoldable pub to_direct_byte_error :
      Option (ByteFetchOptions W R) → Text → ByteReadError → ReplayByteFetchError
  to_direct_byte_error options url (byte_error e) = build_byte_fetch_error record {
    attempts = total_byte_tries options;
    classification = reclassify_direct_byte e;
    fallback_message = e.message;
    original_error = none;
    page = byte_option (λ o. o.page) options;
    url = url;
  }
  to_direct_byte_error options url (other_byte_error e) = build_byte_fetch_error record {
    attempts = total_byte_tries options;
    classification = classify_failure (record no_input { error = some e });
    fallback_message = codes "Replay byte request failed";
    original_error = some e;
    page = byte_option (λ o. o.page) options;
    url = url;
  }

  unfoldable pub to_ssh_byte_error :
      Option (ByteFetchOptions W R) → Text → ByteReadError → ReplayByteFetchError
  to_ssh_byte_error options url e = build_byte_fetch_error record {
    attempts = total_byte_tries options;
    classification = classify_failure (record no_input { error = some (as_byte_thrown e) });
    fallback_message = codes "SSH replay byte request failed";
    original_error = some (as_byte_thrown e);
    page = byte_option (λ o. o.page) options;
    url = url;
  }
