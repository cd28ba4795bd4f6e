-- ===== src/Client/Errors.antt =====
-- src/discovery/source-client-error.ts: the errors of a read and their classification.
use replays_fetcher.Base.{
  ℕ, Option, none, some, Bool, true, false, ◌&&◌, ◌||◌, List, [], ◌∷◌, ◌++◌, Text, codes,
}
use replays_fetcher.Time.{string_of}
use replays_fetcher.Source.Failure.{
  FailureKind, permanent, rate_limited, transient, FailureClassification,
}
use replays_fetcher.Source.Classify.{
  Cause, undefined_cause, caused_by, js_error, Thrown, no_input, is_true, is_prefix,
  classify_failure,
}
use replays_fetcher.Source.Backoff.{parse_retry_after}
use replays_fetcher.Source.Retry.{SourceReadPhase}

pub data SourceFetchCode : Type 0 where
  rate_limited_code source_transient_code source_unavailable_code : SourceFetchCode

-- The keys that `details` has anywhere in the code; a key that is not there is `none`.
pub record FailureDetails : Type 0 where
  pub attempts : Option ℕ
  pub cause_code : Option Text
  pub cause_message : Option Text
  pub cf_challenge : Option Bool
  pub http_status : Option ℕ
  pub page : Option ℕ
  pub phase : Option SourceReadPhase
  pub retry_after : Option Text
  pub url : Option Text

pub record SourceFetchError : Type 0 where
  pub code : SourceFetchCode
  pub message : Text
  pub cause : Option Thrown
  pub details : Option FailureDetails

-- What a read rejects with, by what the code tests: an `instanceof SourceFetchError`, an error with
-- `isCloudflareChallenge`, or any other value.
pub data ReadError : Type 0 where
  fetch_error : SourceFetchError → ReadError
  cloudflare_challenge_error : Thrown → ReadError
  other_error : Thrown → ReadError

-- What is read of a `Response` before its body.
pub record ResponseHead : Type 0 where
  pub is_ok : Bool
  pub status : ℕ
  pub has_cf_ray : Bool
  pub retry_after : Option Text

unfoldable pub to_fetch_code : FailureKind → SourceFetchCode
to_fetch_code rate_limited = rate_limited_code
to_fetch_code transient = source_transient_code
to_fetch_code permanent = source_unavailable_code

pub record BuildErrorInput : Type 0 where
  pub attempts : ℕ
  pub classification : FailureClassification
  pub fallback_message : Text
  pub original_error : Option Thrown
  pub page : Option ℕ
  pub phase : SourceReadPhase
  pub url : Text

unfoldable pub build_source_fetch_error : BuildErrorInput → SourceFetchError
build_source_fetch_error input = record {
  code = to_fetch_code input.classification.kind;
  message = input.fallback_message;
  cause = input.original_error;
  details = some record {
    attempts = some input.attempts;
    cause_code = input.classification.cause_code;
    cause_message = input.classification.cause_message;
    cf_challenge = some input.classification.cf_challenge;
    http_status = input.classification.http_status;
    page = input.page;
    phase = some input.phase;
    retry_after = none;
    url = some input.url;
  };
}

-- `text.includes(part)`, the part first.
abbrev pub includes : Text → Text → Bool
includes part [] = is_prefix part []
includes part (c ∷ t) = is_prefix part (c ∷ t) || includes part t

abbrev pub cf_body_markers : List Text
cf_body_markers =
    codes "just a moment"
    ∷ codes "cf-challenge"
    ∷ codes "challenge-platform"
    ∷ codes "/cdn-cgi/challenge"
    ∷ []

abbrev pub some_included : List Text → Text → Bool
some_included [] t = false
some_included (m ∷ ms) t = includes m t || some_included ms t

-- `to_lower_case` is that of JavaScript's strings.
unfoldable pub detect_cloudflare_challenge : (Text → Text) → ResponseHead → Text → Bool
detect_cloudflare_challenge to_lower_case response body_text =
    response.has_cf_ray && some_included cf_body_markers (to_lower_case body_text)

abbrev pub details_field {ℓ} :
    {A : Type ℓ} → (FailureDetails → Option A) → Option FailureDetails → Option A
details_field field none = none
details_field field (some d) = field d

-- `date_parse` as in `parse_retry_after`.
unfoldable pub direct_retry_after : (Text → Option ℕ) → ReadError → ℕ → Option ℕ
direct_retry_after date_parse (fetch_error e) now =
    parse_retry_after date_parse (details_field (λ d. d.retry_after) e.details) now
direct_retry_after date_parse (cloudflare_challenge_error _) now = none
direct_retry_after date_parse (other_error _) now = none

unfoldable pub build_direct_http_error : SourceReadPhase → ResponseHead → Text → SourceFetchError
build_direct_http_error phase response url =
    let classification =
      classify_failure (record no_input { http_status = some response.status }) in
    record {
      code = to_fetch_code classification.kind;
      message = codes "Source request failed with status " ++ string_of response.status;
      cause = none;
      details = some record {
        attempts = none;
        cause_code = none;
        cause_message = none;
        cf_challenge = some false;
        http_status = some response.status;
        page = none;
        phase = some phase;
        retry_after = response.retry_after;
        url = some url;
      };
    }

unfoldable pub reclassify_direct : SourceFetchError → FailureClassification
reclassify_direct e = classify_failure record {
  cf_challenge = some (is_true (details_field (λ d. d.cf_challenge) e.details));
  error = none;
  http_status = details_field (λ d. d.http_status) e.details;
  malformed_body = none;
}

unfoldable pub classify_direct : ReadError → FailureClassification
classify_direct (fetch_error e) = reclassify_direct e
classify_direct (cloudflare_challenge_error e) =
    classify_failure (record no_input { cf_challenge = some true; error = some e })
classify_direct (other_error e) =
    classify_failure (record no_input { cf_challenge = some false; error = some e })

abbrev pub code_text : SourceFetchCode → Text
code_text rate_limited_code = codes "rate_limited"
code_text source_transient_code = codes "source_transient"
code_text source_unavailable_code = codes "source_unavailable"

abbrev pub cause_field : Option Thrown → Cause
cause_field none = undefined_cause
cause_field (some e) = caused_by e

-- What the classifier sees of an error that is given to it as it is.
unfoldable pub as_thrown : ReadError → Thrown
as_thrown (fetch_error e) =
    js_error
      record {
        name = codes "SourceFetchError";
        message = e.message;
        code = some (code_text e.code);
      }
      (cause_field e.cause)
as_thrown (cloudflare_challenge_error e) = e
as_thrown (other_error e) = e

unfoldable pub classify_ssh : ReadError → FailureClassification
classify_ssh e = classify_failure (record no_input { error = some (as_thrown e) })
