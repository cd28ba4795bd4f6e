-- ===== src/Client/Reports.antt =====
-- What the errors of src/discovery/source-client.ts report.
use mathlib.Core.Path.{subst}
use replays_fetcher.Base.{
  ◌≡◌, ◌≢◌, refl, or_else, false, ◌+◌, ◌∙◌, ◌⊎◌, inl, inr, ℕ, Option, none, some, Text, arith,
}
use replays_fetcher.Source.Failure.{FailureKind, permanent, rate_limited, transient}
use replays_fetcher.Source.Backoff.{parse_retry_after}
use replays_fetcher.Source.Classify.{no_input, classify_failure, build_classification, resolve_kind}
use replays_fetcher.Source.Retry.{
  SourceReadPhase, RetryRun, RetryResult, is_retryable, is_retryable_kind,
}
use replays_fetcher.Source.Retry.Bounds.{with_retry_bounds}
use replays_fetcher.Source.Retry.Outcome.{with_retry_thrown}
use replays_fetcher.Client.Errors.{
  FailureDetails, SourceFetchError, ReadError, fetch_error, cloudflare_challenge_error, other_error,
  ResponseHead, build_source_fetch_error, build_direct_http_error, classify_direct, classify_ssh,
  reclassify_direct, to_fetch_code, direct_retry_after, source_unavailable_code,
}
use replays_fetcher.Client.Terminal.{
  SourceFetchOptions, run_with_retry, retry_options_of, option_of, total_tries, resolve_phase,
  to_direct_fetch_error, to_ssh_fetch_error,
}
use replays_fetcher.Client.Fetch.{
  SourceWorld, failed, never, caught_result, ssh_with_host, direct_wiring, fetch_text_by,
  direct_fetch_text, ssh_fetch_text, ssh_host_missing, fetch_text,
}
use replays_fetcher.Config.{SourceTransport, SourceConfig}

module _ {W R : Type 0} (options : Option (SourceFetchOptions W R)) (phase : SourceReadPhase)
    (url : Text) where
  -- The code of the error that is thrown in the end is that of the kind by which the retries went, with
  -- either transport.
  pub fetch_error-code :
      (e : ReadError)
      → ((to_direct_fetch_error options phase url e).code ≡ to_fetch_code (classify_direct e).kind)
        × ((to_ssh_fetch_error options phase url e).code ≡ to_fetch_code (classify_ssh e).kind)
  unfolding to_direct_fetch_error to_ssh_fetch_error build_source_fetch_error classify_direct
      classify_ssh classify_failure build_classification resolve_kind
  fetch_error-code (fetch_error e) = (refl, refl)
  fetch_error-code (cloudflare_challenge_error e) = (refl, refl)
  fetch_error-code (other_error e) = (refl, refl)

-- The classifier and the reader of `Retry-After` find in the error of a response what was in the
-- response: its status and its header.
pub build_direct_http_error-read :
    (phase : SourceReadPhase) (response : ResponseHead) (url : Text) (date_parse : Text → Option ℕ)
    (now : ℕ)
    → (classify_direct (fetch_error (build_direct_http_error phase response url))
        ≡ classify_failure (record no_input { http_status = some response.status }))
      × (direct_retry_after date_parse
            (fetch_error (build_direct_http_error phase response url))
            now
          ≡ parse_retry_after date_parse response.retry_after now)
unfolding build_direct_http_error classify_direct reclassify_direct direct_retry_after
    classify_failure build_classification resolve_kind
build_direct_http_error-read phase response url date_parse now = (refl, refl)

-- An error with the details of the call: the tries allowed, the page, the phase and the URL.
abbrev pub Reports :
    {W : Type 0} → Option (SourceFetchOptions W ReadError) → Text → SourceFetchError → Type 0
Reports options url e =
    (d : FailureDetails) × (e.details ≡ some d)
    × (d.attempts ≡ some (total_tries options))
    × (d.page ≡ option_of (λ o. o.page) options)
    × (d.phase ≡ some (resolve_phase options))
    × (d.url ≡ some url)

failed-inj : {x y : SourceFetchError} → failed x ≡ failed y → x ≡ y
failed-inj h = ground (arith, h)

-- What holds of an error that is made by the `catch` holds of the error that comes out.
caught_result-failed :
    (f : ReadError → SourceFetchError) (P : SourceFetchError → Type 0)
    (r : RetryResult Text ReadError ReadError)
    → ((e : ReadError) → P (f e))
    → (e : SourceFetchError) → caught_result f r ≡ failed e
    → P e
caught_result-failed f P (RetryResult.returned t) h e k = cc
caught_result-failed f P (RetryResult.thrown x) h e k = subst P (failed-inj k) (h x)
caught_result-failed f P (RetryResult.aborted x) h e k = subst P (failed-inj k) (h x)
caught_result-failed f P RetryResult.out_of_fuel h e k = cc

caught_result-never :
    (f : ReadError → SourceFetchError) (r : RetryResult Text ReadError ReadError)
    → r ≢ RetryResult.out_of_fuel
    → caught_result f r ≢ never
caught_result-never f (RetryResult.returned t) h = cc
caught_result-never f (RetryResult.thrown x) h = cc
caught_result-never f (RetryResult.aborted x) h = cc
caught_result-never f RetryResult.out_of_fuel h = absurd (h refl)

module _ {W : Type 0} (options : Option (SourceFetchOptions W ReadError)) (url : Text) where
  direct-Reports :
      (e : ReadError)
      → Reports options url (to_direct_fetch_error options (resolve_phase options) url e)
  unfolding to_direct_fetch_error build_source_fetch_error
  direct-Reports (fetch_error e) = (_, refl, refl, refl, refl, refl)
  direct-Reports (cloudflare_challenge_error e) = (_, refl, refl, refl, refl, refl)
  direct-Reports (other_error e) = (_, refl, refl, refl, refl, refl)

  ssh-Reports :
      (e : ReadError)
      → Reports options url (to_ssh_fetch_error options (resolve_phase options) url e)
  unfolding to_ssh_fetch_error build_source_fetch_error
  ssh-Reports e = (_, refl, refl, refl, refl, refl)

module _ {W : Type 0} (js : SourceWorld W) (config : SourceConfig) (url : Text)
    (options : Option (SourceFetchOptions W ReadError)) (w : W) where
  ssh-settles : (host : Option Text) → (ssh_with_host js config host url options w).1 ≢ never
  unfolding run_with_retry
  ssh-settles none = cc
  ssh-settles (some host) = caught_result-never _ _ (with_retry_bounds _ w).0

  by-settles : (t : SourceTransport) → (fetch_text_by js config t url options w).1 ≢ never
  unfolding direct_fetch_text ssh_fetch_text run_with_retry
  by-settles SourceTransport.direct = caught_result-never _ _ (with_retry_bounds _ w).0
  by-settles SourceTransport.ssh = ssh-settles config.source_ssh_host

  -- `fetchText` settles, with either transport.
  pub fetch_text_settles : (fetch_text js config url options w).1 ≢ never
  unfolding fetch_text
  fetch_text_settles = by-settles config.source_transport

  -- An SSH client without a host throws an error that reports nothing.
  abbrev pub NoHost : SourceTransport → Option Text → SourceFetchError → Type 0
  NoHost t host e = (t ≡ SourceTransport.ssh) × (host ≡ none) × (ssh_host_missing js config ≡ e)

  ssh-failed :
      (host : Option Text) (e : SourceFetchError)
      → (ssh_with_host js config host url options w).1 ≡ failed e
      → NoHost SourceTransport.ssh host e ⊎ Reports options url e
  ssh-failed none e h = inl (refl, refl, failed-inj h)
  ssh-failed (some host) e h =
      inr (caught_result-failed _ (Reports options url) _ (ssh-Reports options url) e h)

  by-failed :
      (t : SourceTransport) (e : SourceFetchError)
      → (fetch_text_by js config t url options w).1 ≡ failed e
      → NoHost t config.source_ssh_host e ⊎ Reports options url e
  unfolding direct_fetch_text ssh_fetch_text
  by-failed SourceTransport.direct e h =
      inr (caught_result-failed _ (Reports options url) _ (direct-Reports options url) e h)
  by-failed SourceTransport.ssh e h = ssh-failed config.source_ssh_host e h

  -- Whatever `fetchText` throws reports the tries allowed, the page, the phase and the URL of the call,
  -- except that an SSH client without a host throws an error without details.
  pub fetch_text_failed :
      (e : SourceFetchError)
      → (fetch_text js config url options w).1 ≡ failed e
      → NoHost config.source_transport config.source_ssh_host e ⊎ Reports options url e
  unfolding fetch_text
  fetch_text_failed e h = by-failed config.source_transport e h

total_tries_lem :
    {W R : Type 0} (options : Option (SourceFetchOptions W R))
    → total_tries options ≡ or_else (option_of (λ o. o.attempts) options) 0 + 1
unfolding total_tries
total_tries_lem none = refl
total_tries_lem (some o) = refl

unavailable :
    (kind : FailureKind)
    → is_retryable_kind kind ≡ false
    → to_fetch_code kind ≡ source_unavailable_code
unfolding to_fetch_code
unavailable permanent h = refl
unavailable rate_limited h = cc
unavailable transient h = cc

module _ {W : Type 0} (js : SourceWorld W) (config : SourceConfig) (url : Text)
    (options : Option (SourceFetchOptions W ReadError)) (w : W) where
  abbrev pub direct_run : RetryRun W Text ReadError ReadError
  direct_run =
      run_with_retry js.defaults (direct_wiring js config (resolve_phase options) url) options w

  -- Where the direct client gives up a page, because a read failed and not because it was aborted, the
  -- error tells that the source is unavailable, or as many reads were made as the error tells: a
  -- transient failure and a rate limit are not given up before that.
  pub direct_read_given_up :
      (error : ReadError)
      → direct_run.result ≡ RetryResult.thrown error
      → ((to_direct_fetch_error options (resolve_phase options) url error).code
          ≡ source_unavailable_code)
        ⊎ (direct_run.reads ≡ total_tries options)
  unfolding run_with_retry retry_options_of is_retryable
  direct_read_given_up error h =
      let o =
        retry_options_of js.defaults (direct_wiring js config (resolve_phase options) url)
          options in
      let code = (fetch_error-code options (resolve_phase options) url error).0 in
      let (_, most, _, _, _, _) = with_retry_bounds o w in
      elim (with_retry_thrown o w error h) [
        | inl gave_up ↦ inl (code ∙ unavailable (classify_direct error).kind gave_up)
        | inr tried ↦ inr (omega (arith, total_tries_lem options, tried, most))
      ]
