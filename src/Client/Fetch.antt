-- ===== src/Client/Fetch.antt =====
-- src/discovery/source-client.ts. The network, the `ssh` process and the encodings are parameters, over the
-- state `W` of what lies outside. The timeouts and the caller's signal abort what these parameters do,
-- which then reject.
use replays_fetcher.Base.{
  ℕ, Option, none, some, List, [], ◌∷◌, ◌++◌, Text, codes, Result, ok, err, if◌then◌else◌,
}
use replays_fetcher.Config.{SourceTransport, SourceConfig}
use replays_fetcher.Source.Classify.{Thrown, undefined_cause, js_error}
use replays_fetcher.Source.Retry.{SourceReadPhase, ReadResult, RetryResult, RetryRun}
use replays_fetcher.Client.Errors.{
  source_unavailable_code, SourceFetchError, ReadError, fetch_error, cloudflare_challenge_error,
  other_error, ResponseHead, detect_cloudflare_challenge, direct_retry_after,
  build_direct_http_error, classify_direct, classify_ssh,
}
use replays_fetcher.Client.Terminal.{
  SourceFetchOptions, RetryDefaults, RetryWiring, run_with_retry, resolve_phase,
  to_direct_fetch_error, to_ssh_fetch_error,
}

-- A response, with the reading of its body.
pub record HttpResponse (W : Type 0) : Type 0 where
  pub head : ResponseHead
  pub text : W → W × Result Thrown Text

pub record SourceWorld (W : Type 0) : Type 0 where
  pub fetch : Text → W → W × Result Thrown (HttpResponse W)
  -- `execFile(file, arguments, { timeout })`, and the standard output
  pub exec_file : Text → List Text → ℕ → W → W × Result Thrown Text
  pub date_parse : Text → Option ℕ
  pub to_base64 : Text → Text
  pub to_lower_case : Text → Text
  -- the reason of an abort is thrown as it is
  pub defaults : RetryDefaults W ReadError

-- How the promise of `fetchText` settles; the last is the model's own, for fuel that is used up.
pub data FetchResult : Type 0 where
  fetched : Text → FetchResult
  failed : SourceFetchError → FetchResult
  never : FetchResult

abbrev pub challenge_error : Thrown
challenge_error =
    js_error
      record {
        name = codes "Error";
        message = codes "Source returned a Cloudflare challenge";
        code = none;
      }
      undefined_cause

-- The `catch` of a run of the retries.
abbrev pub caught_result :
    (ReadError → SourceFetchError) → RetryResult Text ReadError ReadError → FetchResult
caught_result f (RetryResult.returned t) = fetched t
caught_result f (RetryResult.thrown e) = failed (f e)
caught_result f (RetryResult.aborted e) = failed (f e)
caught_result f RetryResult.out_of_fuel = never

abbrev pub caught :
    {W : Type 0}
    → (ReadError → SourceFetchError)
    → RetryRun W Text ReadError ReadError
    → W × FetchResult
caught f run = (run.world, caught_result f run.result)

module _ {W : Type 0} (js : SourceWorld W) (config : SourceConfig) where
  abbrev pub after_body : ResponseHead → W × Result Thrown Text → W × ReadResult Text ReadError
  after_body response (w, ok body) =
      if detect_cloudflare_challenge js.to_lower_case response body
      then (w, ReadResult.rejected (cloudflare_challenge_error challenge_error))
      else (w, ReadResult.resolved body)
  after_body response (w, err e) = (w, ReadResult.rejected (other_error e))

  abbrev pub after_response :
      SourceReadPhase → Text → W × Result Thrown (HttpResponse W) → W × ReadResult Text ReadError
  after_response phase url (w, ok response) =
      if response.head.is_ok
      then after_body response.head (response.text w)
      else (w, ReadResult.rejected (fetch_error (build_direct_http_error phase response.head url)))
  after_response phase url (w, err e) = (w, ReadResult.rejected (other_error e))

  -- One read of the direct client.
  unfoldable pub direct_read : SourceReadPhase → Text → W → W × ReadResult Text ReadError
  direct_read phase url w = after_response phase url (js.fetch url w)

  abbrev pub direct_wiring : SourceReadPhase → Text → RetryWiring W Text ReadError
  direct_wiring phase url = record {
    classify = classify_direct;
    phase = phase;
    read = direct_read phase url;
    retry_after_ms = some (direct_retry_after js.date_parse);
  }

  unfoldable pub direct_fetch_text :
      Text → Option (SourceFetchOptions W ReadError) → W → W × FetchResult
  direct_fetch_text url options w =
      let phase = resolve_phase options in
      caught (to_direct_fetch_error options phase url)
        (run_with_retry js.defaults (direct_wiring phase url) options w)

  abbrev pub after_exec : W × Result Thrown Text → W × ReadResult Text ReadError
  after_exec (w, ok stdout) = (w, ReadResult.resolved stdout)
  after_exec (w, err e) = (w, ReadResult.rejected (other_error e))

  abbrev pub ssh_arguments : Text → Text → List Text
  ssh_arguments host url =
      host
      ∷ codes "sh"
      ∷ codes "-c"
      ∷ (config.source_ssh_command
          ++ codes " -- "
          ++ 34 ∷ codes "$(printf %s "
          ++ 34 ∷ codes "$1"
          ++ 34 ∷ codes " | base64 -d)"
          ++ 34 ∷ [])
      ∷ codes "replays-fetcher-source"
      ∷ js.to_base64 url
      ∷ []

  -- One read of the SSH client.
  unfoldable pub ssh_read : Text → Text → W → W × ReadResult Text ReadError
  ssh_read host url w =
      after_exec (js.exec_file (codes "ssh") (ssh_arguments host url) config.source_timeout_ms w)

  abbrev pub ssh_host_missing : SourceFetchError
  ssh_host_missing = record {
    code = source_unavailable_code;
    message = codes "SSH source host is not configured";
    cause = none;
    details = none;
  }

  abbrev pub ssh_with_host :
      Option Text → Text → Option (SourceFetchOptions W ReadError) → W → W × FetchResult
  ssh_with_host none url options w = (w, failed ssh_host_missing)
  ssh_with_host (some host) url options w =
      let phase = resolve_phase options in
      caught (to_ssh_fetch_error options phase url) (
        run_with_retry js.defaults
          record {
            classify = classify_ssh;
            phase = phase;
            read = ssh_read host url;
            retry_after_ms = none;
          }
          options w)

  -- The host is read before the retries, outside their `catch`.
  unfoldable pub ssh_fetch_text :
      Text → Option (SourceFetchOptions W ReadError) → W → W × FetchResult
  ssh_fetch_text = ssh_with_host config.source_ssh_host

  abbrev pub fetch_text_by :
      SourceTransport → Text → Option (SourceFetchOptions W ReadError) → W → W × FetchResult
  fetch_text_by SourceTransport.direct = direct_fetch_text
  fetch_text_by SourceTransport.ssh = ssh_fetch_text

  -- `createSourceClient(config).fetchText`
  unfoldable pub fetch_text : Text → Option (SourceFetchOptions W ReadError) → W → W × FetchResult
  fetch_text = fetch_text_by config.source_transport
