-- ===== src/Examples/Reads.antt =====
-- A source that answers with status 503 first and then with a page, and one that is not there.
use replays_fetcher.Base.{
  ◌≡◌, refl, ◌+◌, ◌↔◌, ◌⊎◌, ℕ, none, some, true, false, [], Text, codes, ok, err,
}
use replays_fetcher.Source.Failure.{rate_limited, transient}
use replays_fetcher.Source.Classify.{
  build_classification, resolve_kind, classify_by_status, is_server_error, Thrown, js_error,
  undefined_cause, ClassifyInput, no_input, classify_failure,
}
use replays_fetcher.Source.Classify.Kinds.{MayPass, classify_failure_kind}
use replays_fetcher.Source.Retry.{
  with_retry, retry_rounds, after_read, is_retryable, abortable_sleep, SourceReadPhase,
}
use replays_fetcher.Client.{
  direct_fetch_text, run_with_retry, retry_options_of, classify_direct, reclassify_direct,
  FetchResult, fetch_error, build_direct_http_error, direct_read, source_unavailable_code,
  SourceFetchError, ReadError, ResponseHead, SourceFetchOptions, SourceWorld, failed, fetch_text,
  total_tries, resolve_phase, to_direct_fetch_error, ssh_host_missing,
}
use replays_fetcher.Config.{SourceTransport, SourceConfig}
use replays_fetcher.Client.Reports.{NoHost, direct_run, direct_read_given_up}
use replays_fetcher.Discovery.{build_source_failure_diagnostic, diagnostic_code}
use replays_fetcher.Discovery.Outcome.{source_failure_diagnostic-fetch_text}

abbrev timeout_error : Thrown
timeout_error =
    js_error record { name = codes "TimeoutError"; message = codes "timed out"; code = none }
      undefined_cause

abbrev timed_out : ClassifyInput
timed_out = record no_input { error = some timeout_error }

classify_failure_kind_example :
    (((classify_failure timed_out).kind ≡ rate_limited)
      ↔ ((false ≡ false) × (timed_out.http_status ≡ some 429)))
    × (((classify_failure timed_out).kind ≡ transient) ↔ ((false ≡ true) ⊎ MayPass timed_out))
classify_failure_kind_example = classify_failure_kind timed_out

abbrev head_503 : ResponseHead
head_503 = record { is_ok = false; status = 503; has_cf_ray = false; retry_after = none }

-- The world counts the requests; none of them is answered well.
abbrev pub broken_source : SourceWorld ℕ
broken_source = record {
  fetch = λ url n. (n + 1, ok record { head = head_503; text = λ m. (m, ok []) });
  exec_file = λ file arguments timeout n. (n + 1, err timeout_error);
  date_parse = λ t. none;
  to_base64 = λ t. t;
  to_lower_case = λ t. t;
  defaults = record { now = λ n. n; random = λ round n. n; sleep = λ ms n. (n, none) };
}

abbrev direct_config : SourceConfig
direct_config = record {
  source_max_pages = none;
  source_concurrency = 8;
  source_request_spacing_ms = 250;
  source_url = codes "https://sg.zone/replays";
  source_retry_attempts = 3;
  watch_interval_ms = 0;
  watch_heartbeat_path = codes "/tmp/heartbeat";
  source_ssh_command = codes "curl";
  source_ssh_host = none;
  source_timeout_ms = 1000;
  source_transport = SourceTransport.direct;
}

abbrev second_page : SourceFetchOptions ℕ ReadError
second_page = record {
  attempts = some 2;
  now = none;
  page = some 2;
  phase = none;
  random = none;
  signal = none;
  sleep = none;
}

abbrev page_url : Text
page_url = codes "https://sg.zone/replays?p=2"

abbrev error_of : FetchResult → SourceFetchError
error_of (failed e) = e
error_of _ = ssh_host_missing broken_source direct_config

abbrev final_error : SourceFetchError
final_error = error_of (fetch_text broken_source direct_config page_url (some second_page) 0).1

abbrev unavailable : ReadError
unavailable = fetch_error (build_direct_http_error SourceReadPhase.list head_503 page_url)

direct_read_given_up_example :
    ((to_direct_fetch_error (some second_page) SourceReadPhase.list page_url unavailable).code
      ≡ source_unavailable_code)
    ⊎ ((direct_run broken_source direct_config page_url (some second_page) 0).reads ≡ 3)
unfolding run_with_retry retry_options_of with_retry retry_rounds after_read is_retryable
    abortable_sleep direct_read resolve_phase total_tries classify_direct reclassify_direct
    build_direct_http_error classify_failure build_classification resolve_kind classify_by_status
    is_server_error
direct_read_given_up_example =
    direct_read_given_up broken_source direct_config page_url (some second_page) 0 unavailable refl

source_failure_diagnostic-fetch_text_example :
    let d = build_source_failure_diagnostic final_error (codes "https://sg.zone/replays") 2 in
    (d.page ≡ some 2)
    × (d.code ≡ diagnostic_code final_error.code)
    × (NoHost broken_source direct_config page_url
          (some second_page)
          0
          SourceTransport.direct
          none
          final_error
        ⊎ ((d.attempts ≡ some (total_tries (some second_page)))
            × (d.phase ≡ some (resolve_phase (some second_page)))
            × (d.source_url ≡ some page_url)))
unfolding fetch_text direct_fetch_text run_with_retry retry_options_of with_retry retry_rounds
    after_read is_retryable abortable_sleep direct_read resolve_phase total_tries classify_direct
    reclassify_direct build_direct_http_error classify_failure build_classification resolve_kind
    classify_by_status is_server_error
source_failure_diagnostic-fetch_text_example =
    source_failure_diagnostic-fetch_text broken_source direct_config page_url
      (codes "https://sg.zone/replays") second_page 2 0 final_error refl refl
