-- ===== src/ContractCheck/Defs.antt =====
-- src/contract-check/contract-check.ts. The client and `JSON.parse` are parameters, over the state `W` of
-- what lies outside; a read without options makes a single try.
use replays_fetcher.Base.{
  ℕ, Option, none, some, Bool, List, [], ◌∷◌, Text, codes, Result, ok, err, if◌then◌else◌,
}
use replays_fetcher.Source.Failure.{FailureKind, permanent, rate_limited, transient}
use replays_fetcher.Source.Classify.{ClassifyInput, no_input, classify_failure}
use replays_fetcher.Client.{
  SourceFetchCode, rate_limited_code, source_transient_code, source_unavailable_code,
  SourceFetchError, ReadError, fetch_error, cloudflare_challenge_error, other_error, details_field,
  as_thrown,
}
use replays_fetcher.Discovery.{
  Html, ReplayRowObservation, to_raw_replay_url, extract_replay_rows,
  extract_filename_from_detail_html,
}

pub data ContractCheckReason : Type 0 where
  contract_broken source_unreachable : ContractCheckReason

pub data ContractCheckWarningCode : Type 0 where
  empty_list_page missing_external_id missing_filename : ContractCheckWarningCode

pub record ContractCheckWarning : Type 0 where
  pub code : ContractCheckWarningCode
  pub message : Text

pub record ContractCheckSample : Type 0 where
  pub list_page_url : Text
  pub detail_url : Option Text
  pub raw_url : Option Text

-- `details` has the HTTP status at most.
pub record ContractCheckFailure : Type 0 where
  pub reason : ContractCheckReason
  pub message : Text
  pub http_status : Option ℕ
  pub warnings : List ContractCheckWarning

pub data ContractCheckResult : Type 0 where
  contract_ok : ContractCheckSample → List ContractCheckWarning → ContractCheckResult
  contract_failed : ContractCheckFailure → ContractCheckResult

pub record ProbeClient (W : Type 0) : Type 0 where
  pub fetch_text : Text → W → W × Result ReadError Text
  -- `JSON.parse(text)` does not throw
  pub is_json : Text → Bool

unfoldable pub build_classify_input : SourceFetchError → Option ℕ → ClassifyInput
build_classify_input e http_status = record no_input {
  error = some (as_thrown (fetch_error e));
  http_status = http_status;
}

abbrev pub failure :
    ContractCheckReason → Text → Option ℕ → List ContractCheckWarning → ContractCheckFailure
failure reason message http_status warnings = record {
  reason = reason;
  message = message;
  http_status = http_status;
  warnings = warnings;
}

-- A permanent failure breaks the contract; another may pass.
abbrev pub failure_of_kind :
    FailureKind → Text → Option ℕ → List ContractCheckWarning → ContractCheckFailure
failure_of_kind permanent message http_status warnings =
    failure contract_broken message http_status warnings
failure_of_kind transient message http_status warnings =
    failure source_unreachable message none warnings
failure_of_kind rate_limited message http_status warnings =
    failure source_unreachable message none warnings

abbrev pub failure_of_code :
    SourceFetchCode → SourceFetchError → Text → List ContractCheckWarning → ContractCheckFailure
failure_of_code source_transient_code e message warnings =
    failure source_unreachable message none warnings
failure_of_code rate_limited_code e message warnings =
    failure source_unreachable message none warnings
failure_of_code source_unavailable_code e message warnings =
    let http_status = details_field (λ d. d.http_status) e.details in
    failure_of_kind (classify_failure (build_classify_input e http_status)).kind message http_status
      warnings

unfoldable pub make_fetch_failure_result :
    ReadError → Text → List ContractCheckWarning → ContractCheckFailure
make_fetch_failure_result (fetch_error e) message warnings =
    failure_of_code e.code e message warnings
make_fetch_failure_result (cloudflare_challenge_error _) message warnings =
    failure contract_broken message none warnings
make_fetch_failure_result (other_error _) message warnings =
    failure contract_broken message none warnings

-- `warn`, while there is no other warning.
abbrev pub warn : ContractCheckWarningCode → Text → ContractCheckSample → ContractCheckResult
warn code message sample = contract_ok sample (record { code = code; message = message } ∷ [])

module _ {W : Type 0} (html : Html) (client : ProbeClient W) where
  -- `tryFetch`, and what is done with the body.
  abbrev pub on_body :
      Text
      → (Text → W → W × ContractCheckResult)
      → W × Result ReadError Text
      → W × ContractCheckResult
  on_body message next (w, ok body) = next body w
  on_body message next (w, err e) = (w, contract_failed (make_fetch_failure_result e message []))

  abbrev pub after_raw :
      (list_page_url detail_url raw_url body : Text) → W → W × ContractCheckResult
  after_raw list_page_url detail_url raw_url body w =
      if client.is_json body
      then (
        w,
        contract_ok
            record {
              list_page_url = list_page_url;
              detail_url = some detail_url;
              raw_url = some raw_url;
            }
            [],
      )
      else (
        w,
        contract_failed (
            failure contract_broken (codes "Raw data endpoint returned non-JSON (HTML?) content")
              none []),
      )

  unfoldable pub probe_raw_endpoint :
      (list_page_url detail_url filename : Text) → W → W × ContractCheckResult
  probe_raw_endpoint list_page_url detail_url filename w =
      let raw_url = to_raw_replay_url html filename detail_url in
      on_body (codes "Failed to fetch raw data endpoint")
        (after_raw list_page_url detail_url raw_url) (client.fetch_text raw_url w)

  abbrev pub after_filename :
      (list_page_url detail_url : Text) → Option Text → W → W × ContractCheckResult
  after_filename list_page_url detail_url none w = (
    w,
    warn missing_filename
        (codes
          "Detail page did not contain a recognisable filename (no #filename input or body[data-ocap])")
        record { list_page_url = list_page_url; detail_url = some detail_url; raw_url = none },
  )
  after_filename list_page_url detail_url (some filename) w =
      probe_raw_endpoint list_page_url detail_url filename w

  abbrev pub with_link : Text → (url external_id : Option Text) → W → W × ContractCheckResult
  with_link list_page_url (some detail_url) (some _) w =
      on_body (codes "Failed to fetch source detail page")
        (λ body.
          after_filename list_page_url detail_url
            (extract_filename_from_detail_html html.patterns body))
        (client.fetch_text detail_url w)
  with_link list_page_url _ _ w = (
    w,
    warn missing_external_id (codes "First replay row is missing source URL or external id")
        record { list_page_url = list_page_url; detail_url = none; raw_url = none },
  )

  -- The first row of the listing.
  abbrev pub with_rows : Text → List ReplayRowObservation → W → W × ContractCheckResult
  with_rows list_page_url [] w = (
    w,
    warn empty_list_page (codes "Source list page 1 returned no replay rows")
        record { list_page_url = list_page_url; detail_url = none; raw_url = none },
  )
  with_rows list_page_url (row ∷ _) w = with_link list_page_url row.url row.external_id w

  unfoldable pub run_contract_check : (source_url : Text) → W → W × ContractCheckResult
  run_contract_check source_url w =
      on_body (codes "Failed to fetch source list page")
        (λ body.
          with_rows source_url (extract_replay_rows html.patterns html.urls body 1 source_url))
        (client.fetch_text source_url w)
