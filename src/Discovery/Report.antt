-- ===== src/Discovery/Report.antt =====
-- src/discovery/discover-diagnostics.ts: the report of a discovery and the diagnostic of a failed read.
use replays_fetcher.Base.{ℕ, Option, none, some, Bool, true, false, List, Text, length, or_else}
use replays_fetcher.Types.{
  ReplayCandidate, DiagnosticSeverity, DiagnosticCode, DiscoveryDiagnostic, DiscoveryReport,
}
use replays_fetcher.Source.Retry.{SourceReadPhase}
use replays_fetcher.Client.{
  FailureDetails, SourceFetchCode, rate_limited_code, source_transient_code,
  source_unavailable_code, SourceFetchError, details_field,
}

-- The options of `discoverReplaysDryRun` that are data. `generated_at` is `options.generatedAt`, or the
-- time at which the report is made.
pub record DiscoverOptions : Type 0 where
  pub attempts : Option ℕ
  pub generated_at : Text
  pub max_pages : Option ℕ
  pub request_delay_ms : Option ℕ
  pub source_system : Option Text
  pub source_url : Text

pub record ReadOptions : Type 0 where
  pub attempts : Option ℕ
  pub page : ℕ
  pub phase : SourceReadPhase

unfoldable pub build_read_options : DiscoverOptions → ℕ → SourceReadPhase → ReadOptions
build_read_options options page phase = record {
  attempts = options.attempts;
  page = page;
  phase = phase;
}

unfoldable pub build_report :
    DiscoverOptions → List ReplayCandidate → List DiscoveryDiagnostic → Bool → ℕ → DiscoveryReport
build_report options candidates diagnostics ok skipped_pre_detail = record {
  candidates = candidates;
  counts = record {
    candidates = length candidates;
    diagnostics = length diagnostics;
    discovered = length candidates;
    skipped_pre_detail = skipped_pre_detail;
  };
  diagnostics = diagnostics;
  generated_at = options.generated_at;
  max_pages = options.max_pages;
  ok = ok;
  source_url = options.source_url;
}

-- A diagnostic with a code, a message, a severity and a URL.
abbrev pub plain_diagnostic :
    DiagnosticCode → Text → DiagnosticSeverity → Text → DiscoveryDiagnostic
plain_diagnostic code message severity source_url = record {
  attempts = none;
  candidate_index = none;
  cause_code = none;
  cause_message = none;
  cf_challenge = none;
  code = code;
  external_id = none;
  http_status = none;
  message = message;
  page = none;
  phase = none;
  severity = severity;
  source_url = some source_url;
}

-- `a` where it is there, else what the diagnostic has.
abbrev pub attach {ℓ} : {A : Type ℓ} → Option A → Option A → Option A
attach none old = old
attach (some a) old = some a

-- `withOptionalDiagnosticEvidence(diagnostic, diagnosticEvidence(externalId, page))`
unfoldable pub with_optional_diagnostic_evidence :
    DiscoveryDiagnostic → Option Text → Option ℕ → DiscoveryDiagnostic
with_optional_diagnostic_evidence d external_id page = record d {
  external_id = attach external_id d.external_id;
  page = attach page d.page;
}

-- Only `true` is attached.
abbrev pub attach_cf_challenge : Option Bool → Option Bool → Option Bool
attach_cf_challenge (some true) old = some true
attach_cf_challenge (some false) old = old
attach_cf_challenge none old = old

unfoldable pub with_source_failure_evidence :
    DiscoveryDiagnostic → Option FailureDetails → DiscoveryDiagnostic
with_source_failure_evidence d none = d
with_source_failure_evidence d (some details) = record d {
  attempts = attach details.attempts d.attempts;
  cause_code = attach details.cause_code d.cause_code;
  cause_message = attach details.cause_message d.cause_message;
  cf_challenge = attach_cf_challenge details.cf_challenge d.cf_challenge;
  http_status = attach details.http_status d.http_status;
  page = attach details.page d.page;
  phase = attach details.phase d.phase;
}

abbrev pub diagnostic_code : SourceFetchCode → DiagnosticCode
diagnostic_code rate_limited_code = DiagnosticCode.rate_limited
diagnostic_code source_transient_code = DiagnosticCode.source_transient
diagnostic_code source_unavailable_code = DiagnosticCode.source_unavailable

unfoldable pub detail_url_or_source : SourceFetchError → Text → Text
detail_url_or_source e source_url = or_else (details_field (λ d. d.url) e.details) source_url

unfoldable pub build_source_failure_diagnostic : SourceFetchError → Text → ℕ → DiscoveryDiagnostic
build_source_failure_diagnostic e source_url failed_page =
    with_source_failure_evidence
      (record (plain_diagnostic (diagnostic_code e.code) e.message DiagnosticSeverity.error
        (detail_url_or_source e source_url)) { page = some failed_page })
      e.details
