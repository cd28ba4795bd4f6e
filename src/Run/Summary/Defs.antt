-- ===== src/Run/Summary/Defs.antt =====
-- src/run/summary.ts: the source failure, the status, the summary and the exit code.
use replays_fetcher.Base.{
  ℕ, Option, none, some, Bool, true, false, ◌&&◌, not, ltb, leb, List, [], ◌∷◌, Text, is_some,
  or_else, if◌then◌else◌,
}
use replays_fetcher.Source.Failure.{FailureKind}
use replays_fetcher.Types.{
  DiscoveryReport, DiscoveryDiagnostic, DiagnosticCode, DiagnosticSeverity, StoreRawReplayResult,
  IngestStagingResult, RunStatus, RunSourceFailure, RunSummary, CompactRunSummary, RunMode,
  RunExitCode, PageRange, RunFailureCategory,
}
use replays_fetcher.Run.Summary.Counting.{count_run, collect_failure_categories}

abbrev pub source_failure_classification : DiagnosticCode → Option FailureKind
source_failure_classification DiagnosticCode.rate_limited = some FailureKind.rate_limited
source_failure_classification DiagnosticCode.source_transient = some FailureKind.transient
source_failure_classification DiagnosticCode.source_unavailable = some FailureKind.permanent
source_failure_classification _ = none

abbrev pub is_error : DiagnosticSeverity → Bool
is_error DiagnosticSeverity.error = true
is_error _ = false

-- `diagnostics.find(…)`
abbrev pub find_source_failure : List DiscoveryDiagnostic → Option DiscoveryDiagnostic
find_source_failure [] = none
find_source_failure (d ∷ ds) =
    if is_error d.severity && is_some (source_failure_classification d.code)
    then some d
    else find_source_failure ds

abbrev pub build_source_failure : DiscoveryDiagnostic → FailureKind → RunSourceFailure
build_source_failure d k = record {
  attempts = d.attempts;
  classification = k;
  code = d.code;
  phase = d.phase;
}

unfoldable pub derive_source_failure : DiscoveryReport → Option RunSourceFailure
derive_source_failure report =
    if report.ok then none else elim (find_source_failure report.diagnostics) [
      | none ↦ none
      | some d ↦ elim (source_failure_classification d.code) [
        | none ↦ none
        | some k ↦ some (build_source_failure d k)
      ]
    ]

abbrev pub is_recoverable_kind : FailureKind → Bool
is_recoverable_kind FailureKind.permanent = false
is_recoverable_kind _ = true

abbrev pub is_recoverable : Option RunSourceFailure → Bool
is_recoverable none = false
is_recoverable (some f) = is_recoverable_kind f.classification

pub record DeriveRunStatusInput : Type 0 where
  pub discovered_last_page : ℕ
  pub last_completed_page : ℕ
  pub ok : Bool
  pub reached_max_pages : Bool
  pub source_failure : Option RunSourceFailure

unfoldable pub derive_run_status : DeriveRunStatusInput → RunStatus
derive_run_status i =
    if i.ok && leb i.discovered_last_page i.last_completed_page
    then (if i.reached_max_pages then RunStatus.truncated else RunStatus.complete)
    else if is_recoverable i.source_failure
    then RunStatus.resumable
    else if ltb 0 i.last_completed_page
    then RunStatus.partial
    else RunStatus.failed

-- The rates and the ETA, and what only they read, are left out.
pub record BuildRunSummaryInput : Type 0 where
  pub discovered_range : Option PageRange
  pub discovery_report : DiscoveryReport
  pub finished_at : Text
  pub mode : Option RunMode
  pub raw_storage : List StoreRawReplayResult
  pub resume_invocation : Option Text
  pub run_id : Text
  pub skipped_by_source_id : Option ℕ
  pub staging : List IngestStagingResult
  pub started_at : Text
  pub status : Option RunStatus

abbrev pub is_none_found : List RunFailureCategory → Bool
is_none_found [] = true
is_none_found (_ ∷ _) = false

unfoldable pub build_run_summary : BuildRunSummaryInput → RunSummary
build_run_summary i =
    let report = i.discovery_report in
    let categories = collect_failure_categories report i.raw_storage i.staging in
    record {
      candidates = report.candidates;
      counts = count_run (record {
        discovery_report = report;
        raw_storage = i.raw_storage;
        skipped_by_source_id = or_else i.skipped_by_source_id 0;
        skipped_pre_detail = report.counts.skipped_pre_detail;
        staging = i.staging;
      });
      diagnostics = report.diagnostics;
      discovered_range = i.discovered_range;
      failure_categories = categories;
      finished_at = i.finished_at;
      mode = or_else i.mode RunMode.run_once;
      ok = report.ok && is_none_found categories;
      raw_storage = i.raw_storage;
      resume_invocation = i.resume_invocation;
      run_id = i.run_id;
      source_failure = derive_source_failure report;
      source_url = report.source_url;
      staging = i.staging;
      started_at = i.started_at;
      status = i.status;
    }

unfoldable pub to_compact_summary : RunSummary → CompactRunSummary
to_compact_summary s = record {
  counts = s.counts;
  failure_categories = s.failure_categories;
  finished_at = s.finished_at;
  mode = s.mode;
  ok = s.ok;
  run_id = s.run_id;
  started_at = s.started_at;
  discovered_range = s.discovered_range;
  resume_invocation = s.resume_invocation;
  source_failure = s.source_failure;
  source_url = s.source_url;
  status = s.status;
}

abbrev pub is_complete : RunStatus → Bool
is_complete RunStatus.complete = true
is_complete _ = false

abbrev pub is_incomplete_status : Option RunStatus → Bool
is_incomplete_status none = false
is_incomplete_status (some s) = not (is_complete s)

unfoldable pub run_exit_code : Bool → Option RunStatus → RunExitCode
run_exit_code ok status = if is_incomplete_status status then 2 else if ok then 0 else 2
