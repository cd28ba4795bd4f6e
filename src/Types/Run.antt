-- ===== src/Types/Run.antt =====
-- src/types/run-summary.ts: the summary of a run.
use replays_fetcher.Base.{ℕ, Option, Bool, List, Text}
use replays_fetcher.Source.Failure.{FailureKind}
use replays_fetcher.Source.Retry.{SourceReadPhase}
use replays_fetcher.Types.Discovery.{DiagnosticCode, DiscoveryDiagnostic, ReplayCandidate}
use replays_fetcher.Types.Replay.{StoreRawReplayResult}
use replays_fetcher.Types.Staging.{IngestStagingResult}

-- In the order of their names, in which `toSorted` puts them.
pub data RunFailureCategory : Type 0 where
  config_invalid fetch_failed not_stageable source_unavailable : RunFailureCategory
  staging_conflict staging_failed storage_conflict storage_failed : RunFailureCategory

pub data RunStatus : Type 0 where
  complete failed partial resumable truncated : RunStatus

-- `SourceFailureClassification` has the members of `FailureKind`.
pub record RunSourceFailure : Type 0 where
  pub attempts : Option ℕ
  pub classification : FailureKind
  pub code : DiagnosticCode
  pub phase : Option SourceReadPhase

pub record RunSummaryCounts : Type 0 where
  pub conflict : ℕ
  pub diagnostics : ℕ
  pub discovered : ℕ
  pub duplicate : ℕ
  pub failed : ℕ
  pub fetched : ℕ
  pub skipped : ℕ
  pub skipped_by_source_id : ℕ
  pub skipped_pre_detail : ℕ
  pub staged : ℕ
  pub stored : ℕ

pub data RunMode : Type 0 where
  run_once watch : RunMode

pub record PageRange : Type 0 where
  pub first_page : ℕ
  pub last_page : ℕ

-- The rates and the ETA, quotients of floating point, are left out.
pub record RunSummary : Type 0 where
  pub candidates : List ReplayCandidate
  pub counts : RunSummaryCounts
  pub diagnostics : List DiscoveryDiagnostic
  pub discovered_range : Option PageRange
  pub failure_categories : List RunFailureCategory
  pub finished_at : Text
  pub mode : RunMode
  pub ok : Bool
  pub raw_storage : List StoreRawReplayResult
  pub resume_invocation : Option Text
  pub run_id : Text
  pub source_failure : Option RunSourceFailure
  pub source_url : Text
  pub staging : List IngestStagingResult
  pub started_at : Text
  pub status : Option RunStatus

pub record CompactRunSummary : Type 0 where
  pub counts : RunSummaryCounts
  pub failure_categories : List RunFailureCategory
  pub finished_at : Text
  pub mode : RunMode
  pub ok : Bool
  pub run_id : Text
  pub started_at : Text
  pub discovered_range : Option PageRange
  pub resume_invocation : Option Text
  pub source_failure : Option RunSourceFailure
  pub source_url : Text
  pub status : Option RunStatus

abbrev pub RunExitCode : Type 0
RunExitCode = ℕ
