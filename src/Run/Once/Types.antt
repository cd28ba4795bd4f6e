-- ===== src/Run/Once/Types.antt =====
-- src/run/run-once-types.ts and the types of src/run/run-once-checkpoint.ts. The functions of the
-- input are parameters over the state `W` of what lies outside; `X` is what they may throw.
use replays_fetcher.Base.{ℕ, Option, none, Bool, true, List, [], ◌++◌, Text, length, ◌&&◌, Result}
use replays_fetcher.Types.{
  DiscoveryReport, StoreRawReplayResult, IngestStagingResult, RunExitCode, RunSummary,
}
use replays_fetcher.Source.Throttle.{ThrottleController}
use replays_fetcher.Source.Pacing.{Pacer}
use replays_fetcher.Checkpoint.{Pages}
use replays_fetcher.Checkpoint.Store.{CheckpointReadResult, CheckpointWriteInput}
use replays_fetcher.Run.Ingest.{IngestPageInput}

abbrev pub first_page : ℕ
first_page = 1

pub record RunOnceInput (W X : Type 0) : Type 0 where
  -- `discoverReplays` on the URL of a page
  pub discover_replays : ℕ → W → W × Result X DiscoveryReport
  -- what `ingestPage` is given for the candidates of a page, and the interleaving that comes about
  pub ingest : IngestPageInput W X
  pub schedule : W → List ℕ
  pub read_checkpoint : Text → W → W × Result X CheckpointReadResult
  pub write_checkpoint : CheckpointWriteInput → W → W × Result X (Option Text)
  pub concurrency : ℕ
  pub max_pages : Option ℕ
  -- `now().getTime()`, and `toISOString` of a time
  pub now : W → ℕ
  pub to_iso : ℕ → Text
  -- `String(page)`
  pub page_key : ℕ → Text
  pub request_spacing_ms : ℕ
  pub run_id : Text
  pub sleep : ℕ → W → W
  -- what is left to the opt-in writes of the evidence after the run, which never fail it
  pub write_evidence : RunSummary → W → W

pub record RunOnceResult : Type 0 where
  pub exit_code : RunExitCode
  pub summary : RunSummary

pub record LoopState : Type 0 where
  pub discovery_report : DiscoveryReport
  pub etag : Option Text
  pub last_completed_page : ℕ
  pub page_timestamps_ms : List ℕ
  pub pages : Pages
  pub raw_storage : List StoreRawReplayResult
  pub reached_max_pages : Bool
  pub staging : List IngestStagingResult

-- The pacer, the throttle and the limiter of a run; of the limiter, its concurrency.
pub record RunRuntime : Type 0 where
  pub limit_concurrency : ℕ
  pub pacer : Pacer
  pub throttle : ThrottleController

unfoldable pub empty_discovery_report : Text → Text → DiscoveryReport
empty_discovery_report generated_at source_url = record {
  candidates = [];
  counts = record { candidates = 0; diagnostics = 0; discovered = 0; skipped_pre_detail = 0 };
  diagnostics = [];
  generated_at = generated_at;
  max_pages = none;
  ok = true;
  source_url = source_url;
}

unfoldable pub append_discovery_report : DiscoveryReport → DiscoveryReport → DiscoveryReport
append_discovery_report target page =
    let candidates = target.candidates ++ page.candidates in
    let diagnostics = target.diagnostics ++ page.diagnostics in
    record target {
      candidates = candidates;
      diagnostics = diagnostics;
      counts = record {
        candidates = length candidates;
        diagnostics = length diagnostics;
        discovered = length candidates;
        skipped_pre_detail = 0;
      };
      ok = target.ok && page.ok;
    }
