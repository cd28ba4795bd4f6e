-- ===== src/Run/Once/Loop.antt =====
-- src/run/run-once-page.ts and src/run/run-once-page-rate.ts: the loop over the pages.
use replays_fetcher.Base.{
  ℕ, zero, suc, ◌+◌, Option, none, some, Bool, true, false, ◌&&◌, not, ◌==◌, leb, List, [], ◌∷◌,
  ◌++◌, Text, codes, if◌then◌else◌, Result, ok, err,
}
use replays_fetcher.Types.{DiscoveryReport, ReplayCandidate}
use replays_fetcher.Source.Failure.{FailureKind}
use replays_fetcher.Source.Throttle.{
  ThrottleController, create_throttle_controller, on_rate_limited, on_clean_window,
  concurrency_floor,
}
use replays_fetcher.Source.Pacing.{create_pacer, await_floor}
use replays_fetcher.Checkpoint.{CheckpointStatus, CheckpointPage, PageCounts, set_page}
use replays_fetcher.Run.Summary.{derive_source_failure}
use replays_fetcher.Run.Ingest.{
  IngestPageCounts, IngestPageResult, IngestOutcome, completed, threw, pending, ingest_page,
}
use replays_fetcher.Run.Once.Types.{RunOnceInput, LoopState, RunRuntime, append_discovery_report}
use replays_fetcher.Run.Once.Resume.{write_page_checkpoint}

pub data StopReason : Type 0 where
  all_duplicate cap empty page_failed : StopReason

-- What the loop works on: the run's state and its runtime.
pub record Progress : Type 0 where
  pub state : LoopState
  pub runtime : RunRuntime

-- How an iteration ends: it goes on to the next page, stops the loop, or throws; `stalled` is the
-- wait for a task of the page that never settles.
pub data Iteration (X : Type 0) : Type 0 where
  next : Progress → Iteration X
  stop : StopReason → Progress → Iteration X
  throws : X → Iteration X
  stalled : Iteration X

-- How the loop ends. The last is the model's own.
pub data LoopOutcome (X : Type 0) : Type 0 where
  stopped : StopReason → Progress → LoopOutcome X
  loop_throws : X → LoopOutcome X
  loop_stalled : LoopOutcome X
  out_of_fuel : LoopOutcome X

-- The slug and the start of a run.
pub record RunIdentity : Type 0 where
  pub slug : Text
  pub started_at : Text

unfoldable pub build_run_runtime : {W X : Type 0} → RunOnceInput W X → RunRuntime
build_run_runtime input = record {
  limit_concurrency = input.concurrency;
  pacer = create_pacer input.request_spacing_ms;
  throttle = create_throttle_controller (record {
    base_concurrency = input.concurrency;
    min_concurrency = concurrency_floor;
    max_concurrency = input.concurrency;
    base_spacing_ms = input.request_spacing_ms;
  });
}

abbrev pub is_rate_limited : FailureKind → Bool
is_rate_limited FailureKind.rate_limited = true
is_rate_limited _ = false

-- A signal to the throttle resizes the limiter.
abbrev pub set_throttle : ThrottleController → RunRuntime → RunRuntime
set_throttle t r = record r { throttle = t; limit_concurrency = t.concurrency }

unfoldable pub apply_rate_limit_throttle : ℕ → DiscoveryReport → RunRuntime → RunRuntime
apply_rate_limit_throttle now report r = elim (derive_source_failure report) [
  | none ↦ r
  | some f ↦
      if is_rate_limited f.classification
      then set_throttle (on_rate_limited now r.throttle) r
      else r
]

-- Nothing of the page is new, and nothing failed.
unfoldable pub is_all_duplicate : IngestPageCounts → Bool
is_all_duplicate c = c.stored == 0 && (c.staged == 0 && c.failed == 0)

abbrev pub page_counts : IngestPageCounts → PageCounts
page_counts c = record {
  discovered = c.discovered;
  failed = c.failed;
  staged = c.staged;
  stored = c.stored;
}

abbrev pub is_nil : List ReplayCandidate → Bool
is_nil [] = true
is_nil (_ ∷ _) = false

-- `page <= maxPages`, where an absent cap is infinite.
abbrev pub within_cap : Option ℕ → ℕ → Bool
within_cap none page = true
within_cap (some m) page = leb page m

module _ {W X : Type 0} where
  -- The state after a page whose results are there: they are appended, the page is entered, and the
  -- checkpoint is written, before the test for duplicates.
  unfoldable pub finish_page :
      RunOnceInput W X → RunIdentity → ℕ → Progress → IngestPageResult → W → W × Iteration X
  finish_page input id page p result w =
      let s = p.state in
      let timestamps = s.page_timestamps_ms ++ input.now w ∷ [] in
      let entry : CheckpointPage = record {
        counts = page_counts result.counts;
        status = codes "running";
      } in
      let pages = set_page (input.page_key page) entry s.pages in
      let (w', etag) =
        write_page_checkpoint input
          (record {
            discovered_last_page = none;
            last_completed_page = page;
            pages = pages;
            slug = id.slug;
            started_at = id.started_at;
            status = CheckpointStatus.running;
          })
          s.etag w in
      let s' : LoopState = record s {
        etag = etag;
        last_completed_page = page;
        page_timestamps_ms = timestamps;
        pages = pages;
        raw_storage = s.raw_storage ++ result.raw_storage;
        staging = s.staging ++ result.staging;
      } in
      let p' : Progress = record { state = s'; runtime = p.runtime } in
      (w', if is_all_duplicate result.counts then stop all_duplicate p' else next p')

  abbrev pub after_ingest :
      RunOnceInput W X → RunIdentity → ℕ → Progress → W × IngestOutcome X → W × Iteration X
  after_ingest input id page p (w, completed result) = finish_page input id page p result w
  after_ingest input id page p (w, threw x) = (w, throws x)
  after_ingest input id page p (w, pending) = (w, stalled)

  -- `completeOkPage`: the throttle recovers first, then the candidates are stored and staged.
  unfoldable pub complete_ok_page :
      RunOnceInput W X → RunIdentity → ℕ → List ReplayCandidate → Progress → W → W × Iteration X
  complete_ok_page input id page candidates p w =
      let runtime = set_throttle (on_clean_window (input.now w) p.runtime.throttle) p.runtime in
      after_ingest input id page (record p { runtime = runtime })
        (ingest_page input.ingest candidates (input.schedule w) w)

  -- What follows the discovery of a page.
  unfoldable pub after_discovery :
      RunOnceInput W X → RunIdentity → ℕ → Progress → DiscoveryReport → W → W × Iteration X
  after_discovery input id page p report w =
      let s = p.state in
      let appended = append_discovery_report s.discovery_report report in
      let p' : Progress = record p { state = record s { discovery_report = appended } } in
      if not report.ok
      then (
        w,
        stop page_failed
            (record p' { runtime = apply_rate_limit_throttle (input.now w) report p.runtime }),
      )
      else if is_nil report.candidates
      then (w, stop empty p')
      else complete_ok_page input id page report.candidates p' w

  abbrev pub after_discovered :
      RunOnceInput W X → RunIdentity → ℕ → Progress → W × Result X DiscoveryReport → W × Iteration X
  after_discovered input id page p (w, ok report) = after_discovery input id page p report w
  after_discovered input id page p (w, err x) = (w, throws x)

  -- The body of the loop: the floor of the pacer, and the discovery of the page.
  unfoldable pub run_page : RunOnceInput W X → RunIdentity → ℕ → Progress → W → W × Iteration X
  run_page input id page p w =
      let (pacer, ms) = await_floor (input.now w) p.runtime.pacer in
      let w' = if ms == 0 then w else input.sleep ms w in
      let runtime : RunRuntime = record p.runtime { pacer = pacer } in
      after_discovered input id page (record { state = p.state; runtime = runtime })
        (input.discover_replays page w')

  abbrev pub after_page : W × Iteration X → (Progress → W → W × LoopOutcome X) → W × LoopOutcome X
  after_page (w, next p) go = go p w
  after_page (w, stop reason p) go = (w, stopped reason p)
  after_page (w, throws x) go = (w, loop_throws x)
  after_page (w, stalled) go = (w, loop_stalled)

  unfoldable pub run_page_loop :
      RunOnceInput W X → RunIdentity → ℕ → ℕ → Progress → W → W × LoopOutcome X
  run_page_loop input id zero page p w = (w, out_of_fuel)
  run_page_loop input id (suc fuel) page p w =
      let rest = after_page (run_page input id page p w) (run_page_loop input id fuel (page + 1)) in
      if within_cap input.max_pages page then rest else (w, stopped cap p)
