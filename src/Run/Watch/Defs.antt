-- ===== src/Run/Watch/Defs.antt =====
-- src/run/watch-loop.ts. What it is given is a record of functions over the state `W` of what lies
-- outside; `X` is what they may throw. What the loop logs and writes is the list of its events.
use replays_fetcher.Base.{
  ℕ, zero, suc, Option, none, some, Bool, true, ◌==◌, List, [], ◌∷◌, ◌++◌, Text, if◌then◌else◌,
  Result, ok, err,
}
use replays_fetcher.Types.{
  ReplayCandidate, DiscoveryReport, StoreRawReplayResult, IngestStagingResult, RunMode,
  CompactRunSummary,
}
use replays_fetcher.Source.Pacing.{Pacer, create_pacer, await_floor}
use replays_fetcher.Run.Summary.{build_run_summary, to_compact_summary}
use replays_fetcher.Staging.{default_source_system}
use replays_fetcher.Run.Ingest.{
  IngestPageInput, IngestPageResult, IngestOutcome, completed, threw, pending, ingest_page,
}

pub record WatchLoopInput (W X : Type 0) : Type 0 where
  -- `discoverReplays` on the first page, with the gate before the detail fetch
  pub discover_replays : W → W × Result X DiscoveryReport
  pub exists_by_source_identity : Text → Text → W → W × Result X Bool
  pub stage_raw_replay : StoreRawReplayResult → W → W × Result X IngestStagingResult
  pub store_raw_replay : ReplayCandidate → W → W × Result X StoreRawReplayResult
  -- the interleaving of the tasks of a page that comes about
  pub schedule : W → List ℕ
  pub create_run_id : ℕ → Text
  pub interval_ms : ℕ
  pub now : W → ℕ
  pub request_spacing_ms : ℕ
  pub should_stop : W → Bool
  pub sleep : ℕ → W → W
  pub to_iso : ℕ → Text
  pub write_heartbeat : Text → W → W × Result X (Unit {0})

-- What the loop does that can be seen.
pub data WatchEvent (X : Type 0) : Type 0 where
  watch_cycle_complete : CompactRunSummary → WatchEvent X
  heartbeat : WatchEvent X
  watch_cycle_failed : X → WatchEvent X
  slept : WatchEvent X

-- How a cycle ends; the last is the wait for a task that never settles.
pub data CycleOutcome (X : Type 0) : Type 0 where
  cycle_done : CompactRunSummary → CycleOutcome X
  cycle_throws : X → CycleOutcome X
  cycle_stalled : CycleOutcome X

pub data WatchResult : Type 0 where
  exit_zero watch_stalled watch_out_of_fuel : WatchResult

pub record WatchRun (W X : Type 0) : Type 0 where
  pub result : WatchResult
  pub events : List (WatchEvent X)
  pub world : W

module _ {W X : Type 0} where
  -- What a cycle gives to `ingestPage`: the gate before the fetch is on.
  unfoldable pub watch_ingest : WatchLoopInput W X → IngestPageInput W X
  watch_ingest input = record {
    exists_by_source_identity = some input.exists_by_source_identity;
    prefetch_dedup = true;
    source_system = some default_source_system;
    stage_raw_replay = input.stage_raw_replay;
    store_raw_replay = input.store_raw_replay;
  }

  -- The compact summary of a cycle that started at `cycle_start`.
  unfoldable pub cycle_summary :
      WatchLoopInput W X → ℕ → DiscoveryReport → IngestPageResult → W → CompactRunSummary
  cycle_summary input cycle_start report r w = to_compact_summary (
      build_run_summary (record {
        discovered_range = none;
        discovery_report = report;
        finished_at = input.to_iso (input.now w);
        mode = some RunMode.watch;
        raw_storage = r.raw_storage;
        resume_invocation = none;
        run_id = input.create_run_id cycle_start;
        skipped_by_source_id = some r.counts.skipped_by_source_id;
        staging = r.staging;
        started_at = input.to_iso cycle_start;
        status = none;
      }))

  abbrev pub after_page_ingest :
      WatchLoopInput W X → ℕ → DiscoveryReport → W × IngestOutcome X → W × CycleOutcome X
  after_page_ingest input cycle_start report (w, completed r) =
      (w, cycle_done (cycle_summary input cycle_start report r w))
  after_page_ingest input cycle_start report (w, threw x) = (w, cycle_throws x)
  after_page_ingest input cycle_start report (w, pending) = (w, cycle_stalled)

  abbrev pub after_watch_discovery :
      WatchLoopInput W X → ℕ → W × Result X DiscoveryReport → W × CycleOutcome X
  after_watch_discovery input cycle_start (w, ok report) =
      after_page_ingest input cycle_start report
        (ingest_page (watch_ingest input) report.candidates (input.schedule w) w)
  after_watch_discovery input cycle_start (w, err x) = (w, cycle_throws x)

  -- `runCycle`, and the pacer that it leaves.
  unfoldable pub run_cycle : WatchLoopInput W X → Pacer → W → Pacer × (W × CycleOutcome X)
  run_cycle input pacer w =
      let (pacer', ms) = await_floor (input.now w) pacer in
      let w' = if ms == 0 then w else input.sleep ms w in
      (pacer', after_watch_discovery input (input.now w) (input.discover_replays w'))

  abbrev pub after_heartbeat :
      CompactRunSummary → W × Result X (Unit {0}) → W × Option (List (WatchEvent X))
  after_heartbeat s (w, ok _) = (w, some (watch_cycle_complete s ∷ heartbeat ∷ []))
  after_heartbeat s (w, err x) = (w, some (watch_cycle_complete s ∷ watch_cycle_failed x ∷ []))

  -- The `try` of the loop: the events of the cycle and its heartbeat, or none where it never settles.
  abbrev pub after_cycle :
      WatchLoopInput W X → W × CycleOutcome X → W × Option (List (WatchEvent X))
  after_cycle input (w, cycle_done s) =
      after_heartbeat s (input.write_heartbeat (input.to_iso (input.now w)) w)
  after_cycle input (w, cycle_throws x) = (w, some (watch_cycle_failed x ∷ []))
  after_cycle input (w, cycle_stalled) = (w, none)

  abbrev pub settle_watch : WatchResult → List (WatchEvent X) → W → WatchRun W X
  settle_watch result events w = record { result = result; events = events; world = w }

  -- After the cycle: the second test for the stop, and the sleep before the next one.
  abbrev pub after_attempt :
      WatchLoopInput W X → W × Option (List (WatchEvent X)) → (W → WatchRun W X) → WatchRun W X
  after_attempt input (w, none) next = settle_watch WatchResult.watch_stalled [] w
  after_attempt input (w, some events) next =
      let run = next (input.sleep input.interval_ms w) in
      if input.should_stop w
      then settle_watch WatchResult.exit_zero events w
      else record run { events = events ++ slept ∷ run.events }

  unfoldable pub watch_cycles : WatchLoopInput W X → ℕ → Pacer → W → WatchRun W X
  watch_cycles input zero pacer w = settle_watch WatchResult.watch_out_of_fuel [] w
  watch_cycles input (suc fuel) pacer w =
      let (pacer', cycle) = run_cycle input pacer w in
      let run = after_attempt input (after_cycle input cycle) (watch_cycles input fuel pacer') in
      if input.should_stop w then settle_watch WatchResult.exit_zero [] w else run

  unfoldable pub run_watch_loop : WatchLoopInput W X → ℕ → W → WatchRun W X
  run_watch_loop input fuel w = watch_cycles input fuel (create_pacer input.request_spacing_ms) w
