-- ===== src/Examples/Watch.antt =====
-- A watcher whose source fails every other cycle, until the signal to stop comes.
use replays_fetcher.Base.{
  ℕ, ◌+◌, ◌%◌, ◌≡◌, ◌≢◌, ◌==◌, leb, refl, true, [], ◌∷◌, Text, codes, text_eq, arith, ok, err,
  if◌then◌else◌,
}
use replays_fetcher.Types.{RawReplayStorageStatus, StagingOutcomeStatus, CompactRunSummary, RunMode}
use replays_fetcher.Source.Pacing.{create_pacer, await_floor, remaining_floor}
use replays_fetcher.Run.Watch.{
  WatchLoopInput, WatchResult, run_cycle, run_watch_loop, cycle_summary, watch_ingest,
}
use replays_fetcher.Run.Watch.Trace.{IsTrace, StopsBy, run_watch_loop-IsTrace, run_watch_loop_ends}
use replays_fetcher.Run.Watch.Endings.{Ended}
use replays_fetcher.Run.Watch.Accounts.{run_cycle-accounts}
use replays_fetcher.Examples.Page.{
  candidate_of, stored_as, staging_of, page_candidates, page_result,
}
use replays_fetcher.Run.Ingest.{
  ingest_page, gather, all_settled, run_schedule, step_at, start_tasks, step_state, check_step,
  is_trustworthy_id, first_rejection, tally, fulfilled_in_order, sort_by_index, fulfilled_values,
  insert_by_index,
}
use replays_fetcher.Examples.Run.{report_of}

-- The outside is the number of sleeps.
abbrev watch_input : WatchLoopInput ℕ Text
watch_input = record {
  discover_replays = λ w. (
    w,
    if w % 2 == 1
        then err (codes "source down")
        else ok (report_of (candidate_of (codes "new") ∷ candidate_of (codes "known") ∷ [])),
  );
  exists_by_source_identity = λ system id w. (w, ok (text_eq id (codes "known")));
  stage_raw_replay = λ raw w. (w, ok (staging_of StagingOutcomeStatus.staged));
  store_raw_replay = λ c w. (w, ok (stored_as RawReplayStorageStatus.stored c));
  schedule = λ w. 0 ∷ 1 ∷ 0 ∷ 0 ∷ 1 ∷ 1 ∷ [];
  create_run_id = λ ms. codes "run";
  interval_ms = 0;
  now = λ w. 0;
  request_spacing_ms = 0;
  should_stop = λ w. leb 3 w;
  sleep = λ ms w. w + 1;
  to_iso = λ ms. codes "t";
  write_heartbeat = λ t w. (w, ok tt);
}

run_watch_loop-IsTrace_example :
    let run = run_watch_loop watch_input 9 0 in IsTrace true run.events × Ended watch_input 9 run
run_watch_loop-IsTrace_example = run_watch_loop-IsTrace watch_input 9 0

abbrev first_summary : CompactRunSummary
first_summary = cycle_summary watch_input 0 (report_of page_candidates) page_result 0

run_cycle-accounts_example :
    (first_summary.counts.skipped_by_source_id + first_summary.counts.fetched
      ≡ first_summary.counts.discovered)
    × (first_summary.mode ≡ RunMode.watch)
unfolding run_cycle await_floor remaining_floor watch_ingest ingest_page gather all_settled
    run_schedule step_at start_tasks step_state check_step is_trustworthy_id first_rejection tally
    fulfilled_in_order sort_by_index fulfilled_values insert_by_index create_pacer
run_cycle-accounts_example = run_cycle-accounts watch_input (create_pacer 0) 0 first_summary refl

-- The same with a source that is always down.
abbrev down_input : WatchLoopInput ℕ Text
down_input = record watch_input { discover_replays = λ w. (w, err (codes "source down")) }

down_input-StopsBy : StopsBy down_input (λ w. w) 3
unfolding run_cycle
down_input-StopsBy = record {
  cycle_keeps = λ pacer w. ground arith;
  sleep_advances = λ w. omega arith;
  signalled = λ w h. ground arith;
}

run_watch_loop_ends_example : (run_watch_loop down_input 4 0).result ≢ WatchResult.watch_out_of_fuel
run_watch_loop_ends_example =
    run_watch_loop_ends down_input (λ w. w) 3 4 0 down_input-StopsBy (omega arith) (omega arith)
