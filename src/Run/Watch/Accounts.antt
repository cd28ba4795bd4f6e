-- ===== src/Run/Watch/Accounts.antt =====
-- src/run/watch-loop.ts: the summary of a cycle.
use replays_fetcher.Base.{ℕ, ◌+◌, ◌≡◌, refl, length, arith, Result, ok, err, ◌==◌, if◌then◌else◌}
use replays_fetcher.Types.{DiscoveryReport, CompactRunSummary, RunMode}
use replays_fetcher.Source.Pacing.{Pacer, await_floor}
use replays_fetcher.Run.Summary.{build_run_summary, to_compact_summary, count_run}
use replays_fetcher.Run.Ingest.{
  IngestOutcome, IngestPageResult, completed, threw, pending, ingest_page,
}
use replays_fetcher.Run.Ingest.Counts.{ingest_page_counts}
use replays_fetcher.Run.Watch.Defs.{
  WatchLoopInput, cycle_done, watch_ingest, cycle_summary, after_page_ingest, after_watch_discovery,
  run_cycle,
}

module _ {W X : Type 0} (input : WatchLoopInput W X) where
  after_page_ingest-accounts :
      (start : ℕ) (report : DiscoveryReport) (outcome : W × IngestOutcome X) (s : CompactRunSummary)
      → ((r : IngestPageResult)
          → outcome.1 ≡ completed r
          → r.counts.skipped_by_source_id + length r.raw_storage ≡ length report.candidates)
      → (after_page_ingest input start report outcome).1 ≡ cycle_done s
      → (s.counts.skipped_by_source_id + s.counts.fetched ≡ s.counts.discovered)
        × (s.mode ≡ RunMode.watch)
  unfolding cycle_summary to_compact_summary build_run_summary count_run
  after_page_ingest-accounts start report (w, completed r) s h e = ground (arith, h r refl)
  after_page_ingest-accounts start report (w, threw x) s h e = cc
  after_page_ingest-accounts start report (w, pending) s h e = cc

  after_watch_discovery-accounts :
      (start : ℕ) (found : W × Result X DiscoveryReport) (s : CompactRunSummary)
      → (after_watch_discovery input start found).1 ≡ cycle_done s
      → (s.counts.skipped_by_source_id + s.counts.fetched ≡ s.counts.discovered)
        × (s.mode ≡ RunMode.watch)
  after_watch_discovery-accounts start (w, ok report) s e =
      after_page_ingest-accounts start report
        (ingest_page (watch_ingest input) report.candidates (input.schedule w) w) s
        (λ r done.
          (ingest_page_counts (watch_ingest input) report.candidates (input.schedule w) w r done).2)
        e
  after_watch_discovery-accounts start (w, err x) s e = cc

  -- The summary of a completed cycle accounts for every candidate that was discovered: each was
  -- skipped by its source identity before the fetch or went to the store; and it is tagged as one of
  -- the watcher.
  pub run_cycle-accounts :
      (pacer : Pacer) (w : W) (s : CompactRunSummary)
      → (run_cycle input pacer w).1.1 ≡ cycle_done s
      → (s.counts.skipped_by_source_id + s.counts.fetched ≡ s.counts.discovered)
        × (s.mode ≡ RunMode.watch)
  unfolding run_cycle
  run_cycle-accounts pacer w s e =
      let ms = (await_floor (input.now w) pacer).1 in
      let w' = if ms == 0 then w else input.sleep ms w in
      after_watch_discovery-accounts (input.now w) (input.discover_replays w') s e
