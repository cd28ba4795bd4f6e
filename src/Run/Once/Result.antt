-- ===== src/Run/Once/Result.antt =====
-- src/run/run-once-summary.ts and src/run/run-once.ts: the result of a run.
use replays_fetcher.Base.{ℕ, ◌+◌, none, some, true, false, Text, if◌then◌else◌, Result, ok, err}
use replays_fetcher.Types.{RunStatus}
use replays_fetcher.Checkpoint.{CheckpointStatus}
use replays_fetcher.Run.Summary.{
  derive_source_failure, derive_run_status, build_run_summary, run_exit_code, is_complete,
}
use replays_fetcher.Run.Once.Types.{RunOnceInput, RunOnceResult, LoopState, first_page}
use replays_fetcher.Run.Once.Resume.{
  write_final_checkpoint, resume_invocation_option, discovered_range_option, build_loop_state,
}
use replays_fetcher.Run.Once.Loop.{
  StopReason, cap, LoopOutcome, stopped, loop_throws, loop_stalled, out_of_fuel, RunIdentity,
  build_run_runtime, run_page_loop,
}

-- `state.reachedMaxPages = stopReason === "cap"`
abbrev pub mark_cap : StopReason → LoopState → LoopState
mark_cap cap s = record s { reached_max_pages = true }
mark_cap _ s = record s { reached_max_pages = false }

unfoldable pub derive_discovered_last_page : LoopState → ℕ
derive_discovered_last_page s =
    if s.discovery_report.ok then s.last_completed_page else s.last_completed_page + first_page

unfoldable pub status_of : LoopState → RunStatus
status_of s = derive_run_status (record {
  discovered_last_page = derive_discovered_last_page s;
  last_completed_page = s.last_completed_page;
  ok = s.discovery_report.ok;
  reached_max_pages = s.reached_max_pages;
  source_failure = derive_source_failure s.discovery_report;
})

-- How a run settles; the last two are the model's own.
pub data RunOutcome (X : Type 0) : Type 0 where
  finished : RunOnceResult → RunOutcome X
  run_throws : X → RunOutcome X
  run_stalled : RunOutcome X
  run_out_of_fuel : RunOutcome X

module _ {W X : Type 0} where
  -- The summary, and the last checkpoint of a complete run.
  unfoldable pub assemble_result :
      RunOnceInput W X → RunIdentity → LoopState → W → W × RunOnceResult
  assemble_result input id s w =
      let status = status_of s in
      let w' =
        if is_complete status
        then write_final_checkpoint input
            (record {
              discovered_last_page = some (derive_discovered_last_page s);
              last_completed_page = s.last_completed_page;
              pages = s.pages;
              slug = id.slug;
              started_at = id.started_at;
              status = CheckpointStatus.complete;
            })
            s.etag w
        else w in
      let summary = build_run_summary (record {
        discovered_range = discovered_range_option s.last_completed_page;
        discovery_report = s.discovery_report;
        finished_at = input.to_iso (input.now w');
        mode = none;
        raw_storage = s.raw_storage;
        resume_invocation = resume_invocation_option status;
        run_id = input.run_id;
        skipped_by_source_id = none;
        staging = s.staging;
        started_at = id.started_at;
        status = some status;
      }) in
      (
        input.write_evidence summary w',
        record { exit_code = run_exit_code summary.ok summary.status; summary = summary },
      )

  abbrev pub settle_run : RunOnceInput W X → RunIdentity → W × LoopOutcome X → W × RunOutcome X
  settle_run input id (w, stopped reason p) =
      let (w', result) = assemble_result input id (mark_cap reason p.state) w in
      (w', finished result)
  settle_run input id (w, loop_throws x) = (w, run_throws x)
  settle_run input id (w, loop_stalled) = (w, run_stalled)
  settle_run input id (w, out_of_fuel) = (w, run_out_of_fuel)

  abbrev pub run_from :
      RunOnceInput W X → RunIdentity → ℕ → W × Result X LoopState → W × RunOutcome X
  run_from input id fuel (w, err x) = (w, run_throws x)
  run_from input id fuel (w, ok s) = settle_run input id (
      run_page_loop input id fuel (s.last_completed_page + first_page)
        (record { state = s; runtime = build_run_runtime input }) w)

  -- `runOnce`, on the slug that `sanitizeSourceUrl` makes of the source's URL.
  unfoldable pub run_once : RunOnceInput W X → Text → ℕ → W → W × RunOutcome X
  run_once input slug fuel w =
      let id : RunIdentity = record { slug = slug; started_at = input.to_iso (input.now w) } in
      run_from input id fuel (build_loop_state input slug w)
