-- ===== src/Examples/Run.antt =====
-- A run over a source of two pages, of which the second is empty, and summaries.
use replays_fetcher.Base.{
  ℕ, ◌+◌, ◌≡◌, ◌≢◌, ◌⊎◌, ◌↔◌, ◌==◌, if◌then◌else◌, refl, none, some, true, false, List, [], ◌∷◌,
  Text, codes, length, arith, ok,
}
use replays_fetcher.Types.{
  ReplayCandidate, DiscoveryReport, RunFailureCategory, RunStatus, RawReplayStorageStatus,
  StagingOutcomeStatus,
}
use replays_fetcher.Run.Summary.{
  collect_failure_categories, BuildRunSummaryInput, build_run_summary, run_exit_code,
  DeriveRunStatusInput, derive_run_status, unique_categories,
}
use replays_fetcher.Run.Summary.Verdict.{Succeeded, exit_code_zero_iff}
use replays_fetcher.Run.Once.{
  RunOnceInput, RunOnceResult, RunOutcome, finished, run_once, assemble_result, build_loop_state,
  resolve_resume_state, append_discovery_report, empty_discovery_report,
  derive_discovered_last_page, LoopState, Progress, RunIdentity, StopReason, stopped, out_of_fuel,
  build_run_runtime, run_page_loop, status_of, mark_cap, LoopOutcome, run_page, after_discovery,
  complete_ok_page, finish_page, is_all_duplicate,
}
use replays_fetcher.Run.Ingest.{
  ingest_page, gather, all_settled, run_schedule, step_at, start_tasks, step_state, check_step,
  is_trustworthy_id, first_rejection, tally, fulfilled_in_order, sort_by_index, fulfilled_values,
  insert_by_index,
}
use replays_fetcher.Run.Once.Outcome.{IsSuccess, run_once-IsSuccess}
use replays_fetcher.Run.Once.Pages.{IsEnd, run_page_loop-IsEnd}
use replays_fetcher.Run.Once.Rule.{run_page_loop_ends}
use replays_fetcher.Run.Once.Limiter.{limiter_never_shrinks}
use replays_fetcher.Run.Once.Verdict.{status_of-reason}
use replays_fetcher.Examples.Page.{candidate_of, stored_as, staging_of, page_input}

abbrev pub report_of : List ReplayCandidate → DiscoveryReport
report_of cs = record {
  candidates = cs;
  counts = record {
    candidates = length cs;
    diagnostics = 0;
    discovered = length cs;
    skipped_pre_detail = 0;
  };
  diagnostics = [];
  generated_at = codes "t0";
  max_pages = some 1;
  ok = true;
  source_url = codes "https://sg.zone/replays";
}

abbrev run_input : RunOnceInput ℕ Text
run_input = record {
  discover_replays =
      λ page w. (w, ok (report_of (if page == 1 then candidate_of (codes "new") ∷ [] else [])));
  ingest = page_input false;
  schedule = λ w. 0 ∷ 0 ∷ 0 ∷ [];
  read_checkpoint = λ slug w. (w, ok (record { checkpoint = none; etag = none }));
  write_checkpoint = λ input w. (w + 1, ok (some (codes "etag")));
  concurrency = 4;
  max_pages = some 9;
  now = λ w. w;
  to_iso = λ ms. codes "t1";
  page_key = λ page. page ∷ [];
  request_spacing_ms = 0;
  run_id = codes "run";
  sleep = λ ms w. w + ms;
  write_evidence = λ summary w. w;
}

abbrev identity : RunIdentity
identity = record { slug = codes "https://sg.zone/replays"; started_at = codes "t0" }

abbrev start_state : LoopState
start_state = record {
  discovery_report = report_of [];
  etag = none;
  last_completed_page = 0;
  page_timestamps_ms = [];
  pages = [];
  raw_storage = [];
  reached_max_pages = false;
  staging = [];
}

abbrev start_progress : Progress
start_progress = record { state = start_state; runtime = build_run_runtime run_input }

run_page_loop_ends_example :
    (run_page_loop run_input identity 10 1 start_progress 0).1 ≢ out_of_fuel
run_page_loop_ends_example =
    run_page_loop_ends run_input identity 9 10 1 start_progress 0 refl (omega arith) (omega arith)

-- Where the loop stopped.
abbrev progress_of : {X : Type 0} → LoopOutcome X → Progress → Progress
progress_of (stopped reason p) q = p
progress_of _ q = q

abbrev end_progress : Progress
end_progress = progress_of (run_page_loop run_input identity 10 1 start_progress 0).1 start_progress

limiter_never_shrinks_example : end_progress.runtime.limit_concurrency ≡ run_input.concurrency
unfolding run_page_loop run_page after_discovery complete_ok_page finish_page is_all_duplicate
    ingest_page gather all_settled run_schedule step_at start_tasks step_state check_step
    is_trustworthy_id first_rejection tally fulfilled_in_order sort_by_index fulfilled_values
    insert_by_index
limiter_never_shrinks_example = limiter_never_shrinks run_input identity 10 1 start_state 0 refl

run_page_loop-IsEnd_example : IsEnd run_input 0 StopReason.empty end_progress.state
unfolding run_page_loop run_page after_discovery complete_ok_page finish_page is_all_duplicate
    ingest_page gather all_settled run_schedule step_at start_tasks step_state check_step
    is_trustworthy_id first_rejection tally fulfilled_in_order sort_by_index fulfilled_values
    insert_by_index
run_page_loop-IsEnd_example =
    run_page_loop-IsEnd run_input identity 0 10 start_progress 0 refl refl refl

abbrev failed_report : DiscoveryReport
failed_report = record (report_of []) { ok = false }

abbrev failed_state : LoopState
failed_state = record start_state { discovery_report = failed_report }

failed_state-IsEnd : IsEnd run_input 0 StopReason.page_failed failed_state
failed_state-IsEnd = record {
  from_start = omega arith;
  entered = λ q lo hi e. omega arith;
  failed_page = refl;
  cause = tt;
}

status_of-reason_example :
    let status = status_of (mark_cap StopReason.page_failed failed_state) in
    ((status ≡ RunStatus.truncated) ↔ (StopReason.page_failed ≡ StopReason.cap))
    × ((status ≡ RunStatus.complete) ↔ (
        (StopReason.page_failed ≡ StopReason.empty)
        ⊎ (StopReason.page_failed ≡ StopReason.all_duplicate)))
status_of-reason_example =
    status_of-reason run_input 0 StopReason.page_failed failed_state failed_state-IsEnd

abbrev summary_input : BuildRunSummaryInput
summary_input = record {
  discovered_range = none;
  discovery_report = report_of (candidate_of (codes "new") ∷ []);
  finished_at = codes "t9";
  mode = none;
  raw_storage = stored_as RawReplayStorageStatus.conflict (candidate_of (codes "new")) ∷ [];
  resume_invocation = none;
  run_id = codes "run";
  skipped_by_source_id = none;
  staging = staging_of StagingOutcomeStatus.not_stageable ∷ [];
  started_at = codes "t0";
  status = some RunStatus.complete;
}

exit_code_zero_iff_example :
    let s = build_run_summary summary_input in
    ((run_exit_code s.ok s.status ≡ 0) ↔ Succeeded summary_input)
    × ((run_exit_code s.ok s.status ≡ 0) ⊎ (run_exit_code s.ok s.status ≡ 2))
exit_code_zero_iff_example = exit_code_zero_iff summary_input

abbrev status_input : DeriveRunStatusInput
status_input = record {
  discovered_last_page = 4;
  last_completed_page = 3;
  ok = false;
  reached_max_pages = false;
  source_failure = none;
}

abbrev categories : List RunFailureCategory
categories =
    RunFailureCategory.storage_failed ∷ RunFailureCategory.fetch_failed
    ∷ RunFailureCategory.storage_failed ∷ []

abbrev result_of : {X : Type 0} → RunOutcome X → RunOnceResult → RunOnceResult
result_of (finished r) _ = r
result_of _ q = q

abbrev run_result : RunOnceResult
run_result =
    result_of (run_once run_input identity.slug 10 0).1
      (assemble_result run_input identity start_state 0).1

run_once-IsSuccess_example : IsSuccess run_input run_result
unfolding run_page_loop run_page after_discovery complete_ok_page finish_page is_all_duplicate
    ingest_page gather all_settled run_schedule step_at start_tasks step_state check_step
    is_trustworthy_id first_rejection tally fulfilled_in_order sort_by_index fulfilled_values
    insert_by_index run_once assemble_result build_loop_state build_run_summary run_exit_code
    resolve_resume_state status_of derive_run_status append_discovery_report empty_discovery_report
    derive_discovered_last_page collect_failure_categories unique_categories
run_once-IsSuccess_example = run_once-IsSuccess run_input identity.slug 10 0 run_result refl refl
