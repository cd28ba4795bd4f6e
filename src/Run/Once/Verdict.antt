-- ===== src/Run/Once/Verdict.antt =====
-- src/run/run-once-summary.ts: the status of a run and the reason for which its loop stopped.
use replays_fetcher.Base.{ℕ, ◌≡◌, ◌⊎◌, ◌↔◌, arith}
use replays_fetcher.Types.{RunStatus}
use replays_fetcher.Run.Summary.{derive_run_status}
use replays_fetcher.Run.Once.Types.{RunOnceInput, LoopState}
use replays_fetcher.Run.Once.Loop.{StopReason, all_duplicate, cap, empty, page_failed}
use replays_fetcher.Run.Once.Pages.{IsEnd}
use replays_fetcher.Run.Once.Result.{mark_cap, derive_discovered_last_page, status_of}

-- The status of a run is truncated exactly if the cap stopped its loop, and complete exactly if an
-- empty page or a page of duplicates did: a failed page is never taken for the end of the source.
pub status_of-reason :
    {W X : Type 0} (input : RunOnceInput W X) (start : ℕ) (reason : StopReason) (s : LoopState)
    → IsEnd input start reason s
    → let status = status_of (mark_cap reason s) in
      ((status ≡ RunStatus.truncated) ↔ (reason ≡ cap))
      × ((status ≡ RunStatus.complete) ↔ ((reason ≡ empty) ⊎ (reason ≡ all_duplicate)))
unfolding status_of derive_run_status derive_discovered_last_page
status_of-reason input start all_duplicate s e = ground (arith, e.failed_page)
status_of-reason input start cap s e = ground (arith, e.failed_page)
status_of-reason input start empty s e = ground (arith, e.failed_page)
status_of-reason input start page_failed s e = ground (arith, e.failed_page)
