-- ===== src/Run/Summary/Verdict.antt =====
-- src/run/summary.ts: the exit code and the status.
use replays_fetcher.Base.{
  ◌≤◌, ◌<◌, ◌≡◌, ◌⊎◌, ◌↔◌, refl, true, false, ◌&&◌, List, [], ◌∷◌, ◌++◌, All, arith,
}
use replays_fetcher.Types.{
  DiscoveryReport, RawReplayStorageStatus, StoreRawReplayResult, fetch_failure, evidence,
  raw_status, StagingOutcomeStatus, IngestStagingResult, RunFailureCategory, RunStatus,
}
use replays_fetcher.Run.Summary.Counting.{
  raw_category, staging_category, raw_failure_categories, staging_failure_categories,
  insert_category, unique_categories, collect_failure_categories,
}
use replays_fetcher.Run.Summary.Defs.{
  BuildRunSummaryInput, build_run_summary, run_exit_code, is_none_found, is_incomplete_status,
  DeriveRunStatusInput, derive_run_status, is_recoverable,
}

-- A replay that was stored or found to be there.
abbrev pub RawFine : StoreRawReplayResult → Type 0
RawFine r =
    (raw_status r ≡ RawReplayStorageStatus.stored) ⊎ (raw_status r ≡ RawReplayStorageStatus.skipped)

-- A replay that was staged or found to be there.
abbrev pub StagingFine : IngestStagingResult → Type 0
StagingFine r =
    (r.status ≡ StagingOutcomeStatus.staged) ⊎ (r.status ≡ StagingOutcomeStatus.already_staged)

insert_category-ne-nil :
    (c : RunFailureCategory) (cs : List RunFailureCategory)
    → is_none_found (insert_category c cs) ≡ false
insert_category-ne-nil c [] = refl
insert_category-ne-nil c (d ∷ ds) = ground arith

is_none_found-unique_categories :
    (cs : List RunFailureCategory) → is_none_found (unique_categories cs) ≡ is_none_found cs
unfolding unique_categories
is_none_found-unique_categories [] = refl
is_none_found-unique_categories (c ∷ cs) = insert_category-ne-nil c (unique_categories cs)

is_none_found-append :
    (as' bs : List RunFailureCategory)
    → is_none_found (as' ++ bs) ≡ (is_none_found as' && is_none_found bs)
is_none_found-append [] bs = refl
is_none_found-append (a ∷ as') bs = refl

raw_category-RawFine :
    (r : StoreRawReplayResult) → (is_none_found (raw_category r) ≡ true) ↔ RawFine r
raw_category-RawFine (fetch_failure f) = ground arith
raw_category-RawFine (evidence e) = ground arith

staging_category-StagingFine :
    (r : IngestStagingResult) → (is_none_found (staging_category r.status) ≡ true) ↔ StagingFine r
staging_category-StagingFine r = ground arith

raw_failure_categories-All :
    (rs : List StoreRawReplayResult)
    → (is_none_found (raw_failure_categories rs) ≡ true) ↔ All RawFine rs
raw_failure_categories-All [] = (λ _. tt, λ _. refl)
raw_failure_categories-All (r ∷ rs) =
    rw (is_none_found-append (raw_category r) (raw_failure_categories rs))
      (ground (arith, raw_category-RawFine r, raw_failure_categories-All rs))

staging_failure_categories-All :
    (rs : List IngestStagingResult)
    → (is_none_found (staging_failure_categories rs) ≡ true) ↔ All StagingFine rs
staging_failure_categories-All [] = (λ _. tt, λ _. refl)
staging_failure_categories-All (r ∷ rs) =
    rw (is_none_found-append (staging_category r.status) (staging_failure_categories rs))
      (ground (arith, staging_category-StagingFine r, staging_failure_categories-All rs))

-- Exactly when the process exits with 0.
abbrev pub Succeeded : BuildRunSummaryInput → Type 0
Succeeded i =
    (is_incomplete_status i.status ≡ false)
    × (i.discovery_report.ok ≡ true)
    × All RawFine i.raw_storage
    × All StagingFine i.staging

is_none_found-collect :
    (report : DiscoveryReport) (raw : List StoreRawReplayResult)
    (staging : List IngestStagingResult)
    → (is_none_found (collect_failure_categories report raw staging) ≡ true)
      ↔ ((report.ok ≡ true) × All RawFine raw × All StagingFine staging)
unfolding collect_failure_categories
is_none_found-collect report raw staging = rw is_none_found-unique_categories (
    rw is_none_found-append (
      rw is_none_found-append
        (ground (arith, raw_failure_categories-All raw, staging_failure_categories-All staging))))

-- A run exits with 0 exactly when its status, where it has one, is complete, the discovery was
-- without a source failure, every replay was stored or there already, and every replay was staged
-- or there already; in all other cases it exits with 2.
pub exit_code_zero_iff :
    (i : BuildRunSummaryInput)
    → let s = build_run_summary i in
      ((run_exit_code s.ok s.status ≡ 0) ↔ Succeeded i)
      × ((run_exit_code s.ok s.status ≡ 0) ⊎ (run_exit_code s.ok s.status ≡ 2))
unfolding build_run_summary run_exit_code
exit_code_zero_iff i =
    ground (arith, is_none_found-collect i.discovery_report i.raw_storage i.staging)

-- What the status of a run says: complete or truncated exactly on a clean run that finished all the
-- pages it knew of, by whether the cap of pages was exhausted; otherwise resumable exactly on a
-- recoverable source failure; otherwise partial exactly when some page was completed, and failed
-- exactly when none was.
pub derive_run_status_iff :
    (i : DeriveRunStatusInput)
    → let clean = (i.ok ≡ true) × (i.discovered_last_page ≤ i.last_completed_page) in
      let status = derive_run_status i in
      ((status ≡ RunStatus.complete) ↔ (clean × (i.reached_max_pages ≡ false)))
      × ((status ≡ RunStatus.truncated) ↔ (clean × (i.reached_max_pages ≡ true)))
      × ((status ≡ RunStatus.resumable) ↔ ((¬ clean) × (is_recoverable i.source_failure ≡ true)))
      × ((status ≡ RunStatus.partial)
          ↔ ((¬ clean) × (is_recoverable i.source_failure ≡ false) × (0 < i.last_completed_page)))
      × ((status ≡ RunStatus.failed)
          ↔ ((¬ clean) × (is_recoverable i.source_failure ≡ false) × (i.last_completed_page ≡ 0)))
unfolding derive_run_status
derive_run_status_iff i = ground arith
