-- ===== src/Run/Summary/Counting.antt =====
-- src/run/summary.ts: the counts and the failure categories of a run.
use replays_fetcher.Base.{
  ℕ, ◌+◌, Bool, true, false, ltb, ◌==◌, List, [], ◌∷◌, ◌++◌, length, count_if, if◌then◌else◌,
}
use replays_fetcher.Types.{
  DiscoveryReport, RawReplayStorageStatus, StoreRawReplayResult, fetch_failure, evidence,
  raw_status, StagingOutcomeStatus, IngestStagingResult, RunFailureCategory, RunSummaryCounts,
}

-- `status === "stored"` and so on.
abbrev pub is_raw_stored : RawReplayStorageStatus → Bool
is_raw_stored RawReplayStorageStatus.stored = true
is_raw_stored _ = false

abbrev pub is_raw_skipped : RawReplayStorageStatus → Bool
is_raw_skipped RawReplayStorageStatus.skipped = true
is_raw_skipped _ = false

abbrev pub is_raw_conflict : RawReplayStorageStatus → Bool
is_raw_conflict RawReplayStorageStatus.conflict = true
is_raw_conflict _ = false

abbrev pub is_raw_failed : RawReplayStorageStatus → Bool
is_raw_failed RawReplayStorageStatus.failed = true
is_raw_failed _ = false

abbrev pub is_staged : StagingOutcomeStatus → Bool
is_staged StagingOutcomeStatus.staged = true
is_staged _ = false

abbrev pub is_already_staged : StagingOutcomeStatus → Bool
is_already_staged StagingOutcomeStatus.already_staged = true
is_already_staged _ = false

abbrev pub is_staging_conflict : StagingOutcomeStatus → Bool
is_staging_conflict StagingOutcomeStatus.conflict = true
is_staging_conflict _ = false

abbrev pub is_staging_failed : StagingOutcomeStatus → Bool
is_staging_failed StagingOutcomeStatus.failed = true
is_staging_failed _ = false

abbrev pub is_not_stageable : StagingOutcomeStatus → Bool
is_not_stageable StagingOutcomeStatus.not_stageable = true
is_not_stageable _ = false

abbrev pub count_status : (StagingOutcomeStatus → Bool) → List IngestStagingResult → ℕ
count_status test staging = count_if (λ r. test r.status) staging

abbrev pub count_raw : (RawReplayStorageStatus → Bool) → List StoreRawReplayResult → ℕ
count_raw test raw_storage = count_if (λ r. test (raw_status r)) raw_storage

abbrev pub staging_category : StagingOutcomeStatus → List RunFailureCategory
staging_category StagingOutcomeStatus.conflict = RunFailureCategory.staging_conflict ∷ []
staging_category StagingOutcomeStatus.failed = RunFailureCategory.staging_failed ∷ []
staging_category StagingOutcomeStatus.not_stageable = RunFailureCategory.not_stageable ∷ []
staging_category _ = []

abbrev pub staging_failure_categories : List IngestStagingResult → List RunFailureCategory
staging_failure_categories [] = []
staging_failure_categories (r ∷ rs) = staging_category r.status ++ staging_failure_categories rs

abbrev pub storage_category : RawReplayStorageStatus → List RunFailureCategory
storage_category RawReplayStorageStatus.conflict = RunFailureCategory.storage_conflict ∷ []
storage_category RawReplayStorageStatus.failed = RunFailureCategory.storage_failed ∷ []
storage_category _ = []

abbrev pub raw_category : StoreRawReplayResult → List RunFailureCategory
raw_category (fetch_failure _) = RunFailureCategory.fetch_failed ∷ []
raw_category (evidence e) = storage_category e.status

abbrev pub raw_failure_categories : List StoreRawReplayResult → List RunFailureCategory
raw_failure_categories [] = []
raw_failure_categories (r ∷ rs) = raw_category r ++ raw_failure_categories rs

abbrev pub source_failure_categories : DiscoveryReport → List RunFailureCategory
source_failure_categories report =
    if report.ok then [] else RunFailureCategory.source_unavailable ∷ []

-- The place of a category among the sorted names.
abbrev pub category_rank : RunFailureCategory → ℕ
category_rank RunFailureCategory.config_invalid = 0
category_rank RunFailureCategory.fetch_failed = 1
category_rank RunFailureCategory.not_stageable = 2
category_rank RunFailureCategory.source_unavailable = 3
category_rank RunFailureCategory.staging_conflict = 4
category_rank RunFailureCategory.staging_failed = 5
category_rank RunFailureCategory.storage_conflict = 6
category_rank RunFailureCategory.storage_failed = 7

-- One step of `[...new Set(categories)].toSorted()`: a category that is there is not added again,
-- and a new one goes to its place.
abbrev pub insert_category : RunFailureCategory → List RunFailureCategory → List RunFailureCategory
insert_category c [] = c ∷ []
insert_category c (d ∷ ds) =
    let rest = insert_category c ds in
    if category_rank c == category_rank d
    then d ∷ ds
    else if ltb (category_rank c) (category_rank d)
    then c ∷ d ∷ ds
    else d ∷ rest

unfoldable pub unique_categories : List RunFailureCategory → List RunFailureCategory
unique_categories [] = []
unique_categories (c ∷ cs) = insert_category c (unique_categories cs)

unfoldable pub collect_failure_categories :
    DiscoveryReport → List StoreRawReplayResult → List IngestStagingResult → List RunFailureCategory
collect_failure_categories report raw_storage staging = unique_categories (
    source_failure_categories report
    ++ (raw_failure_categories raw_storage ++ staging_failure_categories staging))

pub record CountRunInput : Type 0 where
  pub discovery_report : DiscoveryReport
  pub raw_storage : List StoreRawReplayResult
  pub skipped_by_source_id : ℕ
  pub skipped_pre_detail : ℕ
  pub staging : List IngestStagingResult

unfoldable pub count_run : CountRunInput → RunSummaryCounts
count_run i = record {
  conflict = count_raw is_raw_conflict i.raw_storage + count_status is_staging_conflict i.staging;
  diagnostics = length i.discovery_report.diagnostics;
  discovered = length i.discovery_report.candidates;
  duplicate = count_status is_already_staged i.staging;
  failed = count_raw is_raw_failed i.raw_storage + count_status is_staging_failed i.staging;
  fetched = length i.raw_storage;
  skipped = count_raw is_raw_skipped i.raw_storage + count_status is_not_stageable i.staging;
  skipped_by_source_id = i.skipped_by_source_id;
  skipped_pre_detail = i.skipped_pre_detail;
  staged = count_status is_staged i.staging;
  stored = count_raw is_raw_stored i.raw_storage;
}
