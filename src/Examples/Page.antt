-- ===== src/Examples/Page.antt =====
-- A page of two candidates, of which the watcher knows the second.
use replays_fetcher.Base.{
  ℕ, zero, suc, ◌+◌, ◌≤◌, ◌<◌, ◌≡◌, ◌≢◌, ◌↔◌, refl, none, some, Bool, true, List, [], ◌∷◌, Text,
  codes, text_eq, length, All, arith, ok,
}
use replays_fetcher.Types.{
  ReplayCandidate, RawReplayStorageStatus, StoreRawReplayResult, evidence, StagingOutcomeStatus,
  IngestStagingResult,
}
use replays_fetcher.Run.Ingest.{
  IngestPageResult, IngestPageInput, pending, ingest_page, gather, all_settled, run_schedule,
  step_at, start_tasks, step_state, check_step, is_trustworthy_id, first_rejection, tally,
  fulfilled_in_order, sort_by_index, fulfilled_values, insert_by_index,
}
use replays_fetcher.Run.Ingest.Counts.{IsTallied}
use replays_fetcher.Run.Ingest.Matches.{Matched, ingest_page-Matched}
use replays_fetcher.Run.Ingest.Schedule.{turns, ingest_page_settles}
use replays_fetcher.Run.Once.{is_all_duplicate}
use replays_fetcher.Run.Once.Duplicates.{RawOld, StagingOld, is_all_duplicate_iff}

abbrev pub candidate_of : Text → ReplayCandidate
candidate_of id = record {
  filename = id;
  metadata = none;
  source = record { external_id = some id; page = some 1; raw_url = none; url = id };
}

abbrev pub stored_as : RawReplayStorageStatus → ReplayCandidate → StoreRawReplayResult
stored_as status c = evidence (record {
  bucket = codes "replays";
  byte_size = 2;
  checksum = codes "44136fa3";
  discovered_at = none;
  failure_category = none;
  fetched_at = codes "t0";
  object_key = codes "raw/44136fa3.json";
  source = c.source;
  source_filename = c.filename;
  status = status;
})

abbrev pub staging_of : StagingOutcomeStatus → IngestStagingResult
staging_of status = record {
  existing = none;
  payload = none;
  reason = none;
  staging_id = some (codes "id");
  status = status;
}

abbrev pub page_input : Bool → IngestPageInput ℕ Text
page_input prefetch = record {
  exists_by_source_identity = some (λ system id w. (w, ok (text_eq id (codes "known"))));
  prefetch_dedup = prefetch;
  source_system = none;
  stage_raw_replay = λ raw w. (w + 1, ok (staging_of StagingOutcomeStatus.staged));
  store_raw_replay = λ c w. (w + 1, ok (stored_as RawReplayStorageStatus.stored c));
}

abbrev pub page_candidates : List ReplayCandidate
page_candidates = candidate_of (codes "new") ∷ candidate_of (codes "known") ∷ []

-- The second task runs first.
abbrev turns_of_page : List ℕ
turns_of_page = 1 ∷ 0 ∷ 0 ∷ 1 ∷ 1 ∷ 0 ∷ []

abbrev pub page_result : IngestPageResult
page_result = record {
  counts = record { discovered = 2; failed = 0; skipped_by_source_id = 1; staged = 1; stored = 1 };
  raw_storage = stored_as RawReplayStorageStatus.stored (candidate_of (codes "new")) ∷ [];
  staging = staging_of StagingOutcomeStatus.staged ∷ [];
}

ingest_page-Matched_example :
    Matched (page_input true) page_candidates page_result.raw_storage page_result.staging
    × IsTallied page_result
    × (2 ≡ length page_candidates)
    × (1 + 1 ≡ length page_candidates)
unfolding ingest_page gather all_settled run_schedule step_at start_tasks step_state check_step
    is_trustworthy_id first_rejection tally fulfilled_in_order sort_by_index fulfilled_values
    insert_by_index
ingest_page-Matched_example =
    ingest_page-Matched (page_input true) page_candidates turns_of_page 0 page_result refl

turns_of_page_lem : (i : ℕ) → i < 2 → 3 ≤ turns i turns_of_page
turns_of_page_lem zero h = omega arith
turns_of_page_lem (suc zero) h = omega arith
turns_of_page_lem (suc (suc i)) h = omega arith

ingest_page_settles_example :
    (ingest_page (page_input true) page_candidates turns_of_page 0).1 ≢ pending
ingest_page_settles_example =
    ingest_page_settles (page_input true) page_candidates turns_of_page 0 turns_of_page_lem

-- A page whose one replay is in conflict, in the store and in the staging table.
abbrev conflicts : IngestPageResult
conflicts = record {
  counts = record { discovered = 1; failed = 0; skipped_by_source_id = 0; staged = 0; stored = 0 };
  raw_storage = stored_as RawReplayStorageStatus.conflict (candidate_of (codes "new")) ∷ [];
  staging = staging_of StagingOutcomeStatus.conflict ∷ [];
}

is_all_duplicate_iff_example :
    (is_all_duplicate conflicts.counts ≡ true)
    ↔ (All RawOld conflicts.raw_storage × All StagingOld conflicts.staging)
is_all_duplicate_iff_example =
    is_all_duplicate_iff conflicts (record {
      stored_counted = refl;
      staged_counted = refl;
      failed_counted = refl;
      paired = refl;
    })
