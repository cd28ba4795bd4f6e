-- ===== src/Run/Once/Duplicates.antt =====
-- src/run/run-once-page.ts: the test for a page of duplicates.
use replays_fetcher.Base.{◌≡◌, ◌⊎◌, ◌↔◌, refl, true, List, [], ◌∷◌, All, arith}
use replays_fetcher.Types.{
  RawReplayStorageStatus, StoreRawReplayResult, raw_status, StagingOutcomeStatus,
  IngestStagingResult,
}
use replays_fetcher.Run.Summary.{
  count_raw, count_status, is_raw_stored, is_raw_failed, is_staged, is_staging_failed,
}
use replays_fetcher.Run.Ingest.{IngestPageResult}
use replays_fetcher.Run.Ingest.Counts.{IsTallied}
use replays_fetcher.Run.Once.Loop.{is_all_duplicate}

-- A replay whose object was there already, or is in conflict with what was there.
abbrev pub RawOld : StoreRawReplayResult → Type 0
RawOld r =
    (raw_status r ≡ RawReplayStorageStatus.skipped)
    ⊎ (raw_status r ≡ RawReplayStorageStatus.conflict)

-- A replay that has a staging row already, is in conflict with one, or cannot be staged.
abbrev pub StagingOld : IngestStagingResult → Type 0
StagingOld r =
    (r.status ≡ StagingOutcomeStatus.already_staged)
    ⊎ (r.status ≡ StagingOutcomeStatus.conflict)
    ⊎ (r.status ≡ StagingOutcomeStatus.not_stageable)

raw_counts-RawOld :
    (rs : List StoreRawReplayResult)
    → ((count_raw is_raw_stored rs ≡ 0) × (count_raw is_raw_failed rs ≡ 0)) ↔ All RawOld rs
raw_counts-RawOld [] = (λ _. tt, λ _. (refl, refl))
raw_counts-RawOld (r ∷ rs) = ground (arith, raw_counts-RawOld rs)

staging_counts-StagingOld :
    (rs : List IngestStagingResult)
    → ((count_status is_staged rs ≡ 0) × (count_status is_staging_failed rs ≡ 0))
      ↔ All StagingOld rs
staging_counts-StagingOld [] = (λ _. tt, λ _. (refl, refl))
staging_counts-StagingOld (r ∷ rs) = ground (arith, staging_counts-StagingOld rs)

-- A page with agreeing counts is taken for the end of the source exactly if each of its replays was
-- found to be stored already or in conflict, and each staging result says already staged, in conflict
-- or not stageable: a page that holds nothing but conflicts is taken for a page of duplicates, too.
pub is_all_duplicate_iff :
    (r : IngestPageResult)
    → IsTallied r
    → (is_all_duplicate r.counts ≡ true) ↔ (All RawOld r.raw_storage × All StagingOld r.staging)
unfolding is_all_duplicate
is_all_duplicate_iff r t = ground (
  arith,
  t.stored_counted,
  t.staged_counted,
  t.failed_counted,
  raw_counts-RawOld r.raw_storage,
  staging_counts-StagingOld r.staging,
)
