-- ===== src/Types/Staging.antt =====
-- src/types/staging.ts: the payload of a staging row and the outcome of staging it.
use replays_fetcher.Base.{ℕ, Option, Text}
use replays_fetcher.Types.Replay.{RawReplayStorageStatus}

pub data StagingOutcomeStatus : Type 0 where
  already_staged conflict failed not_stageable staged : StagingOutcomeStatus

pub record PromotionEvidence : Type 0 where
  pub bucket : Text
  pub byte_size : ℕ
  pub checksum : Text
  pub discovered_at : Option Text
  pub fetched_at : Text
  pub object_key : Text
  pub raw_storage_status : RawReplayStorageStatus
  pub run_id : Option Text
  pub source_external_id : Option Text
  pub source_filename : Text
  pub source_url : Text

-- `conflictDetails` is always `{}` and `status` always "pending".
pub record IngestStagingPayload : Type 0 where
  pub checksum : Text
  pub object_key : Text
  pub promotion_evidence : PromotionEvidence
  pub replay_timestamp : Option Text
  pub size_bytes : ℕ
  pub source_replay_id : Text
  pub source_system : Text

pub record ExistingStagingEvidence : Type 0 where
  pub checksum : Text
  pub object_key : Text
  pub source_replay_id : Text
  pub source_system : Text
  pub status : Text

pub data StagingReason : Type 0 where
  source_identity_conflict raw_object_identity_conflict : StagingReason
  unique_violation_without_existing_staging staging_write_failed : StagingReason
  -- "Raw storage status … is not stageable"
  not_stageable_status : RawReplayStorageStatus → StagingReason

pub record IngestStagingResult : Type 0 where
  pub existing : Option ExistingStagingEvidence
  pub payload : Option IngestStagingPayload
  pub reason : Option StagingReason
  pub staging_id : Option Text
  pub status : StagingOutcomeStatus
