-- ===== src/Types/Replay.antt =====
-- src/types/raw-replay.ts: what storing the bytes of a replay leaves behind.
use replays_fetcher.Base.{ℕ, Option, Text}
use replays_fetcher.Types.Discovery.{CandidateSource}

pub data RawReplayStorageStatus : Type 0 where
  stored skipped conflict failed : RawReplayStorageStatus

pub data StorageFailureCategory : Type 0 where
  object_conflict s3_error : StorageFailureCategory

pub record RawReplayStorageEvidence : Type 0 where
  pub bucket : Text
  pub byte_size : ℕ
  pub checksum : Text
  pub discovered_at : Option Text
  pub failure_category : Option StorageFailureCategory
  pub fetched_at : Text
  pub object_key : Text
  pub source : CandidateSource
  pub source_filename : Text
  pub status : RawReplayStorageStatus

-- `failureCategory` is always "fetch_failed" and `status` always "failed".
pub record RawReplayFetchFailureEvidence : Type 0 where
  pub fetched_at : Text
  pub message : Text
  pub source : CandidateSource
  pub source_filename : Text

pub data StoreRawReplayResult : Type 0 where
  fetch_failure : RawReplayFetchFailureEvidence → StoreRawReplayResult
  evidence : RawReplayStorageEvidence → StoreRawReplayResult

-- `result.status` of either case.
abbrev pub raw_status : StoreRawReplayResult → RawReplayStorageStatus
raw_status (fetch_failure _) = RawReplayStorageStatus.failed
raw_status (evidence e) = e.status
