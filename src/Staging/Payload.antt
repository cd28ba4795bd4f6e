-- ===== src/Staging/Payload.antt =====
-- src/staging/payload.ts and src/staging/stage-raw-replay.ts. The hash of src/storage/checksum.ts,
-- `TextEncoder` and the parser of URLs are parameters.
use replays_fetcher.Base.{
  Option, none, some, Bool, true, false, ◌∷◌, ◌++◌, List, ℕ, Text, codes, or_else, ◌>>=◌, Result,
  ok,
}
use replays_fetcher.Types.{
  RawReplayStorageStatus, RawReplayStorageEvidence, StoreRawReplayResult, fetch_failure, evidence,
  PromotionEvidence, StagingOutcomeStatus, IngestStagingPayload, StagingReason, IngestStagingResult,
}
use replays_fetcher.Time.{epoch_to_utc_iso, replay_timestamp_from_filename}

abbrev pub default_source_system : Text
default_source_system = codes "sg-zone"

pub record ToIngestStagingPayloadOptions : Type 0 where
  pub run_id : Option Text
  pub source_system : Option Text

pub data StagingPayloadResult : Type 0 where
  stageable : IngestStagingPayload → StagingPayloadResult
  not_stageable : StagingReason → StagingPayloadResult

unfoldable pub is_stageable : RawReplayStorageStatus → Bool
is_stageable RawReplayStorageStatus.stored = true
is_stageable RawReplayStorageStatus.skipped = true
is_stageable RawReplayStorageStatus.conflict = false
is_stageable RawReplayStorageStatus.failed = false

-- `a ?? b` where both may be undefined.
abbrev pub first_some : Option Text → Option Text → Option Text
first_some none b = b
first_some (some a) b = some a

-- What the code uses of the platform: `sha256` is the hexadecimal hash of bytes, `encode` the UTF-8
-- bytes of a text, and `without_userinfo` a URL with its user name and password emptied, or `none`
-- where the text is not a URL.
pub record Platform : Type 0 where
  pub sha256 : List ℕ → Text
  pub encode : Text → List ℕ
  pub without_userinfo : Text → Option Text

module _ (js : Platform) where
  unfoldable pub calculate_sha256 : List ℕ → Text
  calculate_sha256 bytes = js.sha256 bytes

  unfoldable pub sanitize_source_url : Text → Text
  sanitize_source_url source_url = or_else (js.without_userinfo source_url) source_url

  abbrev pub derived_id : RawReplayStorageEvidence → Text
  derived_id e =
      codes "derived:"
      ++ calculate_sha256 (js.encode (e.source.url ++ 10 ∷ (e.source_filename ++ 10 ∷ e.checksum)))

  unfoldable pub to_source_replay_id : RawReplayStorageEvidence → Text
  to_source_replay_id e = or_else e.source.external_id (derived_id e)

  -- The timestamp of the epoch in the identifier, else that in the filename, else the listing's.
  unfoldable pub replay_timestamp_of : RawReplayStorageEvidence → Option Text
  replay_timestamp_of e =
      first_some (e.source.external_id >>= epoch_to_utc_iso)
        (first_some (replay_timestamp_from_filename e.source_filename) e.discovered_at)

  unfoldable pub base_payload :
      RawReplayStorageEvidence → Text → PromotionEvidence → IngestStagingPayload
  base_payload e source_system promotion_evidence = record {
    checksum = e.checksum;
    object_key = e.object_key;
    promotion_evidence = promotion_evidence;
    replay_timestamp = replay_timestamp_of e;
    size_bytes = e.byte_size;
    source_replay_id = to_source_replay_id e;
    source_system = source_system;
  }

  unfoldable pub to_payload : RawReplayStorageEvidence → Text → Option Text → IngestStagingPayload
  to_payload e source_system run_id = base_payload e source_system record {
    bucket = e.bucket;
    byte_size = e.byte_size;
    checksum = e.checksum;
    discovered_at = e.discovered_at;
    fetched_at = e.fetched_at;
    object_key = e.object_key;
    raw_storage_status = e.status;
    run_id = run_id;
    source_external_id = e.source.external_id;
    source_filename = e.source_filename;
    source_url = sanitize_source_url e.source.url;
  }

  abbrev pub payload_if :
      Bool → RawReplayStorageEvidence → ToIngestStagingPayloadOptions → StagingPayloadResult
  payload_if true e options =
      stageable (to_payload e (or_else options.source_system default_source_system) options.run_id)
  payload_if false e options = not_stageable (StagingReason.not_stageable_status e.status)

  unfoldable pub to_ingest_staging_payload :
      RawReplayStorageEvidence → ToIngestStagingPayloadOptions → StagingPayloadResult
  to_ingest_staging_payload e options = payload_if (is_stageable e.status) e options

  -- The result for what is not staged.
  abbrev pub not_stageable_result : StagingReason → IngestStagingResult
  not_stageable_result reason = record {
    existing = none;
    payload = none;
    reason = some reason;
    staging_id = none;
    status = StagingOutcomeStatus.not_stageable;
  }

  module _ {W X : Type 0}
      (repository : IngestStagingPayload → W → W × Result X IngestStagingResult) where
    abbrev pub stage_payload : StagingPayloadResult → W → W × Result X IngestStagingResult
    stage_payload (stageable payload) w = repository payload w
    stage_payload (not_stageable reason) w = (w, ok (not_stageable_result reason))

    -- `repository` is the `stage` of the repository.
    unfoldable pub stage_raw_replay :
        Option Text → StoreRawReplayResult → W → W × Result X IngestStagingResult
    stage_raw_replay run_id (fetch_failure e) w = (
      w,
      ok (not_stageable_result (StagingReason.not_stageable_status RawReplayStorageStatus.failed)),
    )
    stage_raw_replay run_id (evidence e) w =
        stage_payload (to_ingest_staging_payload e record { run_id = run_id; source_system = none })
          w
