-- ===== src/Storage/Defs.antt =====
-- src/storage/s3-raw-storage.ts and src/storage/store-raw-replay.ts. The byte client, the hash and the
-- S3 client are parameters, over the state `W` of what lies outside.
use replays_fetcher.Base.{
  ℕ, Option, none, some, Bool, false, ◌&&◌, ◌||◌, not, ◌==◌, List, Text, codes, text_eq, length,
  or_else, if◌then◌else◌, Result, ok, err,
}
use replays_fetcher.Types.{
  ReplayCandidate, CandidateMetadata, RawReplayStorageStatus, StorageFailureCategory,
  RawReplayStorageEvidence, StoreRawReplayResult, fetch_failure, evidence,
}
use replays_fetcher.Keys.{KeyError, to_raw_replay_object_key}

-- An error of the S3 client: an `S3ServiceException` with its name and HTTP status, or another.
pub data S3Error : Type 0 where
  s3_exception : Text → Option ℕ → S3Error
  other_error : S3Error

abbrev pub has_status : Option ℕ → ℕ → Bool
has_status none s = false
has_status (some t) s = t == s

unfoldable pub is_not_found : S3Error → Bool
is_not_found (s3_exception name status) = text_eq name (codes "NotFound") || has_status status 404
is_not_found other_error = false

-- What HEAD answers: the length and the `sha256` of the metadata, each where it is there.
pub record Head : Type 0 where
  pub content_length : Option ℕ
  pub sha256 : Option Text

pub record PutObject : Type 0 where
  pub key : Text
  pub body : List ℕ
  pub sha256 : Text

pub record RawReplayStorageInput : Type 0 where
  pub bytes : List ℕ
  pub candidate : ReplayCandidate
  pub checksum : Text
  pub fetched_at : Text
  pub object_key : Text

pub record S3Sender (W : Type 0) : Type 0 where
  pub bucket : Text
  pub head : Text → W → W × Result S3Error Head
  pub put : PutObject → W → W × Result S3Error (Unit {0})

abbrev pub metadata_discovered_at : Option CandidateMetadata → Option Text
metadata_discovered_at none = none
metadata_discovered_at (some m) = m.discovered_at

-- `toBaseEvidence`, with the status and the category of a failure.
unfoldable pub to_evidence :
    Text
    → RawReplayStorageInput
    → RawReplayStorageStatus
    → Option StorageFailureCategory
    → RawReplayStorageEvidence
to_evidence bucket i status category = record {
  bucket = bucket;
  byte_size = length i.bytes;
  checksum = i.checksum;
  discovered_at = metadata_discovered_at i.candidate.metadata;
  failure_category = category;
  fetched_at = i.fetched_at;
  object_key = i.object_key;
  source = i.candidate.source;
  source_filename = i.candidate.filename;
  status = status;
}

abbrev pub has_length : Option ℕ → ℕ → Bool
has_length none n = false
has_length (some m) n = m == n

abbrev pub has_sha : Option Text → Text → Bool
has_sha none t = false
has_sha (some s) t = text_eq s t

-- The object that is there is the one to be stored.
unfoldable pub is_same_object : Head → RawReplayStorageInput → Bool
is_same_object h i = has_length h.content_length (length i.bytes) && has_sha h.sha256 i.checksum

module _ {W : Type 0} where
  abbrev pub after_put :
      S3Sender W
      → RawReplayStorageInput
      → W × Result S3Error (Unit {0})
      → W × RawReplayStorageEvidence
  after_put s i (w, ok _) = (w, to_evidence s.bucket i RawReplayStorageStatus.stored none)
  after_put s i (w, err _) = (
    w,
    to_evidence s.bucket i RawReplayStorageStatus.failed (some StorageFailureCategory.s3_error),
  )

  abbrev pub put_object : S3Sender W → RawReplayStorageInput → W → W × RawReplayStorageEvidence
  put_object s i w =
      after_put s i (s.put (record { key = i.object_key; body = i.bytes; sha256 = i.checksum }) w)

  abbrev pub after_head :
      S3Sender W → RawReplayStorageInput → W × Result S3Error Head → W × RawReplayStorageEvidence
  after_head s i (w, ok h) =
      if is_same_object h i
      then (w, to_evidence s.bucket i RawReplayStorageStatus.skipped none)
      else (
        w,
        to_evidence s.bucket i RawReplayStorageStatus.conflict
            (some StorageFailureCategory.object_conflict),
      )
  after_head s i (w, err e) =
      if not (is_not_found e)
      then (
        w,
        to_evidence s.bucket i RawReplayStorageStatus.failed (some StorageFailureCategory.s3_error),
      )
      else put_object s i w

  -- `storeRawReplay` of the S3 storage: HEAD first, and PUT only where there is nothing.
  unfoldable pub s3_store_raw_replay :
      S3Sender W → RawReplayStorageInput → W → W × RawReplayStorageEvidence
  s3_store_raw_replay s i w = after_head s i (s.head i.object_key w)

-- What fetching the bytes throws: a `ReplayByteFetchError` with its message, or something else.
pub data ByteError (X : Type 0) : Type 0 where
  byte_fetch_error : Text → ByteError X
  other : X → ByteError X

-- What `storeRawReplay` lets through.
pub data StoreThrown (X : Type 0) : Type 0 where
  rethrown : X → StoreThrown X
  key_error : KeyError → StoreThrown X

pub record StoreInput (W X : Type 0) : Type 0 where
  -- `fetchBytes(new URL(text))`
  pub fetch_bytes : Text → W → W × Result (ByteError X) (List ℕ)
  pub calculate_sha256 : List ℕ → Text
  pub now_iso : W → Text
  pub storage : S3Sender W

module _ {W X : Type 0} where
  -- The S3 storage, once the key is there.
  abbrev pub with_key :
      StoreInput W X
      → ReplayCandidate
      → Text
      → List ℕ
      → (checksum : Text) → W
      → Result KeyError Text
      → W × Result (StoreThrown X) StoreRawReplayResult
  with_key input c fetched_at bytes checksum w (err e) = (w, err (key_error e))
  with_key input c fetched_at bytes checksum w (ok key) =
      let (w', e) =
        s3_store_raw_replay input.storage
          (record {
            bytes = bytes;
            candidate = c;
            checksum = checksum;
            fetched_at = fetched_at;
            object_key = key;
          })
          w in
      (w', ok (evidence e))

  -- The hash, the key and the S3 storage, once the bytes are there.
  unfoldable pub store_bytes :
      StoreInput W X
      → ReplayCandidate
      → Text
      → List ℕ
      → W
      → W × Result (StoreThrown X) StoreRawReplayResult
  store_bytes input c fetched_at bytes w =
      let checksum = input.calculate_sha256 bytes in
      with_key input c fetched_at bytes checksum w (to_raw_replay_object_key checksum)

  abbrev pub after_fetch :
      StoreInput W X
      → ReplayCandidate
      → Text
      → W × Result (ByteError X) (List ℕ)
      → W × Result (StoreThrown X) StoreRawReplayResult
  after_fetch input c fetched_at (w, ok bytes) = store_bytes input c fetched_at bytes w
  after_fetch input c fetched_at (w, err (byte_fetch_error message)) = (
    w,
    ok (
        fetch_failure (record {
          fetched_at = fetched_at;
          message = message;
          source = c.source;
          source_filename = c.filename;
        })),
  )
  after_fetch input c fetched_at (w, err (other x)) = (w, err (rethrown x))

  unfoldable pub store_raw_replay :
      StoreInput W X → ReplayCandidate → W → W × Result (StoreThrown X) StoreRawReplayResult
  store_raw_replay input c w =
      after_fetch input c (input.now_iso w)
        (input.fetch_bytes (or_else c.source.raw_url c.source.url) w)
