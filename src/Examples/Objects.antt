-- ===== src/Examples/Objects.antt =====
-- A raw replay in an object store that holds one object.
use replays_fetcher.Base.{
  ◌≡◌, refl, Option, none, some, [], ◌∷◌, Text, codes, text_eq, text_eq_refl, length, arith, Result,
  ok, err, if◌then◌else◌,
}
use replays_fetcher.Types.{ReplayCandidate, RawReplayStorageStatus}
use replays_fetcher.Storage.{
  S3Error, s3_exception, Head, PutObject, RawReplayStorageInput, S3Sender, to_evidence,
  is_not_found, s3_store_raw_replay,
}
use replays_fetcher.Storage.Idempotence.{IsObjectStore, store_twice}

abbrev candidate : ReplayCandidate
candidate = record {
  filename = codes "2026_05_11__20_00_00__1_ocap.json";
  metadata = none;
  source = record {
    external_id = some (codes "1778529600");
    page = some 1;
    raw_url = none;
    url = codes "https://sg.zone/replays/1778529600";
  };
}

abbrev raw_input : RawReplayStorageInput
raw_input = record {
  bytes = 123 ∷ 125 ∷ [];
  candidate = candidate;
  checksum = codes "44136fa3";
  fetched_at = codes "2026-05-11T20:00:00.000Z";
  object_key = codes "raw/44136fa3.json";
}

abbrev head_of : Text → Option PutObject → Result S3Error Head
head_of key none = err (s3_exception (codes "NotFound") (some 404))
head_of key (some r) =
    if text_eq r.key key
    then ok (record { content_length = some (length r.body); sha256 = some r.sha256 })
    else err (s3_exception (codes "NotFound") (some 404))

abbrev sender : S3Sender (Option PutObject)
sender = record {
  bucket = codes "replays";
  head = λ key w. (w, head_of key w);
  put = λ r w. (some r, ok tt);
}

sender-IsObjectStore : IsObjectStore sender
sender-IsObjectStore = record { head_after_put = λ r w _. ground (arith, text_eq_refl r.key) }

store_twice_example :
    (s3_store_raw_replay sender raw_input (s3_store_raw_replay sender raw_input none).0).1
    ≡ to_evidence (codes "replays") raw_input RawReplayStorageStatus.skipped none
unfolding s3_store_raw_replay is_not_found to_evidence
store_twice_example = store_twice sender raw_input none sender-IsObjectStore refl
