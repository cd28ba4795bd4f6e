-- ===== src/Storage/Bytes.antt =====
-- src/storage/store-raw-replay.ts with the byte client of src/storage/replay-byte-client.ts.
use replays_fetcher.Base.{
  ◌≡◌, ◌≢◌, refl, ℕ, Option, none, some, true, List, Text, or_else, codes, ◌++◌, ap, Result, ok,
  err,
}
use replays_fetcher.Types.{ReplayCandidate, StoreRawReplayResult}
use replays_fetcher.Keys.{is_sha256, to_raw_replay_object_key}
use replays_fetcher.Config.{SourceConfig}
use replays_fetcher.ByteClient.{
  ByteWorld, ByteResult, fetched_bytes, failed_bytes, never_bytes, fetch_bytes,
}
use replays_fetcher.ByteClient.Reports.{fetch_bytes_settles}
use replays_fetcher.Storage.Defs.{
  ByteError, byte_fetch_error, other, StoreThrown, StoreInput, S3Sender, with_key, store_bytes,
  after_fetch, store_raw_replay,
}

-- What else `storeRawReplay` may meet: a text that is no URL, and, in the model only, a promise that
-- never settles.
pub data StoreTrouble : Type 0 where
  invalid_url never_settles : StoreTrouble

abbrev pub as_fetch_result : ByteResult → Result (ByteError StoreTrouble) (List ℕ)
as_fetch_result (fetched_bytes bytes) = ok bytes
as_fetch_result (failed_bytes e) = err (byte_fetch_error e.message)
as_fetch_result never_bytes = err (other never_settles)

module _ {W : Type 0} (js : ByteWorld W) (config : SourceConfig)
    (parse_url : Text → Option Text) where
  abbrev pub fetch_parsed : Option Text → W → W × Result (ByteError StoreTrouble) (List ℕ)
  fetch_parsed none w = (w, err (other invalid_url))
  fetch_parsed (some url) w =
      let (w', r) = fetch_bytes js config url none w in (w', as_fetch_result r)

  -- `input.byteClient.fetchBytes(new URL(text))`
  abbrev pub client_fetch_bytes : Text → W → W × Result (ByteError StoreTrouble) (List ℕ)
  client_fetch_bytes text = fetch_parsed (parse_url text)

  abbrev pub client_store_input :
      (hash : List ℕ → Text) (now_iso : W → Text) (storage : S3Sender W) → StoreInput W StoreTrouble
  client_store_input hash now_iso storage = record {
    fetch_bytes = client_fetch_bytes;
    calculate_sha256 = hash;
    now_iso = now_iso;
    storage = storage;
  }

abbrev Returns : {W : Type 0} → W × Result (StoreThrown StoreTrouble) StoreRawReplayResult → Type 0
Returns r = (a : StoreRawReplayResult) × (r.1 ≡ ok a)

store_bytes-Returns :
    {W : Type 0} (input : StoreInput W StoreTrouble) (c : ReplayCandidate) (t : Text)
    (bytes : List ℕ) (w : W)
    → is_sha256 (input.calculate_sha256 bytes) ≡ true
    → Returns (store_bytes input c t bytes w)
unfolding store_bytes to_raw_replay_object_key
store_bytes-Returns input c t bytes w h =
    let key : to_raw_replay_object_key (input.calculate_sha256 bytes)
        ≡ ok (codes "raw/sha256/" ++ (input.calculate_sha256 bytes ++ codes ".ocap")) =
      rw h refl in
    (_, ap (λ k. (with_key input c t bytes (input.calculate_sha256 bytes) w k).1) key)

fetched-Returns :
    {W : Type 0} (input : StoreInput W StoreTrouble) (c : ReplayCandidate) (t : Text) (w : W)
    (r : ByteResult)
    → ((bytes : List ℕ) → is_sha256 (input.calculate_sha256 bytes) ≡ true)
    → r ≢ never_bytes
    → Returns (after_fetch input c t (w, as_fetch_result r))
fetched-Returns input c t w (fetched_bytes bytes) h k =
    store_bytes-Returns input c t bytes w (h bytes)
fetched-Returns input c t w (failed_bytes e) h k = (_, refl)
fetched-Returns input c t w never_bytes h k = absurd (k refl)

-- With the byte client, a hash that is 64 hexadecimal digits, and a URL, storing a replay does not throw:
-- whatever the source and S3 answer, there is a result for the summary and the staging.
pub store_raw_replay_returns :
    {W : Type 0} (js : ByteWorld W) (config : SourceConfig) (parse_url : Text → Option Text)
    (hash : List ℕ → Text) (now_iso : W → Text) (storage : S3Sender W) (c : ReplayCandidate)
    (url : Text) (w : W)
    → ((bytes : List ℕ) → is_sha256 (hash bytes) ≡ true)
    → parse_url (or_else c.source.raw_url c.source.url) ≡ some url
    → (r : StoreRawReplayResult) × ((store_raw_replay
          (client_store_input js config parse_url hash now_iso storage)
          c
          w).1
        ≡ ok r)
unfolding store_raw_replay
store_raw_replay_returns js config parse_url hash now_iso storage c url w h k = rw k (
    fetched-Returns (client_store_input js config parse_url hash now_iso storage) c (now_iso w)
      (fetch_bytes js config url none w).0 (fetch_bytes js config url none w).1 h
      (fetch_bytes_settles js config url none w))
