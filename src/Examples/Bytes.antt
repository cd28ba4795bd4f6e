-- ===== src/Examples/Bytes.antt =====
-- A source of bytes that times out.
use replays_fetcher.Base.{◌≡◌, refl, ℕ, ◌+◌, none, some, List, [], Text, codes, ok, err}
use replays_fetcher.Types.{StoreRawReplayResult}
use replays_fetcher.Config.{SourceTransport, SourceConfig}
use replays_fetcher.ByteClient.{ByteWorld}
use replays_fetcher.Source.Classify.{js_error, undefined_cause}
use replays_fetcher.Storage.{S3Sender, other_error, store_raw_replay}
use replays_fetcher.Storage.Bytes.{client_store_input, store_raw_replay_returns}
use replays_fetcher.Examples.Page.{candidate_of}

abbrev byte_world : ByteWorld ℕ
byte_world = record {
  fetch = λ url n. (
    n + 1,
    err (
        js_error record { name = codes "TimeoutError"; message = codes "timed out"; code = none }
          undefined_cause),
  );
  exec_file = λ file arguments timeout n. (n, ok []);
  date_parse = λ t. none;
  to_base64 = λ t. t;
  from_base64 = λ t. t;
  defaults = record { now = λ n. n; random = λ round n. n; sleep = λ ms n. (n, none) };
}

abbrev config : SourceConfig
config = record {
  source_max_pages = none;
  source_concurrency = 8;
  source_request_spacing_ms = 250;
  source_url = codes "https://sg.zone/replays";
  source_retry_attempts = 3;
  watch_interval_ms = 0;
  watch_heartbeat_path = codes "/tmp/heartbeat";
  source_ssh_command = codes "curl";
  source_ssh_host = none;
  source_timeout_ms = 1000;
  source_transport = SourceTransport.direct;
}

abbrev no_storage : S3Sender ℕ
no_storage = record {
  bucket = codes "replays";
  head = λ key n. (n, err other_error);
  put = λ object n. (n, err other_error);
}

abbrev sha256_of : List ℕ → Text
sha256_of bytes = codes "e3b0c44298fc1c149afbf4c8996fb92427ae41e4649b934ca495991b7852b855"

store_raw_replay_returns_example :
    (r : StoreRawReplayResult) × ((store_raw_replay
        (client_store_input byte_world config some sha256_of
          (λ n. codes "2026-05-11T20:00:00.000Z")
          no_storage)
        (candidate_of (codes "a"))
        0).1
      ≡ ok r)
store_raw_replay_returns_example =
    store_raw_replay_returns byte_world config some sha256_of
      (λ n. codes "2026-05-11T20:00:00.000Z") no_storage (candidate_of (codes "a"))
      (candidate_of (codes "a")).source.url 0 (λ bytes. refl) refl
