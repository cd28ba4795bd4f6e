-- ===== src/ByteClient/Fetch.antt =====
-- src/storage/replay-byte-client.ts. The network, the `ssh` process and base64 are parameters, over the
-- state `W` of what lies outside. The timeouts and the caller's signal abort what these parameters do,
-- which then reject.
use replays_fetcher.Base.{
  ℕ, Option, none, some, List, [], ◌∷◌, ◌++◌, Text, codes, Result, ok, err, if◌then◌else◌,
}
use replays_fetcher.Source.Classify.{Thrown}
use replays_fetcher.Source.Retry.{ReadResult, RetryResult, RetryRun, with_retry}
use replays_fetcher.Client.{ResponseHead, RetryDefaults}
use replays_fetcher.Config.{SourceTransport, SourceConfig}
use replays_fetcher.ByteClient.Errors.{
  ReplayByteFetchError, ByteFetchOptions, ByteReadError, byte_error, other_byte_error,
  fetch_failed_code, build_direct_byte_http_error, direct_byte_retry_after, classify_direct_byte,
  classify_ssh_byte, byte_retry_options, to_direct_byte_error, to_ssh_byte_error,
}

-- A response, with the reading of its bytes.
pub record ByteResponse (W : Type 0) : Type 0 where
  pub head : ResponseHead
  pub array_buffer : W → W × Result Thrown (List ℕ)

pub record ByteWorld (W : Type 0) : Type 0 where
  pub fetch : Text → W → W × Result Thrown (ByteResponse W)
  -- `execFile(file, arguments, { timeout })`, and the standard output
  pub exec_file : Text → List Text → ℕ → W → W × Result Thrown Text
  pub date_parse : Text → Option ℕ
  pub to_base64 : Text → Text
  pub from_base64 : Text → List ℕ
  -- the reason of an abort is thrown as it is
  pub defaults : RetryDefaults W ByteReadError

-- How the promise of `fetchBytes` settles; the last is the model's own, for fuel that is used up.
pub data ByteResult : Type 0 where
  fetched_bytes : List ℕ → ByteResult
  failed_bytes : ReplayByteFetchError → ByteResult
  never_bytes : ByteResult

-- The `catch` of a run of the retries.
abbrev pub caught_bytes :
    (ByteReadError → ReplayByteFetchError)
    → RetryResult (List ℕ) ByteReadError ByteReadError
    → ByteResult
caught_bytes f (RetryResult.returned b) = fetched_bytes b
caught_bytes f (RetryResult.thrown e) = failed_bytes (f e)
caught_bytes f (RetryResult.aborted e) = failed_bytes (f e)
caught_bytes f RetryResult.out_of_fuel = never_bytes

abbrev pub with_catch :
    {W : Type 0}
    → (ByteReadError → ReplayByteFetchError)
    → RetryRun W (List ℕ) ByteReadError ByteReadError
    → W × ByteResult
with_catch f run = (run.world, caught_bytes f run.result)

module _ {W : Type 0} (js : ByteWorld W) (config : SourceConfig) where
  abbrev pub after_buffer : W × Result Thrown (List ℕ) → W × ReadResult (List ℕ) ByteReadError
  after_buffer (w, ok bytes) = (w, ReadResult.resolved bytes)
  after_buffer (w, err e) = (w, ReadResult.rejected (other_byte_error e))

  abbrev pub after_byte_response :
      Text → W × Result Thrown (ByteResponse W) → W × ReadResult (List ℕ) ByteReadError
  after_byte_response url (w, ok response) =
      if response.head.is_ok
      then after_buffer (response.array_buffer w)
      else (w, ReadResult.rejected (byte_error (build_direct_byte_http_error response.head url)))
  after_byte_response url (w, err e) = (w, ReadResult.rejected (other_byte_error e))

  -- One read of the direct client.
  unfoldable pub direct_byte_read : Text → W → W × ReadResult (List ℕ) ByteReadError
  direct_byte_read url w = after_byte_response url (js.fetch url w)

  unfoldable pub direct_fetch_bytes :
      Text → Option (ByteFetchOptions W ByteReadError) → W → W × ByteResult
  direct_fetch_bytes url options w = with_catch (to_direct_byte_error options url) (
      with_retry
        (byte_retry_options js.defaults classify_direct_byte (direct_byte_read url)
          (some (direct_byte_retry_after js.date_parse)) options)
        w)

  abbrev pub after_byte_exec : W × Result Thrown Text → W × ReadResult (List ℕ) ByteReadError
  after_byte_exec (w, ok stdout) = (w, ReadResult.resolved (js.from_base64 stdout))
  after_byte_exec (w, err e) = (w, ReadResult.rejected (other_byte_error e))

  abbrev pub ssh_byte_arguments : Text → Text → List Text
  ssh_byte_arguments host url =
      host
      ∷ codes "sh"
      ∷ codes "-c"
      ∷ (config.source_ssh_command
          ++ codes " -- "
          ++ 34 ∷ codes "$(printf %s "
          ++ 34 ∷ codes "$1"
          ++ 34 ∷ codes " | base64 -d)"
          ++ 34 ∷ codes " | base64")
      ∷ codes "replays-fetcher-byte-source"
      ∷ js.to_base64 url
      ∷ []

  -- One read of the SSH client.
  unfoldable pub ssh_byte_read : Text → Text → W → W × ReadResult (List ℕ) ByteReadError
  ssh_byte_read host url w =
      after_byte_exec
        (js.exec_file (codes "ssh") (ssh_byte_arguments host url) config.source_timeout_ms w)

  abbrev pub byte_host_missing : ReplayByteFetchError
  byte_host_missing = record {
    code = fetch_failed_code;
    message = codes "SSH source host is not configured";
    cause = none;
    details = none;
  }

  abbrev pub ssh_bytes_from :
      Option Text → Text → Option (ByteFetchOptions W ByteReadError) → W → W × ByteResult
  ssh_bytes_from none url options w = (w, failed_bytes byte_host_missing)
  ssh_bytes_from (some host) url options w = with_catch (to_ssh_byte_error options url) (
      with_retry
        (byte_retry_options js.defaults classify_ssh_byte (ssh_byte_read host url) none options) w)

  abbrev pub fetch_bytes_by :
      SourceTransport → Text → Option (ByteFetchOptions W ByteReadError) → W → W × ByteResult
  fetch_bytes_by SourceTransport.direct = direct_fetch_bytes
  fetch_bytes_by SourceTransport.ssh = ssh_bytes_from config.source_ssh_host

  -- `createReplayByteClient(config).fetchBytes`
  unfoldable pub fetch_bytes : Text → Option (ByteFetchOptions W ByteReadError) → W → W × ByteResult
  fetch_bytes = fetch_bytes_by config.source_transport
