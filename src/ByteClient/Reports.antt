-- ===== src/ByteClient/Reports.antt =====
-- What the errors of src/storage/replay-byte-client.ts report.
use mathlib.Core.Path.{subst}
use replays_fetcher.Base.{◌≡◌, ◌≢◌, refl, ◌⊎◌, inl, inr, ℕ, Option, none, some, List, Text, arith}
use replays_fetcher.Source.Retry.{RetryResult}
use replays_fetcher.Source.Retry.Bounds.{with_retry_bounds}
use replays_fetcher.Client.{FailureDetails}
use replays_fetcher.Config.{SourceTransport, SourceConfig}
use replays_fetcher.ByteClient.Errors.{
  ReplayByteFetchError, ByteFetchOptions, ByteReadError, byte_error, other_byte_error, bytes_phase,
  to_byte_code, build_byte_fetch_error, classify_direct_byte, classify_ssh_byte, total_byte_tries,
  byte_option, to_direct_byte_error, to_ssh_byte_error,
}
use replays_fetcher.ByteClient.Fetch.{
  ByteWorld, failed_bytes, never_bytes, caught_bytes, direct_fetch_bytes, byte_host_missing,
  ssh_bytes_from, fetch_bytes_by, fetch_bytes,
}

-- An error with the details of the call: the tries allowed, the page, the phase and the URL.
abbrev pub ByteReports :
    {W : Type 0} → Option (ByteFetchOptions W ByteReadError) → Text → ReplayByteFetchError → Type 0
ByteReports options url e =
    (d : FailureDetails) × (e.details ≡ some d)
    × (d.attempts ≡ some (total_byte_tries options))
    × (d.page ≡ byte_option (λ o. o.page) options)
    × (d.phase ≡ some bytes_phase)
    × (d.url ≡ some url)

failed_bytes-inj : {x y : ReplayByteFetchError} → failed_bytes x ≡ failed_bytes y → x ≡ y
failed_bytes-inj h = ground (arith, h)

-- What holds of an error that is made by the `catch` holds of the error that comes out.
caught_bytes-failed :
    (f : ByteReadError → ReplayByteFetchError) (P : ReplayByteFetchError → Type 0)
    (r : RetryResult (List ℕ) ByteReadError ByteReadError)
    → ((e : ByteReadError) → P (f e))
    → (e : ReplayByteFetchError) → caught_bytes f r ≡ failed_bytes e
    → P e
caught_bytes-failed f P (RetryResult.returned t) h e k = cc
caught_bytes-failed f P (RetryResult.thrown x) h e k = subst P (failed_bytes-inj k) (h x)
caught_bytes-failed f P (RetryResult.aborted x) h e k = subst P (failed_bytes-inj k) (h x)
caught_bytes-failed f P RetryResult.out_of_fuel h e k = cc

caught_bytes-never :
    (f : ByteReadError → ReplayByteFetchError)
    (r : RetryResult (List ℕ) ByteReadError ByteReadError)
    → r ≢ RetryResult.out_of_fuel
    → caught_bytes f r ≢ never_bytes
caught_bytes-never f (RetryResult.returned t) h = cc
caught_bytes-never f (RetryResult.thrown x) h = cc
caught_bytes-never f (RetryResult.aborted x) h = cc
caught_bytes-never f RetryResult.out_of_fuel h = absurd (h refl)

module _ {W : Type 0} (options : Option (ByteFetchOptions W ByteReadError)) (url : Text) where
  direct-ByteReports :
      (e : ByteReadError) → ByteReports options url (to_direct_byte_error options url e)
  unfolding to_direct_byte_error build_byte_fetch_error
  direct-ByteReports (byte_error e) = (_, refl, refl, refl, refl, refl)
  direct-ByteReports (other_byte_error e) = (_, refl, refl, refl, refl, refl)

  ssh-ByteReports : (e : ByteReadError) → ByteReports options url (to_ssh_byte_error options url e)
  unfolding to_ssh_byte_error build_byte_fetch_error
  ssh-ByteReports e = (_, refl, refl, refl, refl, refl)

module _ {W : Type 0} (js : ByteWorld W) (config : SourceConfig) (url : Text)
    (options : Option (ByteFetchOptions W ByteReadError)) (w : W) where
  ssh-settles : (host : Option Text) → (ssh_bytes_from js config host url options w).1 ≢ never_bytes
  ssh-settles none = cc
  ssh-settles (some host) = caught_bytes-never _ _ (with_retry_bounds _ w).0

  by-settles : (t : SourceTransport) → (fetch_bytes_by js config t url options w).1 ≢ never_bytes
  unfolding direct_fetch_bytes
  by-settles SourceTransport.direct = caught_bytes-never _ _ (with_retry_bounds _ w).0
  by-settles SourceTransport.ssh = ssh-settles config.source_ssh_host

  -- `fetchBytes` settles, with either transport.
  pub fetch_bytes_settles : (fetch_bytes js config url options w).1 ≢ never_bytes
  unfolding fetch_bytes
  fetch_bytes_settles = by-settles config.source_transport

  -- An SSH client without a host throws an error that reports nothing.
  abbrev pub NoByteHost : SourceTransport → Option Text → ReplayByteFetchError → Type 0
  NoByteHost t host e =
      (t ≡ SourceTransport.ssh) × (host ≡ none) × (byte_host_missing js config ≡ e)

  ssh-failed :
      (host : Option Text) (e : ReplayByteFetchError)
      → (ssh_bytes_from js config host url options w).1 ≡ failed_bytes e
      → NoByteHost SourceTransport.ssh host e ⊎ ByteReports options url e
  ssh-failed none e h = inl (refl, refl, failed_bytes-inj h)
  ssh-failed (some host) e h =
      inr (caught_bytes-failed _ (ByteReports options url) _ (ssh-ByteReports options url) e h)

  by-failed :
      (t : SourceTransport) (e : ReplayByteFetchError)
      → (fetch_bytes_by js config t url options w).1 ≡ failed_bytes e
      → NoByteHost t config.source_ssh_host e ⊎ ByteReports options url e
  unfolding direct_fetch_bytes
  by-failed SourceTransport.direct e h =
      inr (caught_bytes-failed _ (ByteReports options url) _ (direct-ByteReports options url) e h)
  by-failed SourceTransport.ssh e h = ssh-failed config.source_ssh_host e h

  -- Whatever `fetchBytes` throws reports the tries allowed, the page, the phase and the URL of the call,
  -- except that an SSH client without a host throws an error without details.
  pub fetch_bytes_failed :
      (e : ReplayByteFetchError)
      → (fetch_bytes js config url options w).1 ≡ failed_bytes e
      → NoByteHost config.source_transport config.source_ssh_host e ⊎ ByteReports options url e
  unfolding fetch_bytes
  fetch_bytes_failed e h = by-failed config.source_transport e h

-- The error of a read of bytes tells a rate limit exactly where the retries took it for one, with either
-- transport.
pub byte_error-code :
    {W R : Type 0} (options : Option (ByteFetchOptions W R)) (url : Text) (e : ByteReadError)
    → ((to_direct_byte_error options url e).code ≡ to_byte_code (classify_direct_byte e).kind)
      × ((to_ssh_byte_error options url e).code ≡ to_byte_code (classify_ssh_byte e).kind)
unfolding to_direct_byte_error to_ssh_byte_error build_byte_fetch_error classify_direct_byte
    classify_ssh_byte
byte_error-code options url (byte_error e) = (refl, refl)
byte_error-code options url (other_byte_error e) = (refl, refl)
