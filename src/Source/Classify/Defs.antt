-- ===== src/Source/Classify/Defs.antt =====
-- src/source/classify-failure.ts. A thrown value is what the code can tell of it.

use replays_fetcher.Base.{
  ℕ, List, Option, none, some, Bool, true, false, ◌&&◌, ◌||◌, ltb, leb, ◌==◌, [], ◌∷◌, take,
  is_some, Text, codes, text_eq, if◌then◌else◌,
}
use replays_fetcher.Source.Failure.{
  FailureKind, permanent, rate_limited, transient, FailureClassification,
}

-- The fields of an `Error` that are read. A `code` that is no string counts as none.
pub record ErrorFields : Type 0 where
  pub name : Text
  pub message : Text
  pub code : Option Text

-- A thrown value: an `Error` with its `cause`, where that is not undefined, an `AggregateError`, which
-- has `errors` besides, or anything that is no `Error`.
mutual
  pub data Thrown : Type 0 where
    js_error : ErrorFields → Cause → Thrown
    aggregate_error : ErrorFields → Cause → ThrownList → Thrown
    not_an_error : Thrown

  pub data Cause : Type 0 where
    undefined_cause : Cause
    caused_by : Thrown → Cause

  pub data ThrownList : Type 0 where
    no_errors : ThrownList
    more_errors : Thrown → ThrownList → ThrownList

pub record ClassifyInput : Type 0 where
  pub cf_challenge : Option Bool
  pub error : Option Thrown
  pub http_status : Option ℕ
  pub malformed_body : Option Bool

abbrev pub no_input : ClassifyInput
no_input = record { cf_challenge = none; error = none; http_status = none; malformed_body = none }

-- `value === true`
abbrev pub is_true : Option Bool → Bool
is_true none = false
is_true (some b) = b

abbrev pub cause_message_max_length : ℕ
cause_message_max_length = 200

pub record UnwrappedCause : Type 0 where
  pub code : Option Text
  pub message : Option Text
  pub name : Option Text

-- `error.cause`, of an `Error`.
abbrev pub cause_of : Thrown → Cause
cause_of (js_error _ cause) = cause
cause_of (aggregate_error _ cause _) = cause
cause_of not_an_error = undefined_cause

-- `inner instanceof Error && readErrorCode(inner) !== undefined`
abbrev pub has_code : Thrown → Bool
has_code (js_error fields _) = is_some fields.code
has_code (aggregate_error fields _ _) = is_some fields.code
has_code not_an_error = false

abbrev pub first_with_code : ThrownList → Option Thrown
first_with_code no_errors = none
first_with_code (more_errors e es) =
    let rest = first_with_code es in if has_code e then some e else rest

abbrev pub first_error : ThrownList → Option Thrown
first_error no_errors = none
first_error (more_errors e es) = some e

abbrev pub or_first : Option Thrown → ThrownList → Option Thrown
or_first none inner = first_error inner
or_first (some e) inner = some e

unfoldable pub select_aggregate_inner : ThrownList → Option Thrown
select_aggregate_inner errors = or_first (first_with_code errors) errors

-- The cause where there is one, else the error itself.
abbrev pub cause_or_self : Cause → Thrown → Thrown
cause_or_self undefined_cause error = error
cause_or_self (caused_by cause) error = cause

-- An aggregate gives way to one of its errors.
abbrev pub unwrap_aggregate : Thrown → Option Thrown
unwrap_aggregate (js_error fields cause) = some (js_error fields cause)
unwrap_aggregate (aggregate_error fields cause errors) = select_aggregate_inner errors
unwrap_aggregate not_an_error = some not_an_error

abbrev pub no_cause : UnwrappedCause
no_cause = record { code = none; message = none; name = none }

abbrev pub read_fields : ErrorFields → UnwrappedCause
read_fields fields = record {
  code = fields.code;
  message = some (take cause_message_max_length fields.message);
  name = some fields.name;
}

-- The fields of the value, where it is an `Error`.
abbrev pub read_cause : Option Thrown → UnwrappedCause
read_cause none = no_cause
read_cause (some (js_error fields _)) = read_fields fields
read_cause (some (aggregate_error fields _ _)) = read_fields fields
read_cause (some not_an_error) = no_cause

unfoldable pub unwrap_cause : Option Thrown → UnwrappedCause
unwrap_cause none = no_cause
unwrap_cause (some error) = read_cause (unwrap_aggregate (cause_or_self (cause_of error) error))

abbrev pub is_member : Text → List Text → Bool
is_member t [] = false
is_member t (u ∷ us) = text_eq t u || is_member t us

-- `text.startsWith(prefix)`, the prefix first.
abbrev pub is_prefix : Text → Text → Bool
is_prefix [] t = true
is_prefix (p ∷ ps) [] = false
is_prefix (p ∷ ps) (c ∷ cs) = p == c && is_prefix ps cs

abbrev pub transient_network_codes : List Text
transient_network_codes =
    codes "ECONNRESET"
    ∷ codes "ECONNREFUSED"
    ∷ codes "ENOTFOUND"
    ∷ codes "EAI_AGAIN"
    ∷ codes "ETIMEDOUT"
    ∷ codes "EPIPE"
    ∷ codes "EHOSTUNREACH"
    ∷ codes "ENETUNREACH"
    ∷ []

abbrev pub transient_tls_codes : List Text
transient_tls_codes = codes "EPROTO" ∷ []

abbrev pub transient_error_names : List Text
transient_error_names = codes "AbortError" ∷ codes "TimeoutError" ∷ []

unfoldable pub is_transient_cause_code : Text → Bool
is_transient_cause_code code =
    is_member code transient_network_codes
    || is_member code transient_tls_codes
    || is_prefix (codes "UND_ERR_") code
    || is_prefix (codes "ERR_TLS_") code
    || is_prefix (codes "CERT_") code

unfoldable pub is_server_error : ℕ → Bool
is_server_error status = leb 500 status && ltb status 600

unfoldable pub is_client_error : ℕ → Bool
is_client_error status = leb 400 status && ltb status 500

unfoldable pub classify_by_status : ℕ → Option FailureKind
classify_by_status status =
    if status == 429
    then some rate_limited
    else if status == 408 || status == 425
    then some transient
    else if is_server_error status
    then some transient
    else if is_client_error status
    then some permanent
    else none

abbrev pub holds_of : (Text → Bool) → Option Text → Bool
holds_of p none = false
holds_of p (some t) = p t

-- What the body and the cause say, where the status says nothing.
abbrev pub kind_by_cause : ClassifyInput → UnwrappedCause → FailureKind
kind_by_cause input cause =
    if is_true input.malformed_body
    then permanent
    else if holds_of is_transient_cause_code cause.code
    then transient
    else if holds_of (λ name. is_member name transient_error_names) cause.name
    then transient
    else permanent

abbrev pub kind_by_status : Option FailureKind → FailureKind → FailureKind
kind_by_status none otherwise = otherwise
kind_by_status (some kind) otherwise = kind

abbrev pub status_kind : Option ℕ → Option FailureKind
status_kind none = none
status_kind (some status) = classify_by_status status

unfoldable pub resolve_kind : ClassifyInput → UnwrappedCause → Bool → FailureKind
resolve_kind input cause cf_challenge =
    if cf_challenge
    then transient
    else kind_by_status (status_kind input.http_status) (kind_by_cause input cause)

unfoldable pub build_classification :
    UnwrappedCause → Bool → ClassifyInput → FailureKind → FailureClassification
build_classification cause cf_challenge input kind = record {
  cause_code = cause.code;
  cause_message = cause.message;
  cf_challenge = cf_challenge;
  http_status = input.http_status;
  kind = kind;
}

unfoldable pub classify_failure : ClassifyInput → FailureClassification
classify_failure input =
    let cause = unwrap_cause input.error in
    let cf_challenge = is_true input.cf_challenge in
    build_classification cause cf_challenge input (resolve_kind input cause cf_challenge)
