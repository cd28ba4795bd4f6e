-- ===== src/Source/Classify/Kinds.antt =====
-- The kinds that src/source/classify-failure.ts tells apart.
use replays_fetcher.Base.{
  ◌≡◌, ◌↔◌, ◌⊎◌, inl, inr, ℕ, ◌≤◌, ◌<◌, Option, none, some, true, false, length, length-take-le,
  Text, arith, Option-cases,
}
use replays_fetcher.Source.Failure.{rate_limited, transient}
use replays_fetcher.Source.Classify.Defs.{
  ClassifyInput, Thrown, unwrap_cause, read_cause, is_true, is_transient_cause_code, holds_of,
  is_member, transient_error_names, is_server_error, is_client_error, classify_by_status,
  resolve_kind, build_classification, classify_failure,
}

-- The status decides by itself: 4xx or 5xx.
abbrev Decides : Option ℕ → Type 0
Decides o = (s : ℕ) × (o ≡ some s) × (400 ≤ s) × (s ≤ 599)

-- The transport failed in a way that may pass.
abbrev IsTransport : ClassifyInput → Type 0
IsTransport input =
    (holds_of is_transient_cause_code (unwrap_cause input.error).code ≡ true)
    ⊎ (holds_of (λ n. is_member n transient_error_names) (unwrap_cause input.error).name ≡ true)

-- A retry may help: a status says so, or, where none decides, an error of the transport.
abbrev pub MayPass : ClassifyInput → Type 0
MayPass input =
    ((s : ℕ) × (input.http_status ≡ some s) × ((s ≡ 408) ⊎ ((s ≡ 425) ⊎ ((500 ≤ s) × (s ≤ 599)))))
    ⊎ ((¬ Decides input.http_status) × (is_true input.malformed_body ≡ false) × IsTransport input)

transient_status :
    (s : ℕ)
    → (classify_by_status s ≡ some transient) ↔ ((s ≡ 408) ⊎ ((s ≡ 425) ⊎ ((500 ≤ s) × (s ≤ 599))))
unfolding classify_by_status is_server_error is_client_error
transient_status s = ground arith

limited_status : (s : ℕ) → (classify_by_status s ≡ some rate_limited) ↔ (s ≡ 429)
unfolding classify_by_status is_server_error is_client_error
limited_status s = ground arith

silent_status : (s : ℕ) → (classify_by_status s ≡ none) ↔ ((s < 400) ⊎ (599 < s))
unfolding classify_by_status is_server_error is_client_error
silent_status s = ground arith

-- The kind is `rate_limited` exactly for status 429 without a challenge, and `transient` exactly for a
-- challenge or where `MayPass` holds; all else is permanent.
pub classify_failure_kind :
    (input : ClassifyInput)
    → (((classify_failure input).kind ≡ rate_limited)
        ↔ ((is_true input.cf_challenge ≡ false) × (input.http_status ≡ some 429)))
      × (((classify_failure input).kind ≡ transient)
          ↔ ((is_true input.cf_challenge ≡ true) ⊎ MayPass input))
unfolding classify_failure build_classification resolve_kind
classify_failure_kind input = elim (Option-cases input.http_status) [
  | inl e ↦ ground (arith, e)
  | inr (s, e) ↦ ground (arith, e, transient_status s, limited_status s, silent_status s)
]

read_cause-length :
    (e : Option Thrown) (m : Text) → (read_cause e).message ≡ some m → length m ≤ 200
read_cause-length none m h = cc
read_cause-length (some (Thrown.js_error f _)) m h = ground (arith, h, length-take-le 200 f.message)
read_cause-length (some (Thrown.aggregate_error f _ _)) m h =
    ground (arith, h, length-take-le 200 f.message)
read_cause-length (some Thrown.not_an_error) m h = cc

-- However long the messages in the error are, the one that is passed on has at most 200 code units.
pub cause_message_bound :
    (input : ClassifyInput) (m : Text)
    → (classify_failure input).cause_message ≡ some m
    → length m ≤ 200
unfolding classify_failure build_classification unwrap_cause
cause_message_bound input m h = go input.error h
  where
    go : (e : Option Thrown) → (unwrap_cause e).message ≡ some m → length m ≤ 200
    go none h = cc
    go (some e) h = read_cause-length _ m h
