-- ===== src/Source/Failure.antt =====
-- src/source/classify-failure.ts: the result of the classifier, which the retries read.
use replays_fetcher.Base.{ℕ, Option, Bool, Text}

pub data FailureKind : Type 0 where
  permanent rate_limited transient : FailureKind

pub record FailureClassification : Type 0 where
  pub cause_code : Option Text
  pub cause_message : Option Text
  pub cf_challenge : Bool
  pub http_status : Option ℕ
  pub kind : FailureKind
