-- ===== src/Types/Discovery.antt =====
-- src/types/replay-candidate.ts, src/types/discovery-diagnostic.ts and src/discovery/types.ts.
use replays_fetcher.Base.{ℕ, Option, Bool, List, Text}
use replays_fetcher.Source.Retry.{SourceReadPhase}

-- A whole number: itself, or the number that it is the negative of.
pub data Whole : Type 0 where
  non_negative negative : ℕ → Whole

pub record CandidateMetadata : Type 0 where
  pub discovered_at : Option Text
  pub mission_text : Option Text
  pub server_id : Option Whole
  pub world : Option Text

pub record CandidateSource : Type 0 where
  pub external_id : Option Text
  pub page : Option ℕ
  pub raw_url : Option Text
  pub url : Text

-- `filename` is `identity.filename`, the one field of `identity`.
pub record ReplayCandidate : Type 0 where
  pub filename : Text
  pub metadata : Option CandidateMetadata
  pub source : CandidateSource

pub data DiagnosticSeverity : Type 0 where
  info warning error : DiagnosticSeverity

pub data DiagnosticCode : Type 0 where
  malformed_row missing_filename duplicate_filename changed_metadata : DiagnosticCode
  source_unavailable source_transient rate_limited : DiagnosticCode

pub record DiscoveryDiagnostic : Type 0 where
  pub attempts : Option ℕ
  pub candidate_index : Option ℕ
  pub cause_code : Option Text
  pub cause_message : Option Text
  pub cf_challenge : Option Bool
  pub code : DiagnosticCode
  pub external_id : Option Text
  pub http_status : Option ℕ
  pub message : Text
  pub page : Option ℕ
  pub phase : Option SourceReadPhase
  pub severity : DiagnosticSeverity
  pub source_url : Option Text

pub record DiscoveryCounts : Type 0 where
  pub candidates : ℕ
  pub diagnostics : ℕ
  pub discovered : ℕ
  pub skipped_pre_detail : ℕ

-- `mode` is always "dry-run" and left out.
pub record DiscoveryReport : Type 0 where
  pub candidates : List ReplayCandidate
  pub counts : DiscoveryCounts
  pub diagnostics : List DiscoveryDiagnostic
  pub generated_at : Text
  pub max_pages : Option ℕ
  pub ok : Bool
  pub source_url : Text
