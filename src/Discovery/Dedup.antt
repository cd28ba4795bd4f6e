-- ===== src/Discovery/Dedup.antt =====
-- src/discovery/discover-dedup.ts: `collectCandidateDiagnostics`. `JSON.stringify` of a candidate and
-- of its metadata are parameters.
use replays_fetcher.Base.{
  ℕ, Option, none, some, Bool, true, false, ◌&&◌, ◌||◌, not, List, [], ◌∷◌, ◌++◌, Text, codes,
  text_eq, length, if◌then◌else◌,
}
use replays_fetcher.Types.{
  CandidateMetadata, ReplayCandidate, DiagnosticSeverity, DiagnosticCode, DiscoveryDiagnostic,
}

pub record Stringify : Type 0 where
  pub of_candidate : ReplayCandidate → Text
  -- `JSON.stringify(metadata ?? {})`
  pub of_metadata : Option CandidateMetadata → Text

pub record DiscoverPageCandidatesResult : Type 0 where
  pub candidates : List ReplayCandidate
  pub diagnostics : List DiscoveryDiagnostic
  pub skipped_pre_detail : ℕ

-- The locals of the loop. `seen` holds the entries of all the lists of `candidatesByFilename`.
pub record Registry : Type 0 where
  pub output : List ReplayCandidate
  pub emitted : List Text
  pub seen : List ReplayCandidate
  pub diagnostics : List DiscoveryDiagnostic

abbrev pub has_text : Text → List Text → Bool
has_text t [] = false
has_text t (u ∷ us) = let rest = has_text t us in text_eq t u || rest

-- `candidatesByFilename.get(filename) ?? []`
abbrev pub entries_of : Text → List ReplayCandidate → List ReplayCandidate
entries_of filename [] = []
entries_of filename (c ∷ cs) =
    let rest = entries_of filename cs in if text_eq c.filename filename then c ∷ rest else rest

-- `===` on identifiers that may be absent.
abbrev pub same_id : Option Text → Option Text → Bool
same_id none none = true
same_id (some a) (some b) = text_eq a b
same_id _ _ = false

unfoldable pub has_changed_metadata : Stringify → List ReplayCandidate → ReplayCandidate → Bool
has_changed_metadata s [] c = false
has_changed_metadata s (e ∷ es) c =
    let rest = has_changed_metadata s es c in
    same_id e.source.external_id c.source.external_id
      && not (text_eq (s.of_metadata e.metadata) (s.of_metadata c.metadata))
    || rest

-- A warning on a candidate, with the identifier and the page where they are there.
unfoldable pub candidate_warning : DiagnosticCode → Text → ℕ → ReplayCandidate → DiscoveryDiagnostic
candidate_warning code message index c = record {
  attempts = none;
  candidate_index = some index;
  cause_code = none;
  cause_message = none;
  cf_challenge = none;
  code = code;
  external_id = c.source.external_id;
  http_status = none;
  message = message;
  page = c.source.page;
  phase = none;
  severity = DiagnosticSeverity.warning;
  source_url = some c.source.url;
}

-- The diagnostics of a candidate with the entries that its filename has already.
abbrev pub duplicate_warnings :
    Stringify → List ReplayCandidate → ℕ → ReplayCandidate → List DiscoveryDiagnostic
duplicate_warnings s [] index c = []
duplicate_warnings s (e ∷ es) index c =
    candidate_warning DiagnosticCode.duplicate_filename
      (codes "Filename appeared more than once in source discovery") index c
    ∷ (if has_changed_metadata s (e ∷ es) c
        then candidate_warning DiagnosticCode.changed_metadata
            (codes "Filename/source ID metadata changed within one discovery run") index c
          ∷ []
        else [])

-- The body of the loop.
unfoldable pub register : Stringify → ReplayCandidate → Registry → Registry
register s c r =
    let serialized = s.of_candidate c in
    let exists = has_text serialized r.emitted in
    record {
      output = if exists then r.output else r.output ++ c ∷ [];
      emitted = if exists then r.emitted else serialized ∷ r.emitted;
      seen = r.seen ++ c ∷ [];
      diagnostics =
          r.diagnostics ++ duplicate_warnings s (entries_of c.filename r.seen) (length r.output) c;
    }

unfoldable pub register_all : Stringify → List ReplayCandidate → Registry → Registry
register_all s [] r = r
register_all s (c ∷ cs) r = register_all s cs (register s c r)

unfoldable pub collect_candidate_diagnostics :
    Stringify → List ReplayCandidate → DiscoverPageCandidatesResult
collect_candidate_diagnostics s candidates =
    let r =
      register_all s candidates
        (record { output = []; emitted = []; seen = []; diagnostics = [] }) in
    record { candidates = r.output; diagnostics = r.diagnostics; skipped_pre_detail = 0 }
