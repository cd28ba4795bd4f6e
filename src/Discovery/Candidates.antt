-- ===== src/Discovery/Candidates.antt =====
-- src/discovery/discover-candidate.ts. `URL`, `JSON.parse` and `encodeURIComponent` are parameters, with the
-- patterns of src/discovery/html.ts.
use replays_fetcher.Base.{
  ℕ, Option, none, some, Bool, false, ◌&&◌, ◌||◌, not, ◌==◌, List, [], ◌∷◌, ◌++◌, Text, codes,
  text_eq, trim, is_empty, is_some, if◌then◌else◌,
}
use replays_fetcher.Types.{
  Whole, CandidateMetadata, ReplayCandidate, DiagnosticSeverity, DiagnosticCode,
  DiscoveryDiagnostic,
}
use replays_fetcher.Discovery.Extract.{
  ReplayRowObservation, Patterns, UrlParser, extract_filename_from_detail_html,
}
use replays_fetcher.Discovery.Report.{plain_diagnostic}

-- A candidate of a JSON fixture; `filename`, `url`, `page` and `server_id` are `none` also where the
-- value has another type.
pub record SourceCandidateFixture : Type 0 where
  pub discovered_at : Option Text
  pub external_id : Option Text
  pub filename : Option Text
  pub mission_text : Option Text
  pub page : Option ℕ
  pub raw_url : Option Text
  pub server_id : Option Whole
  pub url : Option Text
  pub world : Option Text

pub record Html : Type 0 where
  pub encode_uri_component : Text → Text
  -- `URL.parse(text) !== null`
  pub is_url : Text → Bool
  -- `new URL(path, base).toString()`, of a path from the root
  pub resolve : Text → Text → Text
  -- `JSON.parse(text)`: `none` where it throws, else its `candidates` where these are an array
  pub parse_json : Text → Option (Option (List SourceCandidateFixture))
  pub patterns : Patterns
  pub urls : UrlParser
  -- `pageUrl` of the page: the URL with the parameter `p`
  pub with_page : Text → ℕ → Text

-- `text.endsWith(".json")`
abbrev pub ends_with_json : Text → Bool
ends_with_json [] = false
ends_with_json (c ∷ t) = text_eq (c ∷ t) (codes ".json") || ends_with_json t

-- `text.replaceAll("%2F", "/")`
abbrev pub restore_slashes : Text → Text
restore_slashes [] = []
restore_slashes (a ∷ []) = a ∷ []
restore_slashes (a ∷ b ∷ []) = a ∷ b ∷ []
restore_slashes (a ∷ b ∷ c ∷ t) =
    let replaced = restore_slashes t in
    let kept = restore_slashes (b ∷ c ∷ t) in
    if a == b'%' && b == b'2' && c == b'F' then b'/' ∷ replaced else a ∷ kept

unfoldable pub to_raw_replay_url : Html → Text → Text → Text
to_raw_replay_url html filename detail_url =
    let raw_filename = if ends_with_json filename then filename else filename ++ codes ".json" in
    restore_slashes
      (html.resolve (codes "/data/" ++ html.encode_uri_component raw_filename) detail_url)

abbrev pub starts_like_json : Text → Bool
starts_like_json [] = false
starts_like_json (c ∷ _) = c == b'{' || c == b'['

unfoldable pub looks_like_json : Text → Bool
looks_like_json text = starts_like_json (trim text)

abbrev pub parsed_candidates :
    Option (Option (List SourceCandidateFixture)) → Option (List SourceCandidateFixture)
parsed_candidates none = none
parsed_candidates (some candidates) = candidates

unfoldable pub parse_source_fixture : Html → Text → Option (List SourceCandidateFixture)
parse_source_fixture html text =
    if looks_like_json text then parsed_candidates (html.parse_json text) else none

-- `Object.keys(metadata).length > 0`
abbrev pub has_metadata : CandidateMetadata → Bool
has_metadata m =
    is_some m.discovered_at || is_some m.mission_text || is_some m.server_id || is_some m.world

abbrev pub metadata_of : CandidateMetadata → Option CandidateMetadata
metadata_of m = if has_metadata m then some m else none

-- A candidate, or the diagnostic for it.
pub data CandidateFixtureResult : Type 0 where
  fixture_candidate : ReplayCandidate → CandidateFixtureResult
  fixture_diagnostic : DiscoveryDiagnostic → CandidateFixtureResult

abbrev pub malformed_fixture : ℕ → Text → CandidateFixtureResult
malformed_fixture index page_url =
    fixture_diagnostic
      (record (plain_diagnostic DiagnosticCode.malformed_row
        (codes "Source fixture candidate did not include filename and URL")
        DiagnosticSeverity.warning page_url) { candidate_index = some index })

-- `text.trim().length === 0`
abbrev pub is_blank : Text → Bool
is_blank t = is_empty (trim t)

abbrev pub to_candidate : SourceCandidateFixture → Text → Text → ReplayCandidate
to_candidate c filename url = record {
  filename = filename;
  metadata = metadata_of record {
    discovered_at = c.discovered_at;
    mission_text = c.mission_text;
    server_id = c.server_id;
    world = c.world;
  };
  source = record { external_id = c.external_id; page = c.page; raw_url = c.raw_url; url = url };
}

abbrev pub with_filename_and_url :
    Html → SourceCandidateFixture → ℕ → Text → Option Text → Option Text → CandidateFixtureResult
with_filename_and_url html c index page_url (some filename) (some url) =
    if is_blank filename || is_blank url || not (html.is_url url)
    then malformed_fixture index page_url
    else fixture_candidate (to_candidate c filename url)
with_filename_and_url html c index page_url _ _ = malformed_fixture index page_url

unfoldable pub to_replay_candidate :
    Html → SourceCandidateFixture → ℕ → Text → CandidateFixtureResult
to_replay_candidate html c index page_url =
    with_filename_and_url html c index page_url c.filename c.url

unfoldable pub to_replay_candidate_from_html_row :
    (filename raw_url : Text) → ReplayRowObservation → (source_url : Text) → ReplayCandidate
to_replay_candidate_from_html_row filename raw_url row source_url = record {
  filename = filename;
  metadata = metadata_of row.metadata;
  source = record {
    external_id = row.external_id;
    page = some row.page;
    raw_url = some raw_url;
    url = source_url;
  };
}

-- The candidate of a row, from the text of its detail page.
unfoldable pub row_candidate : Html → ReplayRowObservation → Text → Text → Option ReplayCandidate
row_candidate html row source_url detail_html =
    elim (extract_filename_from_detail_html html.patterns detail_html) [
      | none ↦ none
      | some filename ↦ some (
          to_replay_candidate_from_html_row filename (to_raw_replay_url html filename source_url)
            row source_url)
    ]
