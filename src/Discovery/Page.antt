-- ===== src/Discovery/Page.antt =====
-- `discoverPageCandidates` of src/discovery/discover-dedup.ts and `discoverRowCandidate` of
-- src/discovery/discover-candidate.ts, over the state `S` of what lies outside; `X` is what else than a
-- `SourceFetchError` may be thrown.
use replays_fetcher.Base.{
  ℕ, suc, Option, none, some, Bool, true, false, not, List, [], ◌∷◌, ◌++◌, Text, codes, Result, ok,
  err, if◌then◌else◌, trim, is_empty,
}
use replays_fetcher.Types.{ReplayCandidate, DiagnosticSeverity, DiagnosticCode, DiscoveryDiagnostic}
use replays_fetcher.Client.{SourceFetchError}
use replays_fetcher.Discovery.Dedup.{
  Stringify, DiscoverPageCandidatesResult, collect_candidate_diagnostics,
}
use replays_fetcher.Discovery.Report.{
  ReadOptions, plain_diagnostic, with_optional_diagnostic_evidence,
}
use replays_fetcher.Discovery.Extract.{ReplayRowObservation, extract_replay_rows}
use replays_fetcher.Discovery.Candidates.{
  SourceCandidateFixture, Html, CandidateFixtureResult, fixture_candidate, fixture_diagnostic,
  to_replay_candidate, row_candidate,
}

pub data DiscoverThrown (X : Type 0) : Type 0 where
  source_fetch_error : SourceFetchError → DiscoverThrown X
  other_thrown : X → DiscoverThrown X

-- The functions that a page's discovery is given.
pub record PageClient (S X : Type 0) : Type 0 where
  pub fetch_text : Text → ReadOptions → S → S × Result (DiscoverThrown X) Text
  pub exists_by_source_identity : Option (Text → Text → S → S × Result (DiscoverThrown X) Bool)
  pub source_system : Option Text
  pub detail_read_options : ReadOptions

-- What becomes of a row.
pub data RowOutcome : Type 0 where
  row_diagnostic : DiscoveryDiagnostic → RowOutcome
  row_skipped : RowOutcome
  row_found : ReplayCandidate → RowOutcome

-- The locals of the loop.
pub record PageProgress : Type 0 where
  pub candidates : List ReplayCandidate
  pub diagnostics : List DiscoveryDiagnostic
  pub skipped_pre_detail : ℕ

abbrev pub no_progress : PageProgress
no_progress = record { candidates = []; diagnostics = []; skipped_pre_detail = 0 }

unfoldable pub is_trustworthy_id : Text → Bool
is_trustworthy_id id = not (is_empty (trim id))

abbrev pub missing_link : ReplayRowObservation → Text → DiscoveryDiagnostic
missing_link row page_url =
    record (plain_diagnostic DiagnosticCode.malformed_row
      (codes "Source row did not include a replay link") DiagnosticSeverity.warning page_url) {
        page = some row.page;
      }

abbrev pub missing_filename : ReplayRowObservation → Text → DiscoveryDiagnostic
missing_filename row row_url =
    with_optional_diagnostic_evidence
      (plain_diagnostic DiagnosticCode.missing_filename
        (codes "Replay detail page did not include a filename") DiagnosticSeverity.warning row_url)
      row.external_id (some row.page)

unfoldable pub add_row : RowOutcome → PageProgress → PageProgress
add_row (row_diagnostic d) p = record p { diagnostics = p.diagnostics ++ d ∷ [] }
add_row row_skipped p = record p { skipped_pre_detail = suc p.skipped_pre_detail }
add_row (row_found c) p = record p { candidates = p.candidates ++ c ∷ [] }

module _ {S X : Type 0} (html : Html) (client : PageClient S X) where
  -- The gate: the existence check, where there is one, a source system and a trustworthy identifier.
  abbrev pub ask_gate :
      Option (Text → Text → S → S × Result (DiscoverThrown X) Bool)
      → Option Text
      → Option Text
      → S
      → S × Result (DiscoverThrown X) Bool
  ask_gate (some exists) (some system) (some id) s =
      if is_trustworthy_id id then exists system id s else (s, ok false)
  ask_gate _ _ _ s = (s, ok false)

  unfoldable pub should_skip_pre_detail : Option Text → S → S × Result (DiscoverThrown X) Bool
  should_skip_pre_detail external_id =
      ask_gate client.exists_by_source_identity client.source_system external_id

  abbrev pub outcome_of_candidate :
      ReplayRowObservation → Text → Option ReplayCandidate → RowOutcome
  outcome_of_candidate row row_url none = row_diagnostic (missing_filename row row_url)
  outcome_of_candidate row row_url (some c) = row_found c

  abbrev pub after_detail :
      ReplayRowObservation
      → Text
      → S × Result (DiscoverThrown X) Text
      → S × Result (DiscoverThrown X) RowOutcome
  after_detail row row_url (s, ok detail_html) =
      (s, ok (outcome_of_candidate row row_url (row_candidate html row row_url detail_html)))
  after_detail row row_url (s, err e) = (s, err e)

  abbrev pub after_gate :
      ReplayRowObservation
      → Text
      → S × Result (DiscoverThrown X) Bool
      → S × Result (DiscoverThrown X) RowOutcome
  after_gate row row_url (s, ok true) = (s, ok row_skipped)
  after_gate row row_url (s, ok false) =
      after_detail row row_url (client.fetch_text row_url client.detail_read_options s)
  after_gate row row_url (s, err e) = (s, err e)

  abbrev pub row_with_url :
      Text → ReplayRowObservation → Option Text → S → S × Result (DiscoverThrown X) RowOutcome
  row_with_url page_url row none s = (s, ok (row_diagnostic (missing_link row page_url)))
  row_with_url page_url row (some row_url) s =
      after_gate row row_url (should_skip_pre_detail row.external_id s)

  -- The body of the loop over the rows.
  unfoldable pub discover_row :
      Text → ReplayRowObservation → S → S × Result (DiscoverThrown X) RowOutcome
  discover_row page_url row = row_with_url page_url row row.url

  abbrev pub next_row :
      PageProgress
      → (PageProgress → S → S × Result (DiscoverThrown X) PageProgress)
      → S × Result (DiscoverThrown X) RowOutcome
      → S × Result (DiscoverThrown X) PageProgress
  next_row p rest (s, ok outcome) = rest (add_row outcome p) s
  next_row p rest (s, err e) = (s, err e)

  unfoldable pub discover_rows :
      Text
      → List ReplayRowObservation
      → PageProgress
      → S
      → S × Result (DiscoverThrown X) PageProgress
  discover_rows page_url [] p s = (s, ok p)
  discover_rows page_url (row ∷ rows) p s =
      next_row p (discover_rows page_url rows) (discover_row page_url row s)

  abbrev pub add_fixture : CandidateFixtureResult → PageProgress → PageProgress
  add_fixture (fixture_candidate c) p = record p { candidates = c ∷ p.candidates }
  add_fixture (fixture_diagnostic d) p = record p { diagnostics = d ∷ p.diagnostics }

  -- The candidates and the diagnostics of a fixture, from an index on.
  abbrev pub fixture_progress : ℕ → Text → List SourceCandidateFixture → PageProgress
  fixture_progress index page_url [] = no_progress
  fixture_progress index page_url (c ∷ cs) =
      add_fixture (to_replay_candidate html c index page_url)
        (fixture_progress (suc index) page_url cs)

  -- The pass over the duplicates, after the diagnostics of the rows.
  unfoldable pub finish_page : Stringify → PageProgress → DiscoverPageCandidatesResult
  finish_page json p =
      let unique = collect_candidate_diagnostics json p.candidates in
      record {
        candidates = unique.candidates;
        diagnostics = p.diagnostics ++ unique.diagnostics;
        skipped_pre_detail = p.skipped_pre_detail;
      }

  unfoldable pub collect_fixture_candidates :
      Stringify → List SourceCandidateFixture → Text → DiscoverPageCandidatesResult
  collect_fixture_candidates json fixture page_url =
      finish_page json (fixture_progress 0 page_url fixture)

  abbrev pub finish_rows :
      Stringify
      → S × Result (DiscoverThrown X) PageProgress
      → S × Result (DiscoverThrown X) DiscoverPageCandidatesResult
  finish_rows json (s, ok p) = (s, ok (finish_page json p))
  finish_rows json (s, err e) = (s, err e)

  unfoldable pub discover_page_candidates :
      Stringify
      → Option (List SourceCandidateFixture)
      → ℕ
      → (page_url source_text : Text) → S
      → S × Result (DiscoverThrown X) DiscoverPageCandidatesResult
  discover_page_candidates json (some fixture) page page_url source_text s =
      (s, ok (collect_fixture_candidates json fixture page_url))
  discover_page_candidates json none page page_url source_text s = finish_rows json (
      discover_rows page_url (extract_replay_rows html.patterns html.urls source_text page page_url)
        no_progress s)
