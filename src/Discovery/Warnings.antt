-- ===== src/Discovery/Warnings.antt =====
-- The diagnostics of a page that was read: src/discovery/discover-dedup.ts and
-- src/discovery/discover-candidate.ts.
use replays_fetcher.Base.{
  ◌≡◌, refl, ◌||◌, not, inl, inr, ℕ, suc, Option, none, some, Bool, true, false, List, [], ◌∷◌, All,
  All-append, Text, Result, ok, err, Bool-cases,
}
use replays_fetcher.Types.{ReplayCandidate, DiagnosticSeverity, DiscoveryDiagnostic}
use replays_fetcher.Discovery.Dedup.{
  Stringify, DiscoverPageCandidatesResult, collect_candidate_diagnostics, Registry, register,
  register_all, duplicate_warnings, candidate_warning, has_changed_metadata, entries_of,
}
use replays_fetcher.Discovery.Report.{with_optional_diagnostic_evidence}
use replays_fetcher.Discovery.Extract.{ReplayRowObservation}
use replays_fetcher.Discovery.Candidates.{
  Html, SourceCandidateFixture, to_replay_candidate, with_filename_and_url, is_blank, row_candidate,
}
use replays_fetcher.Discovery.Page.{
  DiscoverThrown, PageClient, PageProgress, no_progress, RowOutcome, row_diagnostic, row_skipped,
  row_found, add_row, next_row, discover_row, discover_rows, row_with_url, after_gate, after_detail,
  outcome_of_candidate, finish_page, finish_rows, fixture_progress, add_fixture,
  discover_page_candidates, collect_fixture_candidates, should_skip_pre_detail,
}

abbrev pub IsWarning : DiscoveryDiagnostic → Type 0
IsWarning d = d.severity ≡ DiagnosticSeverity.warning

abbrev pub Warnings : List DiscoveryDiagnostic → Type 0
Warnings = All IsWarning

-- The pass over the duplicates only warns.
duplicate_warnings-Warnings :
    (s : Stringify) (es : List ReplayCandidate) (n : ℕ) (c : ReplayCandidate)
    → Warnings (duplicate_warnings s es n c)
unfolding candidate_warning
duplicate_warnings-Warnings s [] n c = tt
duplicate_warnings-Warnings s (e ∷ es) n c = elim (Bool-cases (has_changed_metadata s (e ∷ es) c)) [
  | inl h ↦ rw h (refl, (refl, tt))
  | inr h ↦ rw h (refl, tt)
]

register_all-Warnings :
    (s : Stringify) (cs : List ReplayCandidate) (r : Registry)
    → Warnings r.diagnostics
    → Warnings (register_all s cs r).diagnostics
unfolding register_all register
register_all-Warnings s [] r h = h
register_all-Warnings s (c ∷ cs) r h = register_all-Warnings s cs (register s c r) (
    All-append IsWarning r.diagnostics _ h
      (duplicate_warnings-Warnings s (entries_of c.filename r.seen) _ c))

-- What a row, and a page, give is no more than a warning.
abbrev RowWarns : RowOutcome → Type 0
RowWarns (row_diagnostic d) = IsWarning d
RowWarns row_skipped = Unit
RowWarns (row_found c) = Unit

abbrev ResultWarns : {X : Type 0} → Result (DiscoverThrown X) RowOutcome → Type 0
ResultWarns (ok o) = RowWarns o
ResultWarns (err x) = Unit

abbrev pub PageWarns :
    {X : Type 0} → Result (DiscoverThrown X) DiscoverPageCandidatesResult → Type 0
PageWarns (ok r) = Warnings r.diagnostics
PageWarns (err x) = Unit

add_row-Warnings :
    (o : RowOutcome) (p : PageProgress)
    → RowWarns o
    → Warnings p.diagnostics
    → Warnings (add_row o p).diagnostics
unfolding add_row
add_row-Warnings (row_diagnostic d) p w h = All-append IsWarning p.diagnostics _ h (w, tt)
add_row-Warnings row_skipped p w h = h
add_row-Warnings (row_found c) p w h = h

module _ {S X : Type 0} (html : Html) (client : PageClient S X) where
  finish_page-Warnings :
      (s : Stringify) (p : PageProgress)
      → Warnings p.diagnostics
      → Warnings (finish_page html client s p).diagnostics
  unfolding finish_page collect_candidate_diagnostics
  finish_page-Warnings s p h =
      All-append IsWarning p.diagnostics _ h (register_all-Warnings s p.candidates _ tt)

  outcome-RowWarns :
      (row : ReplayRowObservation) (u : Text) (c : Option ReplayCandidate)
      → RowWarns (outcome_of_candidate html client row u c)
  unfolding with_optional_diagnostic_evidence
  outcome-RowWarns row u none = refl
  outcome-RowWarns row u (some c) = tt

  detail-RowWarns :
      (row : ReplayRowObservation) (u : Text) (r : S × Result (DiscoverThrown X) Text)
      → ResultWarns (after_detail html client row u r).1
  detail-RowWarns row u (s, ok t) = outcome-RowWarns row u (row_candidate html row u t)
  detail-RowWarns row u (s, err x) = tt

  gate-RowWarns :
      (row : ReplayRowObservation) (u : Text) (r : S × Result (DiscoverThrown X) Bool)
      → ResultWarns (after_gate html client row u r).1
  gate-RowWarns row u (s, ok true) = tt
  gate-RowWarns row u (s, ok false) =
      detail-RowWarns row u (client.fetch_text u client.detail_read_options s)
  gate-RowWarns row u (s, err x) = tt

  row-RowWarns :
      (page_url : Text) (row : ReplayRowObservation) (u : Option Text) (s : S)
      → ResultWarns (row_with_url html client page_url row u s).1
  row-RowWarns page_url row none s = refl
  row-RowWarns page_url row (some u) s =
      gate-RowWarns row u (should_skip_pre_detail html client row.external_id s)

  abbrev RowsWarn : Result (DiscoverThrown X) PageProgress → Type 0
  RowsWarn (ok p) = Warnings p.diagnostics
  RowsWarn (err x) = Unit

  next_row-RowsWarn :
      (p : PageProgress) (rest : PageProgress → S → S × Result (DiscoverThrown X) PageProgress)
      (r : S × Result (DiscoverThrown X) RowOutcome)
      → ResultWarns r.1
      → Warnings p.diagnostics
      → ((p : PageProgress) (s : S) → Warnings p.diagnostics → RowsWarn (rest p s).1)
      → RowsWarn (next_row html client p rest r).1
  next_row-RowsWarn p rest (s, ok o) w h k = k (add_row o p) s (add_row-Warnings o p w h)
  next_row-RowsWarn p rest (s, err x) w h k = tt

  discover_rows-RowsWarn :
      (page_url : Text) (rows : List ReplayRowObservation) (p : PageProgress) (s : S)
      → Warnings p.diagnostics
      → RowsWarn (discover_rows html client page_url rows p s).1
  unfolding discover_rows discover_row
  discover_rows-RowsWarn page_url [] p s h = h
  discover_rows-RowsWarn page_url (row ∷ rows) p s h =
      next_row-RowsWarn p (discover_rows html client page_url rows)
        (discover_row html client page_url row s) (row-RowWarns page_url row row.url s) h
        (λ p s. discover_rows-RowsWarn page_url rows p s)

  fixture-Warns :
      (c : SourceCandidateFixture) (n : ℕ) (u : Text) (f l : Option Text) (p : PageProgress)
      → Warnings p.diagnostics
      → Warnings (add_fixture html client (with_filename_and_url html c n u f l) p).diagnostics
  fixture-Warns c n u none l p h = (refl, h)
  fixture-Warns c n u (some f) none p h = (refl, h)
  fixture-Warns c n u (some f) (some l) p h =
      elim (Bool-cases (is_blank f || is_blank l || not (html.is_url l))) [
        | inl e ↦ rw e (refl, h)
        | inr e ↦ rw e h
      ]

  fixture_progress-Warnings :
      (n : ℕ) (u : Text) (cs : List SourceCandidateFixture)
      → Warnings (fixture_progress html client n u cs).diagnostics
  unfolding to_replay_candidate
  fixture_progress-Warnings n u [] = tt
  fixture_progress-Warnings n u (c ∷ cs) =
      fixture-Warns c n u c.filename c.url _ (fixture_progress-Warnings (suc n) u cs)

  finish_rows-PageWarns :
      (json : Stringify) (r : S × Result (DiscoverThrown X) PageProgress)
      → RowsWarn r.1
      → PageWarns (finish_rows html client json r).1
  finish_rows-PageWarns json (s, ok p) h = finish_page-Warnings json p h
  finish_rows-PageWarns json (s, err x) h = tt

  -- Whatever page, what it reports is warnings only.
  pub page-PageWarns :
      (json : Stringify) (f : Option (List SourceCandidateFixture)) (page : ℕ)
      (page_url text : Text) (s : S)
      → PageWarns (discover_page_candidates html client json f page page_url text s).1
  unfolding discover_page_candidates collect_fixture_candidates
  page-PageWarns json (some f) page page_url text s =
      finish_page-Warnings json _ (fixture_progress-Warnings 0 page_url f)
  page-PageWarns json none page page_url text s =
      finish_rows-PageWarns json _ (discover_rows-RowsWarn page_url _ no_progress s tt)
