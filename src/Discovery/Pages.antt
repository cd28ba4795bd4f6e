-- ===== src/Discovery/Pages.antt =====
-- `discoverReplaysDryRun` of src/discovery/discover.ts, over the state `W` of what lies outside.
use replays_fetcher.Base.{
  ℕ, zero, suc, ◌+◌, Option, none, some, Bool, true, false, ◌&&◌, ltb, ◌==◌, [], ◌∷◌, ◌++◌, Text,
  Result, ok, err, or_else, if◌then◌else◌,
}
use replays_fetcher.Types.{DiscoveryReport}
use replays_fetcher.Source.Retry.{SourceReadPhase}
use replays_fetcher.Discovery.Dedup.{Stringify, DiscoverPageCandidatesResult}
use replays_fetcher.Discovery.Report.{
  DiscoverOptions, ReadOptions, build_read_options, build_report, build_source_failure_diagnostic,
}
use replays_fetcher.Discovery.Candidates.{Html, parse_source_fixture}
use replays_fetcher.Discovery.Page.{
  DiscoverThrown, source_fetch_error, other_thrown, PageClient, PageProgress, no_progress,
  discover_page_candidates,
}

-- The functions among the options.
pub record DiscoverClient (W X : Type 0) : Type 0 where
  pub fetch_text : Text → ReadOptions → W → W × Result (DiscoverThrown X) Text
  pub exists_by_source_identity : Option (Text → Text → W → W × Result (DiscoverThrown X) Bool)
  pub sleep : ℕ → W → W

-- The state with the `requestCount` of the paced client.
abbrev pub Paced : Type 0 → Type 0
Paced W = W × ℕ

-- How the loop over the pages ends: what it has, and the page and the error where one was thrown.
pub record PagesRun (W X : Type 0) : Type 0 where
  pub progress : PageProgress
  pub thrown : Option (ℕ × DiscoverThrown X)
  pub world : W

module _ {W X : Type 0} (html : Html) (json : Stringify) (options : DiscoverOptions)
    (client : DiscoverClient W X) where
  abbrev pub request_delay : ℕ
  request_delay = or_else options.request_delay_ms 0

  -- The pause before every request but the first.
  unfoldable pub pace : Paced W → W
  pace (w, request_count) =
      if ltb 0 request_count && ltb 0 request_delay then client.sleep request_delay w else w

  abbrev pub with_count : {A : Type 0} → ℕ → W × A → Paced W × A
  with_count n (w, a) = ((w, n), a)

  unfoldable pub paced_fetch_text :
      Text → ReadOptions → Paced W → Paced W × Result (DiscoverThrown X) Text
  paced_fetch_text url read_options s =
      with_count (s.1 + 1) (client.fetch_text url read_options (pace s))

  abbrev pub paced_exists :
      Option (Text → Text → W → W × Result (DiscoverThrown X) Bool)
      → Option (Text → Text → Paced W → Paced W × Result (DiscoverThrown X) Bool)
  paced_exists none = none
  paced_exists (some exists) = some (λ system id s. with_count s.1 (exists system id s.0))

  abbrev pub page_client : ℕ → PageClient (Paced W) X
  page_client page = record {
    fetch_text = paced_fetch_text;
    exists_by_source_identity = paced_exists client.exists_by_source_identity;
    source_system = options.source_system;
    detail_read_options = build_read_options options page SourceReadPhase.detail;
  }

  unfoldable pub to_page_url : ℕ → Text
  to_page_url page =
      if page == 1 then options.source_url else html.with_page options.source_url page

  abbrev pub after_list :
      ℕ
      → Paced W × Result (DiscoverThrown X) Text
      → Paced W × Result (DiscoverThrown X) DiscoverPageCandidatesResult
  after_list page (s, ok source_text) =
      discover_page_candidates html (page_client page) json (parse_source_fixture html source_text)
        page (to_page_url page) source_text s
  after_list page (s, err e) = (s, err e)

  -- One pass of the loop.
  unfoldable pub discover_page :
      ℕ → Paced W → Paced W × Result (DiscoverThrown X) DiscoverPageCandidatesResult
  discover_page page s =
      after_list page (
        paced_fetch_text (to_page_url page) (build_read_options options page SourceReadPhase.list)
          s)

  abbrev pub add_page : PageProgress → DiscoverPageCandidatesResult → PageProgress
  add_page p r = record {
    candidates = p.candidates ++ r.candidates;
    diagnostics = p.diagnostics ++ r.diagnostics;
    skipped_pre_detail = p.skipped_pre_detail + r.skipped_pre_detail;
  }

  abbrev pub next_page :
      ℕ
      → PageProgress
      → (PageProgress → Paced W → PagesRun (Paced W) X)
      → Paced W × Result (DiscoverThrown X) DiscoverPageCandidatesResult
      → PagesRun (Paced W) X
  next_page page p rest (s, ok r) = rest (add_page p r) s
  next_page page p rest (s, err e) = record { progress = p; thrown = some (page, e); world = s }

  -- The passes from `page` on, `left` of them.
  unfoldable pub discover_pages : ℕ → ℕ → PageProgress → Paced W → PagesRun (Paced W) X
  discover_pages zero page p s = record { progress = p; thrown = none; world = s }
  discover_pages (suc left) page p s =
      next_page page p (discover_pages left (page + 1)) (discover_page page s)

  -- The report of what the loop has, or what it throws on.
  unfoldable pub report_of : PageProgress → Option (ℕ × DiscoverThrown X) → Result X DiscoveryReport
  report_of p none = ok (build_report options p.candidates p.diagnostics true p.skipped_pre_detail)
  report_of p (some (page, source_fetch_error e)) = ok (
      build_report options p.candidates
        (p.diagnostics ++ build_source_failure_diagnostic e options.source_url page ∷ []) false
        p.skipped_pre_detail)
  report_of p (some (_, other_thrown x)) = err x

  abbrev pub pages_run : W → PagesRun (Paced W) X
  pages_run w = discover_pages (or_else options.max_pages 1) 1 no_progress (w, 0)

  unfoldable pub discover_replays_dry_run : W → W × Result X DiscoveryReport
  discover_replays_dry_run w =
      let run = pages_run w in (run.world.0, report_of run.progress run.thrown)
