-- ===== src/Discovery/Outcome.antt =====
-- The reports of src/discovery/discover.ts.
use mathlib.Core.Path.{subst}
use replays_fetcher.Base.{
  ◌≡◌, refl, ◌⊎◌, inl, inr, ℕ, ◌+◌, ◌≤◌, ◌<◌, some, true, false, List, [], ◌∷◌, ◌++◌, Text, ok,
}
use replays_fetcher.Types.{DiscoveryDiagnostic, DiscoveryReport}
use replays_fetcher.Client.{
  SourceFetchError, ReadError, SourceFetchOptions, SourceWorld, failed, fetch_text, total_tries,
  resolve_phase,
}
use replays_fetcher.Config.{SourceConfig}
use replays_fetcher.Client.Reports.{NoHost, fetch_text_failed}
use replays_fetcher.Discovery.Dedup.{Stringify}
use replays_fetcher.Discovery.Report.{
  DiscoverOptions, build_source_failure_diagnostic, detail_url_or_source,
  with_source_failure_evidence, diagnostic_code,
}
use replays_fetcher.Discovery.Candidates.{Html}
use replays_fetcher.Discovery.Page.{DiscoverThrown, source_fetch_error}
use replays_fetcher.Discovery.Pages.{DiscoverClient, Paced, PagesRun}
use replays_fetcher.Discovery.Passes.{AllPass, FailsOn}
use replays_fetcher.Discovery.Warnings.{Warnings}

module _ {W X : Type 0} (html : Html) (json : Stringify) (options : DiscoverOptions)
    (client : DiscoverClient W X) where
  -- The loop collects warnings, and throws on one of its pages.
  abbrev LoopHolds : ℕ → ℕ → PagesRun (Paced W) X → Type 0
  LoopHolds left page run =
      Warnings run.progress.diagnostics
      × ((k : ℕ) (e : DiscoverThrown X) → run.thrown ≡ some (k, e) → (page ≤ k) × (k < page + left))

  -- The failure of a page at the end of a report: the page whose discovery threw it.
  abbrev pub FailsAt : ℕ → W → DiscoveryReport → Type 0
  FailsAt pages w r =
      (k : ℕ) × (e : SourceFetchError) × (ds : List DiscoveryDiagnostic) × (1 ≤ k)
      × (k ≤ pages)
      × (r.diagnostics ≡ ds ++ build_source_failure_diagnostic e options.source_url k ∷ [])
      × Warnings ds
      × FailsOn html json options client pages 1 (w, 0) k (source_fetch_error e)

  -- What a report says of the pages.
  abbrev pub Tells : ℕ → W → DiscoveryReport → Type 0
  Tells pages w r =
      ((r.ok ≡ true) × Warnings r.diagnostics × AllPass html json options client pages 1 (w, 0))
      ⊎ ((r.ok ≡ false) × FailsAt pages w r)

-- The diagnostic of a page that `fetchText` could not read, asked for by its number: it has that page and
-- the code of the error, and, unless an SSH client has no host, the tries allowed, the phase and the URL.
pub source_failure_diagnostic-fetch_text :
    {W : Type 0} (js : SourceWorld W) (config : SourceConfig) (url source_url : Text)
    (options : SourceFetchOptions W ReadError) (page : ℕ) (w : W) (e : SourceFetchError)
    → options.page ≡ some page
    → (fetch_text js config url (some options) w).1 ≡ failed e
    → let d = build_source_failure_diagnostic e source_url page in
      (d.page ≡ some page)
      × (d.code ≡ diagnostic_code e.code)
      × (NoHost js config url (some options) w config.source_transport config.source_ssh_host e
          ⊎ ((d.attempts ≡ some (total_tries (some options)))
              × (d.phase ≡ some (resolve_phase (some options)))
              × (d.source_url ≡ some url)))
unfolding build_source_failure_diagnostic with_source_failure_evidence detail_url_or_source
    resolve_phase
source_failure_diagnostic-fetch_text js config url source_url options page w e p h =
    elim (fetch_text_failed js config url (some options) w e h) [
      | inl (t, host, same) ↦
          subst
            (λ e.
              let d = build_source_failure_diagnostic e source_url page in
              (d.page ≡ some page)
              × (d.code ≡ diagnostic_code e.code)
              × (NoHost js config url (some options) w config.source_transport
                    config.source_ssh_host e
                  ⊎ ((d.attempts ≡ some (total_tries (some options)))
                      × (d.phase ≡ some (resolve_phase (some options)))
                      × (d.source_url ≡ some url))))
            same (refl, refl, inl (t, host, refl))
      | inr (d, k, a, q, f, u) ↦ rw (k, a, q, p, f, u) (refl, refl, inr (refl, refl, refl))
    ]
