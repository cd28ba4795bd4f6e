-- ===== src/Discovery/Passes.antt =====
-- The loop of src/discovery/discover.ts over the pages: which pages it reads, and on which it stops.
use replays_fetcher.Base.{
  ◌≡◌, refl, ◌⊎◌, inl, inr, ℕ, zero, suc, ◌+◌, Option, none, some, Text, Result, ok, err, arith,
}
use replays_fetcher.Source.Retry.{SourceReadPhase}
use replays_fetcher.Discovery.Dedup.{Stringify, DiscoverPageCandidatesResult}
use replays_fetcher.Discovery.Report.{DiscoverOptions, build_read_options}
use replays_fetcher.Discovery.Candidates.{Html}
use replays_fetcher.Discovery.Page.{DiscoverThrown, PageProgress}
use replays_fetcher.Discovery.Pages.{
  DiscoverClient, Paced, PagesRun, to_page_url, paced_fetch_text, after_list, discover_page,
  add_page, next_page, discover_pages,
}

module _ {W X : Type 0} (html : Html) (json : Stringify) (options : DiscoverOptions)
    (client : DiscoverClient W X) where
  -- The read of the listing of a page.
  abbrev pub list_read : ℕ → Paced W → Paced W × Result (DiscoverThrown X) Text
  list_read page s =
      paced_fetch_text html json options client (to_page_url html json options client page)
        (build_read_options options page SourceReadPhase.list) s

  -- The pages from `page` on, `left` of them, are discovered one after the other: each listing is read,
  -- and nothing is thrown.
  abbrev pub AllPass : ℕ → ℕ → Paced W → Type 0
  AllPass zero page s = Unit
  AllPass (suc left) page s =
      (text : Text) × (s' : Paced W) × (found : DiscoverPageCandidatesResult) × ((list_read page
          s).1
        ≡ ok text)
      × (discover_page html json options client page s ≡ (s', ok found))
      × AllPass left (page + 1) s'

  -- The pages are discovered one after the other up to page `k`, whose discovery throws `e`.
  abbrev pub FailsOn : ℕ → ℕ → Paced W → ℕ → DiscoverThrown X → Type 0
  FailsOn zero page s k e = ⊥
  FailsOn (suc left) page s k e =
      ((k ≡ page) × (s' : Paced W) × (discover_page html json options client page s ≡ (s', err e)))
      ⊎ ((s' : Paced W) × (found : DiscoverPageCandidatesResult) × (discover_page html json options
              client page s
            ≡ (s', ok found))
          × FailsOn left (page + 1) s' k e)

  abbrev pub Follows : ℕ → ℕ → Paced W → Option (ℕ × DiscoverThrown X) → Type 0
  Follows left page s none = AllPass left page s
  Follows left page s (some (k, e)) = FailsOn left page s k e

  after_list-read :
      (page : ℕ) (s s' : Paced W) (found : DiscoverPageCandidatesResult)
      (x : Paced W × Result (DiscoverThrown X) Text)
      → list_read page s ≡ x
      → after_list html json options client page x ≡ (s', ok found)
      → (text : Text) × ((list_read page s).1 ≡ ok text)
  after_list-read page s s' found (t, ok text) e h = (text, ground (arith, e))
  after_list-read page s s' found (t, err x) e h = cc

  discover_page-read :
      (page : ℕ) (s s' : Paced W) (found : DiscoverPageCandidatesResult)
      → discover_page html json options client page s ≡ (s', ok found)
      → (text : Text) × ((list_read page s).1 ≡ ok text)
  unfolding discover_page
  discover_page-read page s s' found h = after_list-read page s s' found (list_read page s) refl h

  passed-Follows :
      (left page : ℕ) (s s' : Paced W) (found : DiscoverPageCandidatesResult)
      (thrown : Option (ℕ × DiscoverThrown X))
      → discover_page html json options client page s ≡ (s', ok found)
      → Follows left (page + 1) s' thrown
      → Follows (suc left) page s thrown
  passed-Follows left page s s' found none e h =
      let (text, read) = discover_page-read page s s' found e in (text, s', found, read, e, h)
  passed-Follows left page s s' found (some (k, x)) e h = inr (s', found, e, h)

  next_page-Follows :
      (left page : ℕ) (p : PageProgress) (s : Paced W)
      (rest : PageProgress → Paced W → PagesRun (Paced W) X)
      (r : Paced W × Result (DiscoverThrown X) DiscoverPageCandidatesResult)
      → discover_page html json options client page s ≡ r
      → ((p : PageProgress) (s : Paced W) → Follows left (page + 1) s (rest p s).thrown)
      → Follows (suc left) page s (next_page html json options client page p rest r).thrown
  next_page-Follows left page p s rest (s', ok found) e h =
      let q = add_page html json options client p found in
      passed-Follows left page s s' found (rest q s').thrown e (h q s')
  next_page-Follows left page p s rest (s', err x) e h = inl (refl, s', e)

  pub discover_pages-Follows :
      (left page : ℕ) (p : PageProgress) (s : Paced W)
      → Follows left page s (discover_pages html json options client left page p s).thrown
  unfolding discover_pages
  discover_pages-Follows zero page p s = tt
  discover_pages-Follows (suc left) page p s =
      next_page-Follows left page p s (discover_pages html json options client left (page + 1))
        (discover_page html json options client page s) refl
        (discover_pages-Follows left (page + 1))
