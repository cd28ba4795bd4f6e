-- ===== src/Discovery/Links.antt =====
-- The links and the dates of the rows that src/discovery/html.ts extracts.
use replays_fetcher.Base.{
  ◌≡◌, refl, ℕ, Option, none, some, true, List, [], ◌∷◌, map, All, Text, text_eq, text_eq_iff,
  arith, Option-cases, inl, inr, trim,
}
use replays_fetcher.Source.Classify.{is_prefix}
use replays_fetcher.Time.{UtcDateComponents, parse_game_date_to_utc_iso, game_date_groups}
use replays_fetcher.Time.Valid.{IsCalendarDate, iso_of, iso-some}
use replays_fetcher.Discovery.Extract.{
  ReplayRowObservation, Patterns, UrlParser, ParsedUrl, replays_path, url_if_replay, href_to_url,
  parse_replay_row, rows_of_body, extract_replay_rows, replay_id, link_href, cell_at,
}

-- A URL that the parser made of a link, of the origin of the listing and under `/replays/`.
abbrev pub IsReplayUrl : UrlParser → Text → Text → Type 0
IsReplayUrl urls source_url url =
    (href : Text) × (resolved : ParsedUrl) × (urls.parse href source_url ≡ some resolved)
    × (resolved.origin ≡ urls.origin_of source_url)
    × (is_prefix replays_path resolved.pathname ≡ true)
    × (resolved.text ≡ url)

url_if_replay-some :
    (origin : Text) (resolved : ParsedUrl) (url : Text)
    → url_if_replay origin (some resolved) ≡ some url
    → (text_eq resolved.origin origin ≡ true)
      × (is_prefix replays_path resolved.pathname ≡ true)
      × (resolved.text ≡ url)
url_if_replay-some origin resolved url h = ground (arith, h)

parsed-IsReplayUrl :
    (urls : UrlParser) (href source_url url : Text) (o : Option ParsedUrl)
    → urls.parse href source_url ≡ o
    → url_if_replay (urls.origin_of source_url) o ≡ some url
    → IsReplayUrl urls source_url url
parsed-IsReplayUrl urls href source_url url none p h = cc
parsed-IsReplayUrl urls href source_url url (some resolved) p h =
    let (same, under, text) = url_if_replay-some (urls.origin_of source_url) resolved url h in
    (href, resolved, p, (text_eq_iff _ _).0 same, under, text)

href_to_url-IsReplayUrl :
    (urls : UrlParser) (href : Option Text) (source_url url : Text)
    → href_to_url urls href source_url ≡ some url
    → IsReplayUrl urls source_url url
unfolding href_to_url
href_to_url-IsReplayUrl urls none source_url url h = cc
href_to_url-IsReplayUrl urls (some href) source_url url h =
    parsed-IsReplayUrl urls href source_url url (urls.parse href source_url) refl h

game_date-IsCalendarDate :
    (cell t : Text)
    → parse_game_date_to_utc_iso cell ≡ some t
    → (c : UtcDateComponents) × IsCalendarDate c × (iso_of c ≡ t)
unfolding parse_game_date_to_utc_iso
game_date-IsCalendarDate cell t h = elim (Option-cases (game_date_groups (trim cell))) [
  | inl e ↦ ground (arith, h, e)
  | inr (c, e) ↦ let (v, iso) = iso-some c t (ground (arith, h, e)) in (c, v, iso)
]

-- What holds of each row: its URL may be fetched, without one it has no identifier, and its time is a
-- date of the calendar.
pub record IsSafeRow (urls : UrlParser) (source_url : Text) (row : ReplayRowObservation)
    : Type 0 where
  pub url_safe : (url : Text) → row.url ≡ some url → IsReplayUrl urls source_url url
  pub id_linked : row.url ≡ none → row.external_id ≡ none
  pub time_valid :
      (t : Text)
      → row.metadata.discovered_at ≡ some t
      → (c : UtcDateComponents) × IsCalendarDate c × (iso_of c ≡ t)

module _ (patterns : Patterns) (urls : UrlParser) (page : ℕ) (source_url : Text) where
  parse_replay_row-IsSafeRow :
      (row : Text) → IsSafeRow urls source_url (parse_replay_row patterns urls row page source_url)
  unfolding parse_replay_row replay_id
  parse_replay_row-IsSafeRow row = record {
    url_safe = λ url h.
        href_to_url-IsReplayUrl urls (link_href (patterns.link (cell_at 0 (patterns.cells row))))
          source_url url h;
    id_linked = λ h. rw h refl;
    time_valid = λ t h. game_date-IsCalendarDate _ t h;
  }

  rows-IsSafeRow :
      (rows : List Text)
      → All
          (IsSafeRow urls source_url)
          (map (λ row. parse_replay_row patterns urls row page source_url) rows)
  rows-IsSafeRow [] = tt
  rows-IsSafeRow (r ∷ rs) = (parse_replay_row-IsSafeRow r, rows-IsSafeRow rs)

  body-IsSafeRow :
      (body : Option Text)
      → All (IsSafeRow urls source_url) (rows_of_body patterns urls body page source_url)
  body-IsSafeRow none = tt
  body-IsSafeRow (some body) = rows-IsSafeRow (patterns.rows body)

  -- Whatever the patterns find in a listing, a row's URL has the origin of the listing and a path under
  -- `/replays/`, a row without a URL has no identifier, and a row's time is a date of the calendar.
  pub extract_replay_rows-IsSafeRow :
      (html : Text)
      → All (IsSafeRow urls source_url) (extract_replay_rows patterns urls html page source_url)
  unfolding extract_replay_rows
  extract_replay_rows-IsSafeRow html = body-IsSafeRow (patterns.table_body html)
