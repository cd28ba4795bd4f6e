-- ===== src/Examples/Listing.antt =====
-- A listing of three rows: one that is staged, one with a detail page, and one without a link.
use replays_fetcher.Base.{
  ◌≡◌, refl, ◌+◌, ℕ, none, some, true, List, [], ◌∷◌, Text, codes, Result, ok, err, text_eq, ◌++◌,
  All, if◌then◌else◌,
}
use replays_fetcher.Types.{non_negative, negative, DiscoveryReport}
use replays_fetcher.Source.Retry.{SourceReadPhase}
use replays_fetcher.Client.{source_transient_code}
use replays_fetcher.Discovery.{
  decode_html_entities, strip_tags, parse_int, Patterns, UrlParser, extract_replay_rows,
  parse_replay_row, href_to_url, replay_id, build_report, should_skip_pre_detail, is_trustworthy_id,
  DiscoverOptions, Html, ReplayRowObservation, DiscoverThrown, source_fetch_error, PageClient,
  PageProgress, no_progress, discover_row, discover_rows, DiscoverClient, discover_replays_dry_run,
}
use replays_fetcher.Discovery.Links.{IsSafeRow, extract_replay_rows-IsSafeRow}
use replays_fetcher.Discovery.Rows.{row_total, Staged, discover_rows_account, discover_row_skipped}
use replays_fetcher.ContractCheck.{ProbeClient}
use replays_fetcher.Examples.Discovery.{stringify}

-- The table is a list of identifiers: `1` is staged, `2` is not, and `3` has no link.
abbrev patterns : Patterns
patterns = record {
  table_body = λ html. some html;
  rows = λ body. codes "1" ∷ codes "2" ∷ codes "3" ∷ [];
  cells = λ row. row ∷ codes "<b>Altis</b>" ∷ codes "1" ∷ codes "14.06.2026 19:01" ∷ [];
  link = λ cell.
      if text_eq cell (codes "3")
      then none
      else some record { href = cell; text = codes "sg@test" };
  inputs = λ html. codes "filename" ∷ [];
  input_id = λ attributes. some attributes;
  input_value = λ attributes. some (codes "mission");
  body_ocap = λ html. none;
}

abbrev urls : UrlParser
urls = record {
  parse = λ href base. some record {
    origin = codes "https://sg.zone";
    pathname = codes "/replays/" ++ href;
    text = codes "https://sg.zone/replays/" ++ href;
  };
  origin_of = λ url. codes "https://sg.zone";
}

abbrev html : Html
html = record {
  encode_uri_component = λ t. t;
  is_url = λ t. true;
  resolve = λ path base. path;
  parse_json = λ t. none;
  patterns = patterns;
  urls = urls;
  with_page = λ url page. url;
}

abbrev listing : List ReplayRowObservation
listing = extract_replay_rows patterns urls [] 1 (codes "https://sg.zone/replays")

extract_replay_rows-IsSafeRow_example :
    All (IsSafeRow urls (codes "https://sg.zone/replays")) listing
extract_replay_rows-IsSafeRow_example =
    extract_replay_rows-IsSafeRow patterns urls 1 (codes "https://sg.zone/replays") []

abbrev staged_row : ReplayRowObservation
staged_row = parse_replay_row patterns urls (codes "1") 1 (codes "https://sg.zone/replays")

-- The world counts the requests.
abbrev page_client : PageClient ℕ Text
page_client = record {
  fetch_text = λ url options n. (n + 1, ok (codes "<html>"));
  exists_by_source_identity = some (λ system id n. (n, ok (text_eq id (codes "1"))));
  source_system = some (codes "sg-zone");
  detail_read_options = record { attempts = none; page = 1; phase = SourceReadPhase.detail };
}

abbrev progress_of : Result (DiscoverThrown Text) PageProgress → PageProgress
progress_of (ok p) = p
progress_of (err _) = no_progress

abbrev progress : PageProgress
progress =
    progress_of
      (discover_rows html page_client (codes "https://sg.zone/replays") listing no_progress 0).1

discover_rows_account_example : row_total progress ≡ 3
unfolding extract_replay_rows parse_replay_row href_to_url replay_id discover_rows discover_row
    should_skip_pre_detail is_trustworthy_id
discover_rows_account_example =
    discover_rows_account html page_client (codes "https://sg.zone/replays") listing no_progress 0
      progress refl

discover_row_skipped_example :
    ((row_url : Text) × (staged_row.url ≡ some row_url))
    × Staged html page_client (codes "https://sg.zone/replays") (some (codes "1")) 0 0
unfolding parse_replay_row href_to_url replay_id discover_row should_skip_pre_detail
    is_trustworthy_id
discover_row_skipped_example =
    discover_row_skipped html page_client (codes "https://sg.zone/replays") staged_row 0 0 refl

abbrev options : DiscoverOptions
options = record {
  attempts = some 2;
  generated_at = codes "2026-05-11T20:00:00.000Z";
  max_pages = some 2;
  request_delay_ms = some 100;
  source_system = none;
  source_url = codes "https://sg.zone/replays";
}

-- The listing answers, the detail pages time out.
abbrev discover_client : DiscoverClient ℕ Text
discover_client = record {
  fetch_text = λ url o n. (
    n + 1,
    err (
        source_fetch_error record {
          code = source_transient_code;
          message = codes "timed out";
          cause = none;
          details = none;
        }),
  );
  exists_by_source_identity = none;
  sleep = λ ms n. n;
}

abbrev report_or : DiscoveryReport → Result Text DiscoveryReport → DiscoveryReport
report_or r (ok s) = s
report_or r (err _) = r

abbrev report : DiscoveryReport
report =
    report_or (build_report options [] [] true 0)
      (discover_replays_dry_run html stringify options discover_client 0).1

-- An entity that stands for the text of an entity is decoded twice.
decoded_twice : decode_html_entities (codes "&amp;lt;") ≡ codes "<"
unfolding decode_html_entities
decoded_twice = refl

stripped : strip_tags (codes "<b>1 < 2</b> <>&quot;") ≡ codes " 1   <>" ++ 34 ∷ []
unfolding decode_html_entities strip_tags
stripped = refl

whole_numbers :
    (parse_int (codes "12 players") ≡ some (non_negative 12))
    × (parse_int (codes "-3") ≡ some (negative 3))
    × (parse_int (codes "+") ≡ none)
unfolding parse_int
whole_numbers = (refl, refl, refl)

-- Every page is read, and its bytes are JSON.
abbrev probe_client : ProbeClient ℕ
probe_client = record { fetch_text = λ url n. (n + 1, ok (codes "{}")); is_json = λ t. true }
