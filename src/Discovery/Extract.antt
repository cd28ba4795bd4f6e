-- ===== src/Discovery/Extract.antt =====
-- src/discovery/html.ts. The patterns that take an HTML text apart and the URL parser are parameters; what
-- the code does with what they find is here.
use replays_fetcher.Base.{
  ℕ, zero, suc, ◌+◌, ◌-◌, Option, none, some, Bool, false, ◌&&◌, ◌||◌, not, ◌==◌, leb, List, [],
  ◌∷◌, ◌++◌, map, drop, length, Text, codes, text_eq, trim, is_empty, is_digit, decimal,
  if◌then◌else◌, or_else,
}
use replays_fetcher.Types.{Whole, non_negative, negative, CandidateMetadata}
use replays_fetcher.Source.Classify.{is_prefix}
use replays_fetcher.Time.{parse_game_date_to_utc_iso}

-- A row of a listing.
pub record ReplayRowObservation : Type 0 where
  pub metadata : CandidateMetadata
  pub page : ℕ
  pub external_id : Option Text
  pub url : Option Text

-- The groups of a match of the pattern of a link.
pub record LinkMatch : Type 0 where
  pub href : Text
  pub text : Text

-- What the patterns find: the body of the listing's table, the rows of a body, the cells of a row, the
-- link of a cell, the attributes of each `input`, the `id` and the `value` among attributes, and the
-- `data-ocap` of the `body`.
pub record Patterns : Type 0 where
  pub table_body : Text → Option Text
  pub rows : Text → List Text
  pub cells : Text → List Text
  pub link : Text → Option LinkMatch
  pub inputs : Text → List Text
  pub input_id : Text → Option Text
  pub input_value : Text → Option Text
  pub body_ocap : Text → Option Text

pub record ParsedUrl : Type 0 where
  pub origin : Text
  pub pathname : Text
  pub text : Text

-- `new URL(href, base)`, where it does not throw, and the origin of a URL.
pub record UrlParser : Type 0 where
  pub parse : Text → Text → Option ParsedUrl
  pub origin_of : Text → Text

-- `text.replaceAll(pattern, replacement)`, where `skip` code units still belong to the last match. The
-- pattern is not empty.
abbrev pub replace_all_from : ℕ → (pattern replacement : Text) → Text → Text
replace_all_from skip pattern replacement [] = []
replace_all_from (suc skip) pattern replacement (c ∷ t) =
    replace_all_from skip pattern replacement t
replace_all_from zero pattern replacement (c ∷ t) =
    let replaced = replace_all_from (length pattern - 1) pattern replacement t in
    let kept = replace_all_from 0 pattern replacement t in
    if is_prefix pattern (c ∷ t) then replacement ++ replaced else c ∷ kept

abbrev pub replace_all : (pattern replacement : Text) → Text → Text
replace_all = replace_all_from 0

unfoldable pub decode_html_entities : Text → Text
decode_html_entities value = replace_all (codes "&gt;") (codes ">") (
    replace_all (codes "&lt;") (codes "<") (
      replace_all (codes "&#39;") (codes "'")
        (replace_all (codes "&quot;") (34 ∷ []) (replace_all (codes "&amp;") (codes "&") value))))

-- The length of the rest of a tag after its `<`, up to its `>`, where that is not the first character.
abbrev pub to_tag_end : Text → Option ℕ
to_tag_end [] = none
to_tag_end (c ∷ t) =
    let rest = to_tag_end t in
    if c == b'>' then some 1 else elim rest [ none ↦ none | some n ↦ some (suc n) ]

abbrev pub tag_length : Text → Option ℕ
tag_length [] = none
tag_length (c ∷ t) = if c == b'>' then none else to_tag_end (c ∷ t)

-- `html.replaceAll(/<[^>]+>/gu, " ")`
abbrev pub blank_tags_from : ℕ → Text → Text
blank_tags_from skip [] = []
blank_tags_from (suc skip) (c ∷ t) = blank_tags_from skip t
blank_tags_from zero (c ∷ t) =
    let length_of_tag = if c == b'<' then tag_length t else none in
    let kept = blank_tags_from 0 t in
    elim length_of_tag [ none ↦ c ∷ kept | some n ↦ b' ' ∷ blank_tags_from n t ]

unfoldable pub strip_tags : Text → Text
strip_tags html = decode_html_entities (blank_tags_from 0 html)

abbrev pub replays_path : Text
replays_path = codes "/replays/"

abbrev pub url_if_replay : Text → Option ParsedUrl → Option Text
url_if_replay origin none = none
url_if_replay origin (some resolved) =
    if not (text_eq resolved.origin origin) || not (is_prefix replays_path resolved.pathname)
    then none
    else some resolved.text

unfoldable pub href_to_url : UrlParser → Option Text → Text → Option Text
href_to_url urls none source_url = none
href_to_url urls (some href) source_url =
    url_if_replay (urls.origin_of source_url) (urls.parse href source_url)

abbrev pub lower_case : ℕ → ℕ
lower_case c = if leb b'A' c && leb c b'Z' then c + 32 else c

-- `[^/?#]*`
abbrev pub segment : Text → Text
segment [] = []
segment (c ∷ t) =
    let rest = segment t in if c == b'/' || c == b'?' || c == b'#' then [] else c ∷ rest

-- `/\/replays\/(?<id>[^/?#]+)/iu`, on a URL, which has ASCII characters only.
unfoldable pub replay_id : Text → Option Text
replay_id [] = none
replay_id (c ∷ t) =
    let id = segment (drop (length replays_path) (c ∷ t)) in
    let later = replay_id t in
    if is_prefix replays_path (map lower_case (c ∷ t)) && not (is_empty id) then some id else later

abbrev pub leading_digits : Text → Text
leading_digits [] = []
leading_digits (c ∷ t) = let rest = leading_digits t in if is_digit c then c ∷ rest else []

abbrev pub number_if : (ℕ → Whole) → Text → Option Whole
number_if sign [] = none
number_if sign (c ∷ t) = some (sign (decimal (c ∷ t)))

-- `Number.parseInt(text, 10)` of a trimmed text, with `none` for `NaN`.
unfoldable pub parse_int : Text → Option Whole
parse_int [] = none
parse_int (c ∷ t) =
    if c == b'-'
    then number_if negative (leading_digits t)
    else if c == b'+'
    then number_if non_negative (leading_digits t)
    else number_if non_negative (leading_digits (c ∷ t))

-- `cells[index] ?? ""`
abbrev pub cell_at : ℕ → List Text → Text
cell_at index [] = []
cell_at zero (c ∷ cs) = c
cell_at (suc index) (c ∷ cs) = cell_at index cs

abbrev pub link_href : Option LinkMatch → Option Text
link_href none = none
link_href (some l) = some (trim l.href)

abbrev pub link_text : Option LinkMatch → Text
link_text none = []
link_text (some l) = l.text

-- A text that is not empty.
abbrev pub non_empty : Text → Option Text
non_empty [] = none
non_empty (c ∷ t) = some (c ∷ t)

unfoldable pub parse_replay_row :
    Patterns → UrlParser → (row_html : Text) → ℕ → (source_url : Text) → ReplayRowObservation
parse_replay_row patterns urls row_html page source_url =
    let cells = patterns.cells row_html in
    let link = patterns.link (cell_at 0 cells) in
    let url = href_to_url urls (link_href link) source_url in
    record {
      metadata = record {
        discovered_at = parse_game_date_to_utc_iso (trim (strip_tags (cell_at 3 cells)));
        mission_text = non_empty (trim (strip_tags (link_text link)));
        server_id = parse_int (trim (strip_tags (cell_at 2 cells)));
        world = non_empty (trim (strip_tags (cell_at 1 cells)));
      };
      page = page;
      external_id = replay_id (or_else url []);
      url = url;
    }

abbrev pub rows_of_body : Patterns → UrlParser → Option Text → ℕ → Text → List ReplayRowObservation
rows_of_body patterns urls none page source_url = []
rows_of_body patterns urls (some body) page source_url =
    map (λ row. parse_replay_row patterns urls row page source_url) (patterns.rows body)

unfoldable pub extract_replay_rows :
    Patterns → UrlParser → (html : Text) → ℕ → (source_url : Text) → List ReplayRowObservation
extract_replay_rows patterns urls html page source_url =
    rows_of_body patterns urls (patterns.table_body html) page source_url

abbrev pub is_text : Option Text → Text → Bool
is_text none t = false
is_text (some s) t = text_eq s t

-- The value of the first `input` with the `id`, even where it has none.
abbrev pub input_with_id : Patterns → Text → List Text → Option Text
input_with_id patterns id [] = none
input_with_id patterns id (attributes ∷ rest) =
    let later = input_with_id patterns id rest in
    if is_text (patterns.input_id attributes) id then patterns.input_value attributes else later

unfoldable pub find_input_value_by_id : Patterns → Text → Text → Option Text
find_input_value_by_id patterns html id = input_with_id patterns id (patterns.inputs html)

abbrev pub trimmed : Option Text → Option Text
trimmed none = none
trimmed (some t) = non_empty (trim t)

abbrev pub decoded_or : Option Text → Option Text → Option Text
decoded_or none otherwise = otherwise
decoded_or (some t) otherwise = some (decode_html_entities t)

-- The input `filename`, else the `data-ocap` of the body.
unfoldable pub extract_filename_from_detail_html : Patterns → Text → Option Text
extract_filename_from_detail_html patterns html =
    decoded_or (trimmed (find_input_value_by_id patterns html (codes "filename")))
      (decoded_or (trimmed (patterns.body_ocap html)) none)
