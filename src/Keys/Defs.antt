-- ===== src/Keys/Defs.antt =====
-- The builders of object keys. The slugs are made of ASCII text (the host and path of a parsed URL,
-- a run's identifier), which `toLowerCase` changes letter by letter.
use replays_fetcher.Base.{
  ℕ, ◌+◌, Bool, true, false, ◌&&◌, ◌||◌, leb, ◌==◌, [], ◌∷◌, ◌++◌, map, Text, codes, is_digit,
  all_of, is_empty, length, if◌then◌else◌, Result, ok, err,
}
use mathlib.Core.List.{reverse}

pub data KeyError : Type 0 where
  bad_checksum empty_prefix empty_slug unsafe_key : KeyError

-- `[\da-f]`
abbrev pub is_hex : ℕ → Bool
is_hex c = is_digit c || leb b'a' c && leb c b'f'

-- `/^[\da-f]{64}$/u`
abbrev pub is_sha256 : Text → Bool
is_sha256 t = all_of is_hex t && length t == 64

unfoldable pub to_raw_replay_object_key : Text → Result KeyError Text
to_raw_replay_object_key sha256 =
    if is_sha256 sha256
    then ok (codes "raw/sha256/" ++ (sha256 ++ codes ".ocap"))
    else err bad_checksum

abbrev pub to_lower : ℕ → ℕ
to_lower c = if leb b'A' c && leb c b'Z' then c + 32 else c

-- `[a-z0-9._-]`
unfoldable pub is_slug_char : ℕ → Bool
is_slug_char c = leb b'a' c && leb c b'z' || is_digit c || c == b'.' || c == b'_' || c == b'-'

-- `[a-z0-9._/-]`
abbrev pub is_key_char : ℕ → Bool
is_key_char c = is_slug_char c || c == b'/'

-- `replaceAll(/[^a-z0-9._-]+/gu, "-")`; the flag says that the character before was replaced.
unfoldable pub replace_unsafe_runs : Bool → Text → Text
replace_unsafe_runs in_run [] = []
replace_unsafe_runs in_run (c ∷ cs) =
    let rest = replace_unsafe_runs (if is_slug_char c then false else true) cs in
    if is_slug_char c then c ∷ rest else if in_run then rest else b'-' ∷ rest

unfoldable pub drop_dashes : Text → Text
drop_dashes [] = []
drop_dashes (c ∷ cs) = let rest = drop_dashes cs in if c == b'-' then rest else c ∷ cs

-- `replaceAll(/^-+|-+$/gu, "")`
unfoldable pub trim_dashes : Text → Text
trim_dashes t = reverse (drop_dashes (reverse (drop_dashes t)))

unfoldable pub to_slug : Text → Text
to_slug t = trim_dashes (replace_unsafe_runs false (map to_lower t))

-- The parts of a parsed URL that the key is made of.
pub record SourceUrl : Type 0 where
  pub host : Text
  pub pathname : Text

unfoldable pub to_source_slug : SourceUrl → Text
to_source_slug u = to_slug (u.host ++ u.pathname)

abbrev pub safe_key : Text → Result KeyError Text
safe_key key = if all_of is_key_char key then ok key else err unsafe_key

-- `<prefix>/<slug>/<name>`, with the checks of both builders.
unfoldable pub slug_key : Text → Text → Text → Result KeyError Text
slug_key prefix slug name =
    if is_empty prefix
    then err empty_prefix
    else if is_empty slug
    then err empty_slug
    else safe_key (prefix ++ (codes "/" ++ (slug ++ (codes "/" ++ name))))

unfoldable pub to_checkpoint_object_key : Text → SourceUrl → Result KeyError Text
to_checkpoint_object_key prefix url = slug_key prefix (to_source_slug url) (codes "latest.json")

unfoldable pub to_run_slug : Text → Text
to_run_slug run_id = to_slug run_id

unfoldable pub to_evidence_object_key : Text → Text → Result KeyError Text
to_evidence_object_key prefix run_id = slug_key prefix (to_run_slug run_id) (codes "evidence.json")
