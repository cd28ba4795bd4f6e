-- ===== src/Examples/Keys.antt =====
-- Keys of objects of src/checkpoint/object-key.ts and src/evidence/object-key.ts.
use replays_fetcher.Base.{◌≡◌, refl, true, all_of, codes, is_empty, ◌++◌, ok, err, if◌then◌else◌}
use replays_fetcher.Keys.{
  SourceUrl, is_slug_char, to_source_slug, to_run_slug, to_checkpoint_object_key,
  to_evidence_object_key, empty_slug,
}
use replays_fetcher.Keys.Safety.{object_keys_safe}

abbrev source_url : SourceUrl
source_url = record { host = codes "SG.zone"; pathname = codes "/replays" }

object_keys_safe_example :
    let run = to_run_slug (codes "a/B:../c") in
    let source = to_source_slug source_url in
    (to_checkpoint_object_key (codes "runs") source_url ≡ (
      if is_empty source
      then err empty_slug
      else ok (codes "runs/" ++ (source ++ codes "/latest.json"))))
    × (to_evidence_object_key (codes "runs") (codes "a/B:../c") ≡ (
        if is_empty run
        then err empty_slug
        else ok (codes "runs/" ++ (run ++ codes "/evidence.json"))))
    × (all_of is_slug_char source ≡ true)
    × (all_of is_slug_char run ≡ true)
unfolding is_slug_char
object_keys_safe_example = object_keys_safe (codes "runs") (codes "a/B:../c") source_url refl refl
