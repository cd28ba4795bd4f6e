-- ===== src/Examples/Store.antt =====
-- Checkpoints, an object store and a staging table small enough to run.
use replays_fetcher.Base.{
  ℕ, ◌≤◌, ◌≡◌, ◌⊎◌, refl, Option, none, some, Bool, true, [], ◌∷◌, Text, codes, text_eq, is_empty,
  arith, Result, ok, err, if◌then◌else◌,
}
use replays_fetcher.Checkpoint.{
  CheckpointStatus, CheckpointPage, PageCounts, Checkpoint, merge_checkpoints,
}
use replays_fetcher.Checkpoint.Merge.{ProgressLe, merge-progress}
use replays_fetcher.Checkpoint.Store.{
  Thrown, s3_exception, checkpoint_conflict, StoreOptions, GetOutput, PutCondition, unconditional,
  if_none_match, if_match, CheckpointWriteInput, read_checkpoint, write_checkpoint,
  is_precondition_failed, object_key,
}
use replays_fetcher.Keys.{
  to_checkpoint_object_key, slug_key, to_source_slug, to_slug, trim_dashes, drop_dashes,
  replace_unsafe_runs, is_slug_char,
}
use replays_fetcher.Checkpoint.Store.Corrupt.{IsUnreadable, unreadable_is_never_replaced}

abbrev no_page_counts : PageCounts
no_page_counts = record { discovered = 2; failed = 0; staged = 1; stored = 1 }

abbrev a_page : CheckpointPage
a_page = record { counts = no_page_counts; status = codes "running" }

abbrev checkpoint_of : Text → CheckpointStatus → ℕ → Checkpoint
checkpoint_of run status last = record {
  counts = no_page_counts;
  created_at = codes "t0";
  discovered_last_page = last;
  last_completed_page = last;
  last_source_failure = none;
  pages = (codes "1", a_page) ∷ [];
  run_id = run;
  source_url = codes "https://sg.zone/replays";
  status = status;
  updated_at = codes "t1";
}

abbrev ours : Checkpoint
ours = checkpoint_of (codes "ours") CheckpointStatus.running 3

abbrev theirs : Checkpoint
theirs = checkpoint_of (codes "theirs") CheckpointStatus.complete 5

merge-progress_example :
    let merged = merge_checkpoints ours theirs in
    ProgressLe ours merged
    × ProgressLe theirs merged
    × (3 ≤ merged.discovered_last_page)
    × (5 ≤ merged.discovered_last_page)
    × ((merged.status ≡ CheckpointStatus.running) × (merged.counts ≡ no_page_counts)
        ⊎ (merged.status ≡ CheckpointStatus.complete) × (merged.counts ≡ no_page_counts))
merge-progress_example = merge-progress ours theirs

-- A store of one object: the outside is its body, empty where there is none, and its ETag is the
-- body. Checkpoints are written down by their run alone.
abbrev lost : Thrown
lost = s3_exception (codes "PreconditionFailed") (some 412)

abbrev put_if : Bool → Text → Text → Text × Result Thrown (Option Text)
put_if allowed body w = if allowed then (body, ok (some body)) else (w, err lost)

abbrev put_body : PutCondition → Text → Text → Text × Result Thrown (Option Text)
put_body unconditional body w = put_if true body w
put_body if_none_match body w = put_if (is_empty w) body w
put_body (if_match etag) body w = put_if (text_eq etag w) body w

abbrev get_body : Text → Text × Result Thrown GetOutput
get_body w = (
  w,
  if is_empty w
      then err (s3_exception (codes "NoSuchKey") (some 404))
      else ok (record { body = some w; etag = some w }),
)

abbrev parse : Text → Option Checkpoint
parse t =
    if text_eq t (codes "ours")
    then some ours
    else if text_eq t (codes "theirs")
    then some theirs
    else none

abbrev store : StoreOptions Text
store = record {
  conditional_writes = true;
  prefix = codes "checkpoints";
  random = λ round n. n;
  get = λ key. get_body;
  put = λ r w. put_body r.condition r.body w;
  stringify = λ c. c.run_id;
  parse = parse;
  parse_url = λ t. some (record { host = codes "sg.zone"; pathname = codes "/replays" });
  delay = λ ms w. w;
}

abbrev write_input : CheckpointWriteInput
write_input = record { checkpoint = ours; etag = none; slug = codes "https://sg.zone/replays" }

abbrev merged : Checkpoint
merged = merge_checkpoints ours theirs

-- The same store with a broken object in it.
abbrev Broken : Text → Type 0
Broken w = w ≡ codes "broken"

abbrev store_key : Text
store_key = codes "checkpoints/sg.zone-replays/latest.json"

store-IsUnreadable : IsUnreadable store store_key Broken
unfolding is_precondition_failed
store-IsUnreadable = record {
  lost = λ w. lost;
  raw = codes "broken";
  stored_etag = some (codes "broken");
  put_fails = λ r w b k c. ground (arith, b, k, c);
  get_returns = λ w b. ground (arith, b);
  unparsable = refl;
  delay_keeps = λ ms w b. b;
}

object_key-store : object_key store (codes "https://sg.zone/replays") ≡ ok store_key
unfolding object_key to_checkpoint_object_key slug_key to_source_slug to_slug trim_dashes
    drop_dashes replace_unsafe_runs is_slug_char
object_key-store = refl

unreadable_is_never_replaced_example :
    let read = read_checkpoint store (codes "https://sg.zone/replays") (codes "broken") in
    let written = write_checkpoint store write_input (codes "broken") in
    (read.1 ≡ ok (record { checkpoint = none; etag = none }))
    × (read.0 ≡ codes "broken")
    × (written.1 ≡ err (checkpoint_conflict 5 3 (codes "https://sg.zone/replays")))
    × (written.0 ≡ codes "broken")
unreadable_is_never_replaced_example =
    unreadable_is_never_replaced store store_key (codes "https://sg.zone/replays") Broken refl
      object_key-store store-IsUnreadable ours (codes "broken") refl
