-- ===== src/Examples/Staging.antt =====
-- A staging table that runs: the outside is the list of its rows.
use replays_fetcher.Base.{
  ◌≡◌, refl, ◌⊎◌, true, Option, none, some, List, [], ◌∷◌, Text, codes, arith, Result, ok, err,
}
use replays_fetcher.Time.{
  epoch_to_utc_iso, to_iso_string, string_of, iso_text, pad_four, pad_two, year_of, day_from_year,
  month_of, month_start, leap_day, get_utc_full_year, get_utc_month, get_utc_date, get_utc_hours,
  get_utc_minutes, get_utc_seconds,
}
use replays_fetcher.Staging.Promotion.{
  replay_timestamp_of-IsIso, stage_raw_replay-exists_by_source_identity, IsIso,
}
use replays_fetcher.Types.{
  RawReplayStorageEvidence, evidence, RawReplayStorageStatus, StagingOutcomeStatus,
  IngestStagingPayload, IngestStagingResult,
}
use replays_fetcher.Staging.{
  Platform, replay_timestamp_of, default_source_system, stage_raw_replay, is_stageable,
  to_source_replay_id, StagingRow, DatabaseError, with_code, unique_violation_code,
  StagingQueryClient, stage, staged_as, exists_by_source_identity,
}
use replays_fetcher.Staging.Repeat.{stage_again}
use replays_fetcher.Staging.Table.{
  IsStagingTable, row_of, rows_of, one_of, find_first, has_source, has_object, by_object, by_source,
  stage_in, stage-stage_in,
}

abbrev payload : IngestStagingPayload
payload = record {
  checksum = codes "44136fa3";
  object_key = codes "raw/44136fa3.json";
  promotion_evidence = record {
    bucket = codes "replays";
    byte_size = 2;
    checksum = codes "44136fa3";
    discovered_at = none;
    fetched_at = codes "2026-05-11T20:00:00.000Z";
    object_key = codes "raw/44136fa3.json";
    raw_storage_status = RawReplayStorageStatus.stored;
    run_id = none;
    source_external_id = some (codes "1778529600");
    source_filename = codes "2026_05_11__20_00_00__1_ocap.json";
    source_url = codes "https://sg.zone/replays/1778529600";
  };
  replay_timestamp = none;
  size_bytes = 2;
  source_replay_id = codes "1778529600";
  source_system = codes "sg-zone";
}

abbrev answer_insert :
    IngestStagingPayload
    → List StagingRow
    → (same_object same_source : Option StagingRow)
    → List StagingRow × Result DatabaseError (List Text)
answer_insert p rows (some _) _ = (rows, ok [])
answer_insert p rows none (some _) = (rows, err (with_code unique_violation_code))
answer_insert p rows none none = (row_of p (codes "id") ∷ rows, ok (codes "id" ∷ []))

abbrev table : StagingQueryClient (List StagingRow)
table = record {
  insert = λ p rows. answer_insert p rows (by_object p rows) (by_source p rows);
  select_source = λ system id rows. (rows, ok (rows_of (find_first (has_source system id) rows)));
  select_object =
      λ checksum key rows. (rows, ok (rows_of (find_first (has_object checksum key) rows)));
  select_one = λ system id rows. (rows, ok (one_of (find_first (has_source system id) rows)));
}

table-IsStagingTable : IsStagingTable table
table-IsStagingTable = record {
  rows = λ w. w;
  new_id = λ w. codes "id";
  insert_nothing = λ p w r h. ground (arith, h);
  insert_violates = λ p w r h k. ground (arith, h, k);
  insert_adds = λ p w h k. ground (arith, h, k);
  select_source_finds = λ system id w. (refl, refl);
  select_object_finds = λ checksum key w. (refl, refl);
  select_one_finds = λ system id w. (refl, refl);
}

abbrev old_row : StagingRow
old_row = record {
  checksum = codes "44136fa3";
  id = codes "old";
  object_key = codes "raw/44136fa3.json";
  source_replay_id = codes "1778529601";
  source_system = codes "sg-zone";
  status = codes "promoted";
}

stage-stage_in_example :
    ((stage table payload (old_row ∷ [])).1 ≡ ok (stage_in payload (codes "id") (old_row ∷ [])).0)
    × ((stage table payload (old_row ∷ [])).0 ≡ (stage_in payload (codes "id") (old_row ∷ [])).1)
unfolding table-IsStagingTable
stage-stage_in_example = stage-stage_in table table-IsStagingTable payload (old_row ∷ [])

stage_again_example :
    let w' = (stage table payload []).0 in
    ((again : IngestStagingResult) × ((stage table payload w').1 ≡ ok again)
      × (again.status ≡ StagingOutcomeStatus.already_staged)
      × (again.staging_id ≡ some (codes "id")))
    × ((stage table payload w').0 ≡ w')
unfolding table-IsStagingTable stage staged_as
stage_again_example =
    stage_again table table-IsStagingTable payload [] (staged_as payload (codes "id")) refl
      (λ e. cc)

abbrev platform : Platform
platform = record {
  sha256 = λ bytes. codes "e3b0c442";
  encode = λ t. t;
  without_userinfo = λ t. none;
}

abbrev raw_evidence : RawReplayStorageEvidence
raw_evidence = record {
  bucket = codes "replays";
  byte_size = 2;
  checksum = codes "44136fa3";
  discovered_at = none;
  failure_category = none;
  fetched_at = codes "2026-05-11T20:00:00.000Z";
  object_key = codes "raw/44136fa3.json";
  source = record {
    external_id = some (codes "1778529600");
    page = none;
    raw_url = none;
    url = codes "https://sg.zone/replays/1778529600";
  };
  source_filename = codes "2026_05_11__20_00_00__1_ocap.json";
  status = RawReplayStorageStatus.stored;
}

replay_timestamp_of-IsIso_example :
    (raw_evidence.discovered_at ≡ some (codes "2026-05-11T20:00:00.000Z"))
    ⊎ IsIso (codes "2026-05-11T20:00:00.000Z")
unfolding replay_timestamp_of epoch_to_utc_iso to_iso_string string_of iso_text pad_four pad_two
    year_of day_from_year month_of month_start leap_day get_utc_full_year get_utc_month get_utc_date
    get_utc_hours get_utc_minutes get_utc_seconds
replay_timestamp_of-IsIso_example =
    replay_timestamp_of-IsIso platform raw_evidence (codes "2026-05-11T20:00:00.000Z") refl

stage_raw_replay-exists_by_source_identity_example :
    (exists_by_source_identity table default_source_system
      (codes "1778529600")
      (stage_raw_replay platform (stage table) none (evidence raw_evidence) []).0).1
    ≡ ok true
unfolding table-IsStagingTable is_stageable to_source_replay_id
stage_raw_replay-exists_by_source_identity_example =
    stage_raw_replay-exists_by_source_identity platform table table-IsStagingTable none raw_evidence
      [] refl
