-- ===== src/Staging/Defs.antt =====
-- src/staging/postgres-staging-repository.ts. The four queries of the client are parameters, over the
-- state `W` of what lies outside; each answers with its rows or throws.
use replays_fetcher.Base.{
  Option, none, some, Bool, true, false, ◌&&◌, List, [], ◌∷◌, Text, codes, text_eq, if◌then◌else◌,
  Result, ok, err,
}
use replays_fetcher.Types.{
  StagingOutcomeStatus, IngestStagingPayload, ExistingStagingEvidence, StagingReason,
  IngestStagingResult,
}

pub record StagingRow : Type 0 where
  pub checksum : Text
  pub id : Text
  pub object_key : Text
  pub source_replay_id : Text
  pub source_system : Text
  pub status : Text

-- What the client throws: an object with a `code`, or anything else.
pub data DatabaseError : Type 0 where
  with_code : Text → DatabaseError
  without_code : DatabaseError

abbrev pub unique_violation_code : Text
unique_violation_code = codes "23505"

unfoldable pub is_unique_violation : DatabaseError → Bool
is_unique_violation (with_code code) = text_eq code unique_violation_code
is_unique_violation without_code = false

-- The queries by what they ask: the insert of a payload, which returns the ids of its rows, the rows
-- of a source identity, those of an object identity, and `select 1` of a source identity.
pub record StagingQueryClient (W : Type 0) : Type 0 where
  pub insert : IngestStagingPayload → W → W × Result DatabaseError (List Text)
  pub select_source : Text → Text → W → W × Result DatabaseError (List StagingRow)
  pub select_object : Text → Text → W → W × Result DatabaseError (List StagingRow)
  pub select_one : Text → Text → W → W × Result DatabaseError (List (Unit {0}))

-- `rows[0]`
abbrev pub first_row {ℓ} : {A : Type ℓ} → List A → Option A
first_row [] = none
first_row (x ∷ xs) = some x

unfoldable pub matches_payload : StagingRow → IngestStagingPayload → Bool
matches_payload row p = text_eq row.checksum p.checksum && text_eq row.object_key p.object_key

unfoldable pub to_existing : StagingRow → ExistingStagingEvidence
to_existing row = record {
  checksum = row.checksum;
  object_key = row.object_key;
  source_replay_id = row.source_replay_id;
  source_system = row.source_system;
  status = row.status;
}

unfoldable pub staged_as : IngestStagingPayload → Text → IngestStagingResult
staged_as p id = record {
  existing = none;
  payload = some p;
  reason = none;
  staging_id = some id;
  status = StagingOutcomeStatus.staged;
}

unfoldable pub already_staged_as : IngestStagingPayload → StagingRow → IngestStagingResult
already_staged_as p row = record {
  existing = some (to_existing row);
  payload = some p;
  reason = none;
  staging_id = some row.id;
  status = StagingOutcomeStatus.already_staged;
}

unfoldable pub conflict_with :
    IngestStagingPayload → StagingRow → StagingReason → IngestStagingResult
conflict_with p row reason = record {
  existing = some (to_existing row);
  payload = some p;
  reason = some reason;
  staging_id = none;
  status = StagingOutcomeStatus.conflict;
}

unfoldable pub failed_for : IngestStagingPayload → StagingReason → IngestStagingResult
failed_for p reason = record {
  existing = none;
  payload = some p;
  reason = some reason;
  staging_id = none;
  status = StagingOutcomeStatus.failed;
}

module _ {W : Type 0} where
  -- `(await …).rows[0]`, of a query that may throw.
  abbrev pub first_of {ℓ} :
      {A : Type ℓ} → W × Result DatabaseError (List A) → W × Result DatabaseError (Option A)
  first_of (w, ok rows) = (w, ok (first_row rows))
  first_of (w, err e) = (w, err e)

  abbrev pub find_by_source_identity :
      StagingQueryClient W → IngestStagingPayload → W → W × Result DatabaseError (Option StagingRow)
  find_by_source_identity client p w =
      first_of (client.select_source p.source_system p.source_replay_id w)

  abbrev pub find_by_object_identity :
      StagingQueryClient W → IngestStagingPayload → W → W × Result DatabaseError (Option StagingRow)
  find_by_object_identity client p w = first_of (client.select_object p.checksum p.object_key w)

  abbrev pub classify_by_object :
      IngestStagingPayload
      → W × Result DatabaseError (Option StagingRow)
      → W × Result DatabaseError IngestStagingResult
  classify_by_object p (w, ok (some row)) =
      (w, ok (conflict_with p row StagingReason.raw_object_identity_conflict))
  classify_by_object p (w, ok none) =
      (w, ok (failed_for p StagingReason.unique_violation_without_existing_staging))
  classify_by_object p (w, err e) = (w, err e)

  abbrev pub classify_by_source :
      StagingQueryClient W
      → IngestStagingPayload
      → W × Result DatabaseError (Option StagingRow)
      → W × Result DatabaseError IngestStagingResult
  classify_by_source client p (w, ok (some row)) = (
    w,
    ok (
        if matches_payload row p
        then already_staged_as p row
        else conflict_with p row StagingReason.source_identity_conflict),
  )
  classify_by_source client p (w, ok none) =
      classify_by_object p (find_by_object_identity client p w)
  classify_by_source client p (w, err e) = (w, err e)

  abbrev pub classify_existing_staging :
      StagingQueryClient W → IngestStagingPayload → W → W × Result DatabaseError IngestStagingResult
  classify_existing_staging client p w =
      classify_by_source client p (find_by_source_identity client p w)

  -- The `catch` of `stage`.
  abbrev pub on_stage_error :
      StagingQueryClient W
      → IngestStagingPayload
      → DatabaseError
      → W
      → W × Result DatabaseError IngestStagingResult
  on_stage_error client p e w =
      if is_unique_violation e
      then classify_existing_staging client p w
      else (w, ok (failed_for p StagingReason.staging_write_failed))

  -- The insert returned no row. The promise of `classifyExistingStaging` is returned without an
  -- `await`, so what it throws passes the `catch` by.
  abbrev pub after_skipped_insert :
      StagingQueryClient W
      → IngestStagingPayload
      → W × Result DatabaseError (Option StagingRow)
      → W × Result DatabaseError IngestStagingResult
  after_skipped_insert client p (w, ok (some row)) = (w, ok (already_staged_as p row))
  after_skipped_insert client p (w, ok none) = classify_existing_staging client p w
  after_skipped_insert client p (w, err e) = on_stage_error client p e w

  abbrev pub after_insert :
      StagingQueryClient W
      → IngestStagingPayload
      → W × Result DatabaseError (Option Text)
      → W × Result DatabaseError IngestStagingResult
  after_insert client p (w, ok (some id)) = (w, ok (staged_as p id))
  after_insert client p (w, ok none) =
      after_skipped_insert client p (find_by_object_identity client p w)
  after_insert client p (w, err e) = on_stage_error client p e w

  unfoldable pub stage :
      StagingQueryClient W → IngestStagingPayload → W → W × Result DatabaseError IngestStagingResult
  stage client p w = after_insert client p (first_of (client.insert p w))

  abbrev pub any_row : W × Result DatabaseError (List (Unit {0})) → W × Result DatabaseError Bool
  any_row (w, ok []) = (w, ok false)
  any_row (w, ok (_ ∷ _)) = (w, ok true)
  any_row (w, err e) = (w, err e)

  unfoldable pub exists_by_source_identity :
      StagingQueryClient W → Text → Text → W → W × Result DatabaseError Bool
  exists_by_source_identity client source_system source_replay_id w =
      any_row (client.select_one source_system source_replay_id w)
