-- ===== src/Staging/Promotion.antt =====
-- What src/staging/stage-raw-replay.ts stages, over the table of the staging repository.
use replays_fetcher.Base.{
  ◌≡◌, refl, is_some, ◌||◌, not, ◌∙◌, Option, none, some, true, false, Text, ◌>>=◌, Result, ok, ◌⊎◌,
  inl, inr, Option-cases, arith,
}
use replays_fetcher.Types.{
  RawReplayStorageEvidence, StoreRawReplayResult, fetch_failure, evidence, IngestStagingPayload,
  StagingReason, IngestStagingResult, raw_status,
}
use replays_fetcher.Time.{
  filename_groups, UtcDateComponents, epoch_to_utc_iso, replay_timestamp_from_filename,
  to_iso_string,
}
use replays_fetcher.Time.Valid.{IsCalendarDate, iso_of, iso-some}
use replays_fetcher.Time.Epoch.{epoch_to_utc_iso_iff, to_iso_string-components}
use replays_fetcher.Staging.Defs.{StagingQueryClient, stage, exists_by_source_identity}
use replays_fetcher.Staging.Payload.{
  base_payload, not_stageable_result, Platform, is_stageable, replay_timestamp_of, to_payload,
  to_source_replay_id, stage_raw_replay, default_source_system, to_ingest_staging_payload,
}
use replays_fetcher.Staging.Table.{IsStagingTable, by_object, by_source}
use replays_fetcher.Staging.Repeat.{exists_after_stage}

abbrev pub IsIso : Text → Type 0
IsIso t = (c : UtcDateComponents) × IsCalendarDate c × (iso_of c ≡ t)

epoch-IsIso : (id t : Text) → epoch_to_utc_iso id ≡ some t → IsIso t
epoch-IsIso id t h =
    let (s, low, high, _, text) = (epoch_to_utc_iso_iff id t).0 h in
    let (c, v, iso, _) = to_iso_string-components s low high in
    (c, v, (iso-some c (to_iso_string s) iso).1 ∙ text)

with_id :
    (id : Option Text) (a : Text)
    → (id >>= epoch_to_utc_iso) ≡ some a
    → {t : Text} → a ≡ t
    → IsIso t
with_id none a h e = cc
with_id (some id) a h e = rw (← e) (epoch-IsIso id a h)

filename-IsIso : (name t : Text) → replay_timestamp_from_filename name ≡ some t → IsIso t
unfolding replay_timestamp_from_filename
filename-IsIso name t h = elim (Option-cases (filename_groups name)) [
  | inl e ↦ ground (arith, h, e)
  | inr (c, e) ↦ (let (v, iso) = iso-some c t (ground (arith, h, e)) in (c, v, iso))
]

-- A timestamp that is shipped is the one of the listing, or the ISO text of a date and a time of the
-- calendar.
pub replay_timestamp_of-IsIso :
    (js : Platform) (e : RawReplayStorageEvidence) (t : Text)
    → replay_timestamp_of js e ≡ some t
    → (e.discovered_at ≡ some t) ⊎ IsIso t
unfolding replay_timestamp_of
replay_timestamp_of-IsIso js e t h =
    elim (Option-cases (e.source.external_id >>= epoch_to_utc_iso)) [
      | inr (a, k) ↦ inr (with_id e.source.external_id a k (ground (arith, h, k)))
      | inl k ↦ elim (Option-cases (replay_timestamp_from_filename e.source_filename)) [
        | inl l ↦ inl (ground (arith, h, k, l))
        | inr (a, l) ↦ inr (filename-IsIso e.source_filename t (ground (arith, h, k, l)))
      ]
    ]

module _ (js : Platform) {W : Type 0} where
  -- What was not stored, or conflicts with what is stored, is not staged: the repository is not called
  -- and the result tells the status.
  pub stage_raw_replay_not_stageable :
      {X : Type 0} (repository : IngestStagingPayload → W → W × Result X IngestStagingResult)
      (run_id : Option Text) (raw : StoreRawReplayResult) (w : W)
      → is_stageable (raw_status raw) ≡ false
      → stage_raw_replay js repository run_id raw w
        ≡ (w, ok (not_stageable_result js (StagingReason.not_stageable_status (raw_status raw))))
  unfolding stage_raw_replay to_ingest_staging_payload
  stage_raw_replay_not_stageable repository run_id (fetch_failure e) w h = refl
  stage_raw_replay_not_stageable repository run_id (evidence e) w h = rw h refl

  module _ (client : StagingQueryClient W) (t : IsStagingTable client) (run_id : Option Text)
      (e : RawReplayStorageEvidence) (w : W) where
    abbrev pub payload_of : IngestStagingPayload
    payload_of = to_payload js e default_source_system run_id

    -- After the evidence of a stored replay was staged, the existence check of the watcher's gate finds
    -- its source identity, the identifier of the source where there is one, if the table had that
    -- identity or did not have its bytes and key; over a table that answers and that nobody else writes.
    pub stage_raw_replay-exists_by_source_identity :
        is_stageable e.status ≡ true
        → (exists_by_source_identity client default_source_system
            (to_source_replay_id js e)
            (stage_raw_replay js (stage client) run_id (evidence e) w).0).1
          ≡ ok (
              is_some (by_source payload_of (t.rows w))
              || not (is_some (by_object payload_of (t.rows w))))
    unfolding stage_raw_replay to_ingest_staging_payload to_payload base_payload
    stage_raw_replay-exists_by_source_identity h = rw h (exists_after_stage client t payload_of w)
