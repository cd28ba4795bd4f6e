-- ===== src/Staging/Repeat.antt =====
-- Staging a payload twice, and looking it up after it was staged
-- (src/staging/postgres-staging-repository.ts).
use replays_fetcher.Base.{
  ◌≡◌, ◌≢◌, some, Bool, true, ◌||◌, not, is_some, List, ◌∷◌, Text, text_eq_refl, Option-cases, inl,
  inr, arith, ok,
}
use replays_fetcher.Types.{StagingOutcomeStatus, IngestStagingPayload, IngestStagingResult}
use replays_fetcher.Staging.Defs.{
  StagingRow, StagingQueryClient, staged_as, already_staged_as, conflict_with, stage,
  exists_by_source_identity,
}
use replays_fetcher.Staging.Table.{
  find_first, has_source, has_object, row_of, by_object, by_source, IsStagingTable, stage_in,
  stage-stage_in,
}

find_first-added {ℓ} :
    {A : Type ℓ} (q : A → Bool) (x : A) (xs : List A) → q x ≡ true → find_first q (x ∷ xs) ≡ some x
find_first-added q x xs h = ground arith

row_of-has_object :
    (p : IngestStagingPayload) (id : Text) → has_object p.checksum p.object_key (row_of p id) ≡ true
unfolding row_of
row_of-has_object p id = ground (arith, text_eq_refl p.checksum, text_eq_refl p.object_key)

-- The contract again on the table that it left: unless the first outcome was a conflict, the second
-- is already staged, by the row of the first.
stage_in-twice :
    (p : IngestStagingPayload) (id id' : Text) (rows : List StagingRow)
    → let (r, after) = stage_in p id rows in
      r.status ≢ StagingOutcomeStatus.conflict
      → ((stage_in p id' after).0.status ≡ StagingOutcomeStatus.already_staged)
        × ((stage_in p id' after).0.staging_id ≡ r.staging_id)
        × ((stage_in p id' after).1 ≡ after)
unfolding stage_in already_staged_as staged_as conflict_with row_of
stage_in-twice p id id' rows h = elim (Option-cases (by_object p rows)) [
  | inr (r, e) ↦ ground (arith, e)
  | inl e ↦ elim (Option-cases (by_source p rows)) [
    | inr (r, k) ↦ ground (arith, e, k, h)
    | inl k ↦
        let found =
          find_first-added (has_object p.checksum p.object_key) (row_of p id) rows
            (row_of-has_object p id) in
        ground (arith, e, k, found)
  ]
]

row_of-has_source :
    (p : IngestStagingPayload) (id : Text)
    → has_source p.source_system p.source_replay_id (row_of p id) ≡ true
unfolding row_of
row_of-has_source p id =
    ground (arith, text_eq_refl p.source_system, text_eq_refl p.source_replay_id)

exists_by_source_identity_lem :
    {W : Type 0} (client : StagingQueryClient W) (t : IsStagingTable client)
    (p : IngestStagingPayload) (w : W)
    → (exists_by_source_identity client p.source_system p.source_replay_id w).1
      ≡ ok (is_some (by_source p (t.rows w)))
unfolding exists_by_source_identity
exists_by_source_identity_lem client t p w =
    let (s, _) = t.select_one_finds p.source_system p.source_replay_id w in ground (arith, s)

module _ {W : Type 0} (client : StagingQueryClient W) (t : IsStagingTable client)
    (p : IngestStagingPayload) (w : W) where
  -- Staging a payload again is idempotent: over a table that answers and that nobody else writes,
  -- where the first call did not report a conflict, the second returns `already_staged` with the
  -- staging id of the first and leaves the table as it is.
  pub stage_again :
      (r : IngestStagingResult)
      → (stage client p w).1 ≡ ok r
      → r.status ≢ StagingOutcomeStatus.conflict
      → let w' = (stage client p w).0 in
        ((again : IngestStagingResult) × ((stage client p w').1 ≡ ok again)
          × (again.status ≡ StagingOutcomeStatus.already_staged)
          × (again.staging_id ≡ r.staging_id))
        × (t.rows (stage client p w').0 ≡ t.rows w')
  stage_again r h k =
      let w' = (stage client p w).0 in
      let (first, left) = stage-stage_in client t p w in
      let (second, kept) = stage-stage_in client t p w' in
      let twice = stage_in-twice p (t.new_id w) (t.new_id w') (t.rows w) in
      let again = (stage_in p (t.new_id w') (t.rows w')).0 in
      ((again, second, ground arith, ground arith), ground arith)

  -- The existence check after a staging: over a table that answers and that nobody else writes, it
  -- finds the source identity of the payload unless the bytes were there under another identity, that
  -- is, unless a row had the object identity of the payload and none its source identity.
  pub exists_after_stage :
      (exists_by_source_identity client p.source_system p.source_replay_id (stage client p w).0).1
      ≡ ok (is_some (by_source p (t.rows w)) || not (is_some (by_object p (t.rows w))))
  unfolding stage_in
  exists_after_stage =
      let (_, left) = stage-stage_in client t p w in
      let exists = exists_by_source_identity_lem client t p (stage client p w).0 in
      let added =
        find_first-added (has_source p.source_system p.source_replay_id) (row_of p (t.new_id w))
          (t.rows w) (row_of-has_source p (t.new_id w)) in
      ground (arith, left, exists, added)
