-- ===== src/Staging/Table.antt =====
-- The staging repository (src/staging/postgres-staging-repository.ts) against a table with the two
-- unique keys of `ingest_staging_records`: its source identity and its object identity.
use replays_fetcher.Base.{
  ◌≡◌, Option, none, some, Bool, false, ◌&&◌, List, [], ◌∷◌, Text, codes, text_eq, text_eq_refl,
  Option-cases, inl, inr, arith, if◌then◌else◌, ok, err,
}
use replays_fetcher.Types.{IngestStagingPayload, StagingReason, IngestStagingResult}
use replays_fetcher.Staging.Defs.{
  StagingRow, with_code, unique_violation_code, is_unique_violation, StagingQueryClient,
  matches_payload, staged_as, already_staged_as, conflict_with, stage,
}

abbrev pub find_first {ℓ} : {A : Type ℓ} → (A → Bool) → List A → Option A
find_first p [] = none
find_first p (x ∷ xs) = let rest = find_first p xs in if p x then some x else rest

abbrev pub has_source : Text → Text → StagingRow → Bool
has_source system id row = text_eq row.source_system system && text_eq row.source_replay_id id

abbrev pub has_object : Text → Text → StagingRow → Bool
has_object checksum key row = text_eq row.checksum checksum && text_eq row.object_key key

-- What a `select … limit 1` answers with.
abbrev pub rows_of {ℓ} : {A : Type ℓ} → Option A → List A
rows_of none = []
rows_of (some x) = x ∷ []

abbrev pub one_of : Option StagingRow → List (Unit {0})
one_of none = []
one_of (some _) = tt ∷ []

unfoldable pub row_of : IngestStagingPayload → Text → StagingRow
row_of p id = record {
  checksum = p.checksum;
  id = id;
  object_key = p.object_key;
  source_replay_id = p.source_replay_id;
  source_system = p.source_system;
  status = codes "pending";
}

abbrev pub by_object : IngestStagingPayload → List StagingRow → Option StagingRow
by_object p = find_first (has_object p.checksum p.object_key)

abbrev pub by_source : IngestStagingPayload → List StagingRow → Option StagingRow
by_source p = find_first (has_source p.source_system p.source_replay_id)

-- What PostgreSQL documents of the queries, while it answers and nobody else writes: `on conflict
-- (checksum, object_key) do nothing` returns no row where that key is taken, another unique key that
-- is taken raises 23505, else the row is added and its id returned; a `select` finds the row with the
-- key. `rows` are the rows of the table, in no order that counts.
pub record IsStagingTable {W : Type 0} (client : StagingQueryClient W) : Type 0 where
  pub rows : W → List StagingRow
  pub new_id : W → Text
  pub insert_nothing :
      (p : IngestStagingPayload) (w : W) (r : StagingRow)
      → by_object p (rows w) ≡ some r
      → ((client.insert p w).1 ≡ ok []) × (rows (client.insert p w).0 ≡ rows w)
  pub insert_violates :
      (p : IngestStagingPayload) (w : W) (r : StagingRow)
      → by_object p (rows w) ≡ none
      → by_source p (rows w) ≡ some r
      → ((client.insert p w).1 ≡ err (with_code unique_violation_code))
        × (rows (client.insert p w).0 ≡ rows w)
  pub insert_adds :
      (p : IngestStagingPayload) (w : W)
      → by_object p (rows w) ≡ none
      → by_source p (rows w) ≡ none
      → ((client.insert p w).1 ≡ ok (new_id w ∷ []))
        × (rows (client.insert p w).0 ≡ row_of p (new_id w) ∷ rows w)
  pub select_source_finds :
      (system id : Text) (w : W)
      → ((client.select_source system id w).1
          ≡ ok (rows_of (find_first (has_source system id) (rows w))))
        × (rows (client.select_source system id w).0 ≡ rows w)
  pub select_object_finds :
      (checksum key : Text) (w : W)
      → ((client.select_object checksum key w).1
          ≡ ok (rows_of (find_first (has_object checksum key) (rows w))))
        × (rows (client.select_object checksum key w).0 ≡ rows w)
  pub select_one_finds :
      (system id : Text) (w : W)
      → ((client.select_one system id w).1
          ≡ ok (one_of (find_first (has_source system id) (rows w))))
        × (rows (client.select_one system id w).0 ≡ rows w)

-- The contract of `stage`, from the rows that have the object identity and the source identity of the
-- payload: a taken object identity is already staged, else a taken source identity is a conflict, else
-- there is one more row.
abbrev pub outcome_of :
    IngestStagingPayload
    → Text
    → List StagingRow
    → (same_object same_source : Option StagingRow) → IngestStagingResult × List StagingRow
outcome_of p id rows (some r) _ = (already_staged_as p r, rows)
outcome_of p id rows none (some r) =
    (conflict_with p r StagingReason.source_identity_conflict, rows)
outcome_of p id rows none none = (staged_as p id, row_of p id ∷ rows)

unfoldable pub stage_in :
    IngestStagingPayload → Text → List StagingRow → IngestStagingResult × List StagingRow
stage_in p id rows = outcome_of p id rows (by_object p rows) (by_source p rows)

find_first-excludes {ℓ} :
    {A : Type ℓ} (p q : A → Bool) (xs : List A) (x : A)
    → find_first p xs ≡ none
    → find_first q xs ≡ some x
    → p x ≡ false
find_first-excludes p q [] x h k = ground arith
find_first-excludes p q (y ∷ ys) x h k = ground (arith, find_first-excludes p q ys x)

module _ {W : Type 0} (client : StagingQueryClient W) (t : IsStagingTable client)
    (p : IngestStagingPayload) (w : W) where
  stage-already :
      (r : StagingRow)
      → by_object p (t.rows w) ≡ some r
      → ((stage client p w).1 ≡ ok (already_staged_as p r))
        × (t.rows (stage client p w).0 ≡ t.rows w)
  unfolding stage
  stage-already r h =
      let (i, same) = t.insert_nothing p w r h in
      let (s, kept) = t.select_object_finds p.checksum p.object_key (client.insert p w).0 in
      ground (arith, i, same, s, kept, h)

  stage-conflict :
      (r : StagingRow)
      → by_object p (t.rows w) ≡ none
      → by_source p (t.rows w) ≡ some r
      → ((stage client p w).1 ≡ ok (conflict_with p r StagingReason.source_identity_conflict))
        × (t.rows (stage client p w).0 ≡ t.rows w)
  unfolding stage matches_payload is_unique_violation
  stage-conflict r h k =
      let (i, same) = t.insert_violates p w r h k in
      let (s, kept) =
        t.select_source_finds p.source_system p.source_replay_id (client.insert p w).0 in
      let differs =
        find_first-excludes (has_object p.checksum p.object_key)
          (has_source p.source_system p.source_replay_id) (t.rows w) r h k in
      ground (arith, i, same, s, kept, h, k, differs, text_eq_refl unique_violation_code)

  stage-new :
      by_object p (t.rows w) ≡ none
      → by_source p (t.rows w) ≡ none
      → ((stage client p w).1 ≡ ok (staged_as p (t.new_id w)))
        × (t.rows (stage client p w).0 ≡ row_of p (t.new_id w) ∷ t.rows w)
  unfolding stage
  stage-new h k = let (i, added) = t.insert_adds p w h k in ground (arith, i, added)

  -- Over a table that answers and that nobody else writes, `stage` returns the outcome of its
  -- contract `stage_in` and leaves the table that `stage_in` leaves: it never throws.
  pub stage-stage_in :
      ((stage client p w).1 ≡ ok (stage_in p (t.new_id w) (t.rows w)).0)
      × (t.rows (stage client p w).0 ≡ (stage_in p (t.new_id w) (t.rows w)).1)
  unfolding stage_in
  stage-stage_in = elim (Option-cases (by_object p (t.rows w))) [
    | inr (r, h) ↦ ground (arith, h, stage-already r h)
    | inl h ↦ elim (Option-cases (by_source p (t.rows w))) [
      | inr (r, k) ↦ ground (arith, h, k, stage-conflict r h k)
      | inl k ↦ ground (arith, h, k, stage-new h k)
    ]
  ]
