-- ===== src/Run/Ingest/Defs.antt =====
-- src/run/ingest-page.ts. What `storeRawReplay`, `stageRawReplay` and `existsBySourceIdentity` do is
-- a parameter, over the state `W` of what lies outside; `X` is what they may throw. Every await ends
-- a step of a task; a schedule says which task makes the next step, so that it stands for one
-- interleaving that the limiter and the promises allow.
use replays_fetcher.Base.{
  ℕ, zero, suc, ◌+◌, Option, none, some, Bool, true, false, ◌&&◌, not, leb, List, [], ◌∷◌, ◌++◌,
  length, Text, trim, is_empty, or_else, if◌then◌else◌, Result, ok, err,
}
use replays_fetcher.Types.{
  ReplayCandidate, RawReplayStorageStatus, StoreRawReplayResult, raw_status, StagingOutcomeStatus,
  IngestStagingResult,
}
use replays_fetcher.Staging.{default_source_system}

pub record IngestPageCounts : Type 0 where
  pub discovered : ℕ
  pub failed : ℕ
  pub skipped_by_source_id : ℕ
  pub staged : ℕ
  pub stored : ℕ

pub record IngestPageResult : Type 0 where
  pub counts : IngestPageCounts
  pub raw_storage : List StoreRawReplayResult
  pub staging : List IngestStagingResult

pub record IngestPageInput (W X : Type 0) : Type 0 where
  pub exists_by_source_identity : Option (Text → Text → W → W × Result X Bool)
  pub prefetch_dedup : Bool
  pub source_system : Option Text
  pub stage_raw_replay : StoreRawReplayResult → W → W × Result X IngestStagingResult
  pub store_raw_replay : ReplayCandidate → W → W × Result X StoreRawReplayResult

pub data SettledCandidate : Type 0 where
  processed : (index : ℕ) → StoreRawReplayResult → IngestStagingResult → SettledCandidate
  skipped : (index : ℕ) → SettledCandidate

pub data Settled (X : Type 0) : Type 0 where
  fulfilled : SettledCandidate → Settled X
  rejected : X → Settled X

-- Where a candidate's task stands: before the existence check, before the store, before the stage,
-- or at its end.
pub data TaskState (X : Type 0) : Type 0 where
  to_check to_store : TaskState X
  to_stage : StoreRawReplayResult → TaskState X
  done_skipped : TaskState X
  done_processed : StoreRawReplayResult → IngestStagingResult → TaskState X
  done_thrown : X → TaskState X

pub record Task (X : Type 0) : Type 0 where
  pub candidate : ReplayCandidate
  pub index : ℕ
  pub state : TaskState X

-- `id !== undefined && id.trim().length > 0`
unfoldable pub is_trustworthy_id : Option Text → Bool
is_trustworthy_id none = false
is_trustworthy_id (some id) = not (is_empty (trim id))

module _ {X : Type 0} where
  -- How the check settles: on a staged replay the task ends, otherwise the bytes are fetched.
  abbrev pub after_check : Result X Bool → TaskState X
  after_check (ok true) = TaskState.done_skipped
  after_check (ok false) = TaskState.to_store
  after_check (err x) = TaskState.done_thrown x

  abbrev pub after_store : Result X StoreRawReplayResult → TaskState X
  after_store (ok raw) = TaskState.to_stage raw
  after_store (err x) = TaskState.done_thrown x

  abbrev pub after_stage : StoreRawReplayResult → Result X IngestStagingResult → TaskState X
  after_stage raw (ok staging) = TaskState.done_processed raw staging
  after_stage raw (err x) = TaskState.done_thrown x

module _ {W X : Type 0} where
  -- The existence check, where there is a predicate and an identifier to ask for.
  abbrev pub ask :
      IngestPageInput W X
      → Option (Text → Text → W → W × Result X Bool)
      → Option Text
      → W
      → W × TaskState X
  ask input none id w = (w, TaskState.to_store)
  ask input (some exists) none w = (w, TaskState.to_store)
  ask input (some exists) (some id) w =
      let (w', found) = exists (or_else input.source_system default_source_system) id w in
      (w', after_check found)

  -- The gate before the fetch: the flag, the predicate and a trustworthy identifier.
  unfoldable pub check_step : IngestPageInput W X → ReplayCandidate → W → W × TaskState X
  check_step input candidate w =
      if input.prefetch_dedup && is_trustworthy_id candidate.source.external_id
      then ask input input.exists_by_source_identity candidate.source.external_id w
      else (w, TaskState.to_store)

  -- One step of a task, up to the next await; a task that has ended stays.
  unfoldable pub step_state :
      IngestPageInput W X → ReplayCandidate → TaskState X → W → W × TaskState X
  step_state input candidate TaskState.to_check w = check_step input candidate w
  step_state input candidate TaskState.to_store w =
      let (w', raw) = input.store_raw_replay candidate w in (w', after_store raw)
  step_state input candidate (TaskState.to_stage raw) w =
      let (w', staging) = input.stage_raw_replay raw w in (w', after_stage raw staging)
  step_state input candidate done w = (w, done)

  abbrev pub step_task : IngestPageInput W X → Task X → W → W × Task X
  step_task input t w =
      let (w', s) = step_state input t.candidate t.state w in (w', record t { state = s })

  -- A step of the task at a position; past the end nothing happens.
  unfoldable pub step_at : IngestPageInput W X → ℕ → List (Task X) → W → W × List (Task X)
  step_at input n [] w = (w, [])
  step_at input zero (t ∷ ts) w = let (w', t') = step_task input t w in (w', t' ∷ ts)
  step_at input (suc n) (t ∷ ts) w = let (w', ts') = step_at input n ts w in (w', t ∷ ts')

  unfoldable pub run_schedule : IngestPageInput W X → List ℕ → List (Task X) → W → W × List (Task X)
  run_schedule input [] ts w = (w, ts)
  run_schedule input (n ∷ ns) ts w =
      let (w', ts') = step_at input n ts w in run_schedule input ns ts' w'

-- `input.candidates.map((candidate, index) => …)`
unfoldable pub start_tasks : {X : Type 0} → ℕ → List ReplayCandidate → List (Task X)
start_tasks index [] = []
start_tasks index (c ∷ cs) =
    record { candidate = c; index = index; state = TaskState.to_check } ∷ start_tasks (index + 1) cs

-- What `ingestPage` comes to: its result, what it throws, or tasks that have not settled yet.
pub data IngestOutcome (X : Type 0) : Type 0 where
  completed : IngestPageResult → IngestOutcome X
  threw : X → IngestOutcome X
  pending : IngestOutcome X

module _ {X : Type 0} where
  abbrev pub settled_state : ℕ → TaskState X → Option (Settled X)
  settled_state index TaskState.done_skipped = some (fulfilled (skipped index))
  settled_state index (TaskState.done_processed raw staging) =
      some (fulfilled (processed index raw staging))
  settled_state index (TaskState.done_thrown x) = some (rejected x)
  settled_state index _ = none

  abbrev pub cons_settled :
      Option (Settled X) → Option (List (Settled X)) → Option (List (Settled X))
  cons_settled (some s) (some ss) = some (s ∷ ss)
  cons_settled _ _ = none

  -- `Promise.allSettled`: the results in the order of the candidates, once all have settled.
  unfoldable pub all_settled : List (Task X) → Option (List (Settled X))
  all_settled [] = some []
  all_settled (t ∷ ts) = cons_settled (settled_state t.index t.state) (all_settled ts)

  -- `rethrowProgrammerError`: the reason of the first rejected result.
  unfoldable pub first_rejection : List (Settled X) → Option X
  first_rejection [] = none
  first_rejection (rejected x ∷ ss) = some x
  first_rejection (fulfilled v ∷ ss) = first_rejection ss

  unfoldable pub fulfilled_values : List (Settled X) → List SettledCandidate
  fulfilled_values [] = []
  fulfilled_values (rejected x ∷ ss) = fulfilled_values ss
  fulfilled_values (fulfilled v ∷ ss) = v ∷ fulfilled_values ss

abbrev pub index_of : SettledCandidate → ℕ
index_of (processed index raw staging) = index
index_of (skipped index) = index

-- `toSorted((left, right) => left.index - right.index)`, which is stable.
unfoldable pub insert_by_index : SettledCandidate → List SettledCandidate → List SettledCandidate
insert_by_index v [] = v ∷ []
insert_by_index v (u ∷ us) =
    let rest = insert_by_index v us in
    if leb (index_of v) (index_of u) then v ∷ u ∷ us else u ∷ rest

unfoldable pub sort_by_index : List SettledCandidate → List SettledCandidate
sort_by_index [] = []
sort_by_index (v ∷ vs) = insert_by_index v (sort_by_index vs)

unfoldable pub fulfilled_in_order : {X : Type 0} → List (Settled X) → List SettledCandidate
fulfilled_in_order settled = sort_by_index (fulfilled_values settled)

abbrev pub new_page_counts : ℕ → IngestPageCounts
new_page_counts discovered = record {
  discovered = discovered;
  failed = 0;
  skipped_by_source_id = 0;
  staged = 0;
  stored = 0;
}

abbrev pub tally_raw_result : RawReplayStorageStatus → IngestPageCounts → IngestPageCounts
tally_raw_result RawReplayStorageStatus.stored c = record c { stored = c.stored + 1 }
tally_raw_result RawReplayStorageStatus.failed c = record c { failed = c.failed + 1 }
tally_raw_result _ c = c

abbrev pub tally_staging_result : StagingOutcomeStatus → IngestPageCounts → IngestPageCounts
tally_staging_result StagingOutcomeStatus.staged c = record c { staged = c.staged + 1 }
tally_staging_result StagingOutcomeStatus.failed c = record c { failed = c.failed + 1 }
tally_staging_result _ c = c

-- The body of the loop over the settled candidates.
abbrev pub tally_one : SettledCandidate → IngestPageResult → IngestPageResult
tally_one (skipped index) r =
    let c = r.counts in
    record r { counts = record c { skipped_by_source_id = c.skipped_by_source_id + 1 } }
tally_one (processed index raw staging) r = record {
  counts = tally_staging_result staging.status (tally_raw_result (raw_status raw) r.counts);
  raw_storage = r.raw_storage ++ raw ∷ [];
  staging = r.staging ++ staging ∷ [];
}

unfoldable pub tally : List SettledCandidate → IngestPageResult → IngestPageResult
tally [] r = r
tally (v ∷ vs) r = tally vs (tally_one v r)

abbrev pub empty_page : ℕ → IngestPageResult
empty_page discovered = record {
  counts = new_page_counts discovered;
  raw_storage = [];
  staging = [];
}

module _ {X : Type 0} where
  unfoldable pub gather : ℕ → Option (List (Settled X)) → IngestOutcome X
  gather discovered none = pending
  gather discovered (some settled) = elim (first_rejection settled) [
    | some x ↦ threw x
    | none ↦ completed (tally (fulfilled_in_order settled) (empty_page discovered))
  ]

unfoldable pub ingest_page :
    {W X : Type 0} → IngestPageInput W X → List ReplayCandidate → List ℕ → W → W × IngestOutcome X
ingest_page input candidates schedule w =
    let (w', ts) = run_schedule input schedule (start_tasks 0 candidates) w in
    (w', gather (length candidates) (all_settled ts))
