-- ===== src/Run/Ingest/Tasks.antt =====
-- src/run/ingest-page.ts: what a task of a page holds, under every schedule.
use replays_fetcher.Base.{
  ℕ, zero, suc, ◌+◌, ◌≡◌, refl, Option, none, some, Bool, true, false, List, [], ◌∷◌, Text, ◌&&◌,
  Bool-cases, inl, inr, Result, ok, err, arith,
}
use replays_fetcher.Types.{ReplayCandidate, StoreRawReplayResult, IngestStagingResult}
use replays_fetcher.Run.Ingest.Defs.{
  IngestPageInput, TaskState, Task, after_check, after_store, after_stage, ask, is_trustworthy_id,
  check_step, step_state, step_at, run_schedule, start_tasks,
}

module _ {W X : Type 0} (input : IngestPageInput W X) where
  -- The store answered this for the candidate.
  abbrev pub StoredFrom : ReplayCandidate → StoreRawReplayResult → Type 0
  StoredFrom c raw = (w : W) × ((input.store_raw_replay c w).1 ≡ ok raw)

  -- The staging answered this for the stored result.
  abbrev pub StagedFrom : StoreRawReplayResult → IngestStagingResult → Type 0
  StagedFrom raw staging = (w : W) × ((input.stage_raw_replay raw w).1 ≡ ok staging)

  -- The gate before the fetch is on, and let the candidate be skipped.
  abbrev pub SkippedBy : ReplayCandidate → Type 0
  SkippedBy c =
      (input.prefetch_dedup ≡ true)
      × ((w : W) × ((check_step input c w).1 ≡ TaskState.done_skipped))

  abbrev pub StateOk : ReplayCandidate → TaskState X → Type 0
  StateOk c (TaskState.to_stage raw) = StoredFrom c raw
  StateOk c TaskState.done_skipped = SkippedBy c
  StateOk c (TaskState.done_processed raw staging) = StoredFrom c raw × StagedFrom raw staging
  StateOk c _ = Unit

  -- The states that the check leads to.
  abbrev AfterCheck : TaskState X → Type 0
  AfterCheck TaskState.to_store = Unit
  AfterCheck TaskState.done_skipped = Unit
  AfterCheck (TaskState.done_thrown x) = Unit
  AfterCheck _ = ⊥

  after_check-AfterCheck : (r : Result X Bool) → AfterCheck (after_check r)
  after_check-AfterCheck (ok true) = tt
  after_check-AfterCheck (ok false) = tt
  after_check-AfterCheck (err x) = tt

  ask-AfterCheck :
      (e : Option (Text → Text → W → W × Result X Bool)) (id : Option Text) (w : W)
      → AfterCheck (ask input e id w).1
  ask-AfterCheck none id w = tt
  ask-AfterCheck (some exists) none w = tt
  ask-AfterCheck (some exists) (some id) w = after_check-AfterCheck _

  check_step-AfterCheck : (c : ReplayCandidate) (w : W) → AfterCheck (check_step input c w).1
  unfolding check_step
  check_step-AfterCheck c w =
      elim (Bool-cases (input.prefetch_dedup && is_trustworthy_id c.source.external_id)) [
        | inl gate ↦ rw gate (ask-AfterCheck input.exists_by_source_identity c.source.external_id w)
        | inr no_gate ↦ rw no_gate tt
      ]

  check_step-gate :
      (c : ReplayCandidate) (w : W)
      → (check_step input c w).1 ≡ TaskState.done_skipped
      → input.prefetch_dedup ≡ true
  unfolding check_step
  check_step-gate c w h =
      elim (Bool-cases (input.prefetch_dedup && is_trustworthy_id c.source.external_id)) [
        | inl gate ↦ ground (arith, gate)
        | inr no_gate ↦ absurd (ground (arith, no_gate, h))
      ]

  checked-StateOk :
      (c : ReplayCandidate) (w : W) (s : TaskState X)
      → (check_step input c w).1 ≡ s
      → AfterCheck s
      → StateOk c s
  checked-StateOk c w TaskState.to_store e h = tt
  checked-StateOk c w TaskState.done_skipped e h = (check_step-gate c w e, (w, e))
  checked-StateOk c w (TaskState.done_thrown x) e h = tt
  checked-StateOk c w TaskState.to_check e h = elim h [ ]
  checked-StateOk c w (TaskState.to_stage _) e h = elim h [ ]
  checked-StateOk c w (TaskState.done_processed _ _) e h = elim h [ ]

  stored-StateOk :
      (c : ReplayCandidate) (w : W) (r : Result X StoreRawReplayResult)
      → (input.store_raw_replay c w).1 ≡ r
      → StateOk c (after_store r)
  stored-StateOk c w (ok raw) e = (w, e)
  stored-StateOk c w (err x) e = tt

  staged-StateOk :
      (c : ReplayCandidate) (raw : StoreRawReplayResult) (w : W) (r : Result X IngestStagingResult)
      → StoredFrom c raw
      → (input.stage_raw_replay raw w).1 ≡ r
      → StateOk c (after_stage raw r)
  staged-StateOk c raw w (ok staging) h e = (h, (w, e))
  staged-StateOk c raw w (err x) h e = tt

  step_state-StateOk :
      (c : ReplayCandidate) (s : TaskState X) (w : W)
      → StateOk c s
      → StateOk c (step_state input c s w).1
  unfolding step_state
  step_state-StateOk c TaskState.to_check w h =
      checked-StateOk c w (check_step input c w).1 refl (check_step-AfterCheck c w)
  step_state-StateOk c TaskState.to_store w h =
      stored-StateOk c w (input.store_raw_replay c w).1 refl
  step_state-StateOk c (TaskState.to_stage raw) w h =
      staged-StateOk c raw w (input.stage_raw_replay raw w).1 h refl
  step_state-StateOk c TaskState.done_skipped w h = h
  step_state-StateOk c (TaskState.done_processed raw staging) w h = h
  step_state-StateOk c (TaskState.done_thrown x) w h = tt

  -- The tasks are those of the candidates, numbered from `n` on.
  abbrev pub TasksOf : ℕ → List ReplayCandidate → List (Task X) → Type 0
  TasksOf n [] [] = Unit
  TasksOf n (c ∷ cs) (t ∷ ts) =
      (t.index ≡ n) × (t.candidate ≡ c) × StateOk t.candidate t.state × TasksOf (n + 1) cs ts
  TasksOf n _ _ = ⊥

  start_tasks-TasksOf : (n : ℕ) (cs : List ReplayCandidate) → TasksOf n cs (start_tasks n cs)
  unfolding start_tasks
  start_tasks-TasksOf n [] = tt
  start_tasks-TasksOf n (c ∷ cs) = (refl, refl, tt, start_tasks-TasksOf (n + 1) cs)

  step_at-TasksOf :
      (i n : ℕ) (cs : List ReplayCandidate) (ts : List (Task X)) (w : W)
      → TasksOf n cs ts
      → TasksOf n cs (step_at input i ts w).1
  unfolding step_at
  step_at-TasksOf i n [] [] w h = tt
  step_at-TasksOf i n [] (t ∷ ts) w h = elim h [ ]
  step_at-TasksOf zero n (c ∷ cs) [] w h = elim h [ ]
  step_at-TasksOf (suc k) n (c ∷ cs) [] w h = elim h [ ]
  step_at-TasksOf zero n (c ∷ cs) (t ∷ ts) w (i, e, s, h) =
      (i, e, step_state-StateOk t.candidate t.state w s, h)
  step_at-TasksOf (suc k) n (c ∷ cs) (t ∷ ts) w (i, e, s, h) =
      (i, e, s, step_at-TasksOf k (n + 1) cs ts w h)

  run_schedule-TasksOf :
      (ns : List ℕ) (n : ℕ) (cs : List ReplayCandidate) (ts : List (Task X)) (w : W)
      → TasksOf n cs ts
      → TasksOf n cs (run_schedule input ns ts w).1
  unfolding run_schedule
  run_schedule-TasksOf [] n cs ts w h = h
  run_schedule-TasksOf (i ∷ is) n cs ts w h =
      run_schedule-TasksOf is n cs (step_at input i ts w).1 (step_at input i ts w).0
        (step_at-TasksOf i n cs ts w h)

  -- Whatever the schedule, the tasks of a page stay those of its candidates, in their order.
  pub scheduled-TasksOf :
      (schedule : List ℕ) (cs : List ReplayCandidate) (w : W)
      → TasksOf 0 cs (run_schedule input schedule (start_tasks 0 cs) w).1
  scheduled-TasksOf schedule cs w =
      run_schedule-TasksOf schedule 0 cs (start_tasks 0 cs) w (start_tasks-TasksOf 0 cs)
