-- ===== src/Run/Ingest/Schedule.antt =====
-- src/run/ingest-page.ts: the turns of the tasks of a page.
use replays_fetcher.Base.{
  ℕ, zero, suc, ◌+◌, ◌-◌, ◌≤◌, ◌<◌, ◌≡◌, ◌≢◌, refl, Option, none, some, Bool, true, false, List, [],
  ◌∷◌, length, Text, ◌&&◌, arith, Bool-cases, inl, inr, Result, ok, err, ◌==◌, if◌then◌else◌,
}
use replays_fetcher.Types.{ReplayCandidate}
use replays_fetcher.Run.Ingest.Defs.{
  IngestPageInput, processed, skipped, Settled, fulfilled, rejected, TaskState, Task, step_state,
  step_at, run_schedule, start_tasks, pending, settled_state, all_settled, gather, ingest_page, ask,
  is_trustworthy_id, check_step, after_check,
}
use replays_fetcher.Run.Ingest.Counts.{length-run_schedule, length-start_tasks}

-- How many steps a task may still make.
abbrev steps_left : {X : Type 0} → TaskState X → ℕ
steps_left TaskState.to_check = 3
steps_left TaskState.to_store = 2
steps_left (TaskState.to_stage raw) = 1
steps_left _ = 0

abbrev left_at : {X : Type 0} → ℕ → List (Task X) → ℕ
left_at n [] = 0
left_at zero (t ∷ ts) = steps_left t.state
left_at (suc n) (t ∷ ts) = left_at n ts

-- How often the schedule gives a step to the task at a position.
abbrev pub turns : ℕ → List ℕ → ℕ
turns i [] = 0
turns i (n ∷ ns) = let rest = turns i ns in if i == n then suc rest else rest

after_check-steps : {X : Type 0} (r : Result X Bool) → steps_left (after_check r) ≤ 2
after_check-steps (ok true) = omega arith
after_check-steps (ok false) = omega arith
after_check-steps (err x) = omega arith

module _ {W X : Type 0} (input : IngestPageInput W X) where
  ask-steps :
      (e : Option (Text → Text → W → W × Result X Bool)) (id : Option Text) (w : W)
      → steps_left (ask input e id w).1 ≤ 2
  ask-steps none id w = omega arith
  ask-steps (some exists) none w = omega arith
  ask-steps (some exists) (some id) w = after_check-steps _

  check_step-steps : (c : ReplayCandidate) (w : W) → steps_left (check_step input c w).1 ≤ 2
  unfolding check_step
  check_step-steps c w =
      elim (Bool-cases (input.prefetch_dedup && is_trustworthy_id c.source.external_id)) [
        | inl gate ↦ rw gate (ask-steps input.exists_by_source_identity c.source.external_id w)
        | inr no_gate ↦ rw no_gate (omega arith)
      ]

  step_state-steps :
      (c : ReplayCandidate) (s : TaskState X) (w : W)
      → steps_left (step_state input c s w).1 ≤ steps_left s - 1
  unfolding step_state
  step_state-steps c TaskState.to_check w = check_step-steps c w
  step_state-steps c TaskState.to_store w = ground arith
  step_state-steps c (TaskState.to_stage raw) w = ground arith
  step_state-steps c _ w = omega arith

  left_at-step_at :
      (i n : ℕ) (ts : List (Task X)) (w : W)
      → left_at i (step_at input n ts w).1 ≤ left_at i ts - (if i == n then 1 else 0)
  unfolding step_at
  left_at-step_at i n [] w = omega arith
  left_at-step_at zero zero (t ∷ ts) w = step_state-steps t.candidate t.state w
  left_at-step_at zero (suc n) (t ∷ ts) w = ground arith
  left_at-step_at (suc i) zero (t ∷ ts) w = ground arith
  left_at-step_at (suc i) (suc n) (t ∷ ts) w = ground (arith, left_at-step_at i n ts w)

  left_at-run_schedule :
      (i : ℕ) (ns : List ℕ) (ts : List (Task X)) (w : W)
      → left_at i (run_schedule input ns ts w).1 ≤ left_at i ts - turns i ns
  unfolding run_schedule
  left_at-run_schedule i [] ts w = omega arith
  left_at-run_schedule i (n ∷ ns) ts w = ground (
    arith,
    left_at-step_at i n ts w,
    left_at-run_schedule i ns (step_at input n ts w).1 (step_at input n ts w).0,
  )

left_at-start :
    (X : Type 0) (i n : ℕ) (cs : List ReplayCandidate) → left_at i (start_tasks {X = X} n cs) ≤ 3
unfolding start_tasks
left_at-start X i n [] = omega arith
left_at-start X zero n (c ∷ cs) = omega arith
left_at-start X (suc i) n (c ∷ cs) = left_at-start X i (n + 1) cs

settled_state-done :
    {X : Type 0} (n : ℕ) (s : TaskState X)
    → steps_left s ≡ 0
    → (r : Settled X) × (settled_state n s ≡ some r)
settled_state-done n TaskState.to_check h = absurd (omega arith)
settled_state-done n TaskState.to_store h = absurd (omega arith)
settled_state-done n (TaskState.to_stage raw) h = absurd (omega arith)
settled_state-done n TaskState.done_skipped h = (fulfilled (skipped n), refl)
settled_state-done n (TaskState.done_processed raw staging) h =
    (fulfilled (processed n raw staging), refl)
settled_state-done n (TaskState.done_thrown x) h = (rejected x, refl)

all_settled-done :
    {X : Type 0} (ts : List (Task X))
    → ((i : ℕ) → i < length ts → left_at i ts ≡ 0)
    → (ss : List (Settled X)) × (all_settled ts ≡ some ss)
unfolding all_settled
all_settled-done [] h = ([], refl)
all_settled-done (t ∷ ts) h =
    let (s, e) = settled_state-done t.index t.state (h 0 (omega arith)) in
    let (ss, e') = all_settled-done ts (λ i lt. h (suc i) (omega arith)) in (s ∷ ss, rw (e, e'))

gather-some : {X : Type 0} (n : ℕ) (ss : List (Settled X)) → gather n (some ss) ≢ pending
unfolding gather
gather-some n ss = ground arith

-- Under a schedule that gives every task of the page three turns, in whatever order, the page
-- settles: it is completed, or throws what a task threw.
pub ingest_page_settles :
    {W X : Type 0} (input : IngestPageInput W X) (candidates : List ReplayCandidate)
    (schedule : List ℕ) (w : W)
    → ((i : ℕ) → i < length candidates → 3 ≤ turns i schedule)
    → (ingest_page input candidates schedule w).1 ≢ pending
unfolding ingest_page
ingest_page_settles {W} {X} input candidates schedule w fair =
    let start = start_tasks {X = X} 0 candidates in
    let ts = (run_schedule input schedule start w).1 in
    let (ss, e) = all_settled-done ts (λ i lt. omega (
      arith,
      left_at-run_schedule input i schedule start w,
      left_at-start X i 0 candidates,
      fair i (
          omega
            (arith, length-run_schedule input schedule start w, length-start_tasks X 0 candidates)),
    )) in
    rw e (gather-some (length candidates) ss)
