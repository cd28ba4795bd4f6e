-- ===== src/Run/Ingest/Counts.antt =====
-- src/run/ingest-page.ts: the counts of a page and its results.
use replays_fetcher.Base.{
  ℕ, zero, suc, ◌+◌, ◌≡◌, refl, Option, none, some, List, [], ◌∷◌, length, count_if-append,
  length-append, arith, Option-cases, inl, inr, ap, ◌∙◌,
}
use replays_fetcher.Types.{ReplayCandidate, raw_status}
use replays_fetcher.Run.Summary.{
  count_raw, count_status, is_raw_stored, is_raw_failed, is_staged, is_staging_failed,
}
use replays_fetcher.Run.Ingest.Defs.{
  IngestPageResult, IngestPageInput, SettledCandidate, processed, skipped, Settled, fulfilled,
  rejected, Task, step_at, run_schedule, start_tasks, completed, all_settled, first_rejection,
  fulfilled_values, insert_by_index, sort_by_index, fulfilled_in_order, tally_one, tally,
  empty_page, gather, ingest_page,
}

-- The counts of a page agree with its results.
pub record IsTallied (r : IngestPageResult) : Type 0 where
  pub stored_counted : r.counts.stored ≡ count_raw is_raw_stored r.raw_storage
  pub staged_counted : r.counts.staged ≡ count_status is_staged r.staging
  pub failed_counted :
      r.counts.failed
      ≡ count_raw is_raw_failed r.raw_storage + count_status is_staging_failed r.staging
  pub paired : length r.raw_storage ≡ length r.staging

tally_one-IsTallied :
    (v : SettledCandidate) (r : IngestPageResult) → IsTallied r → IsTallied (tally_one v r)
tally_one-IsTallied (skipped i) r h = ground arith
tally_one-IsTallied (processed i raw staging) r h = ground (
  arith,
  count_if-append (λ x. is_raw_stored (raw_status x)) r.raw_storage (raw ∷ []),
  count_if-append (λ x. is_raw_failed (raw_status x)) r.raw_storage (raw ∷ []),
  count_if-append (λ x. is_staged x.status) r.staging (staging ∷ []),
  count_if-append (λ x. is_staging_failed x.status) r.staging (staging ∷ []),
  length-append r.raw_storage (raw ∷ []),
  length-append r.staging (staging ∷ []),
)

tally-IsTallied :
    (vs : List SettledCandidate) (r : IngestPageResult) → IsTallied r → IsTallied (tally vs r)
unfolding tally
tally-IsTallied [] r h = h
tally-IsTallied (v ∷ vs) r h = tally-IsTallied vs (tally_one v r) (tally_one-IsTallied v r h)

-- Every settled candidate is either skipped or stored, and the number of candidates stays.
tally_one-accounts :
    (v : SettledCandidate) (r : IngestPageResult)
    → ((tally_one v r).counts.discovered ≡ r.counts.discovered)
      × ((tally_one v r).counts.skipped_by_source_id + length (tally_one v r).raw_storage
          ≡ suc (r.counts.skipped_by_source_id + length r.raw_storage))
tally_one-accounts (skipped i) r = ground arith
tally_one-accounts (processed i raw staging) r =
    ground (arith, length-append r.raw_storage (raw ∷ []))

tally-accounts :
    (vs : List SettledCandidate) (r : IngestPageResult)
    → ((tally vs r).counts.discovered ≡ r.counts.discovered)
      × ((tally vs r).counts.skipped_by_source_id + length (tally vs r).raw_storage
          ≡ length vs + (r.counts.skipped_by_source_id + length r.raw_storage))
unfolding tally
tally-accounts [] r = (refl, omega arith)
tally-accounts (v ∷ vs) r =
    let (d, e) = tally_one-accounts v r in
    let (d', e') = tally-accounts vs (tally_one v r) in (d' ∙ d, omega (arith, e, e'))

length-insert_by_index :
    (v : SettledCandidate) (vs : List SettledCandidate)
    → length (insert_by_index v vs) ≡ suc (length vs)
unfolding insert_by_index
length-insert_by_index v [] = refl
length-insert_by_index v (u ∷ us) = ground (arith, length-insert_by_index v us)

length-sort_by_index : (vs : List SettledCandidate) → length (sort_by_index vs) ≡ length vs
unfolding sort_by_index
length-sort_by_index [] = refl
length-sort_by_index (v ∷ vs) =
    length-insert_by_index v (sort_by_index vs) ∙ ap suc (length-sort_by_index vs)

pub length-start_tasks :
    (X : Type 0) (n : ℕ) (cs : List ReplayCandidate) → length (start_tasks {X = X} n cs) ≡ length cs
unfolding start_tasks
length-start_tasks X n [] = refl
length-start_tasks X n (c ∷ cs) = ap suc (length-start_tasks X (n + 1) cs)

module _ {X : Type 0} where
  length-fulfilled_values :
      (ss : List (Settled X)) → first_rejection ss ≡ none → length (fulfilled_values ss) ≡ length ss
  unfolding fulfilled_values first_rejection
  length-fulfilled_values [] h = refl
  length-fulfilled_values (rejected x ∷ ss) h = cc
  length-fulfilled_values (fulfilled v ∷ ss) h = ap suc (length-fulfilled_values ss h)

  length-all_settled :
      (ts : List (Task X)) (ss : List (Settled X))
      → all_settled ts ≡ some ss
      → length ss ≡ length ts
  unfolding all_settled
  length-all_settled [] ss h = ground arith
  length-all_settled (t ∷ ts) [] h = ground arith
  length-all_settled (t ∷ ts) (s ∷ ss) h = ground (arith, length-all_settled ts ss)

  pub gather-completed :
      (discovered : ℕ) (settled : Option (List (Settled X))) (r : IngestPageResult)
      → gather discovered settled ≡ completed r
      → (ss : List (Settled X)) × (settled ≡ some ss)
        × (first_rejection ss ≡ none)
        × (r ≡ tally (fulfilled_in_order ss) (empty_page discovered))
  unfolding gather
  gather-completed discovered none r h = cc
  gather-completed discovered (some ss) r h = elim (Option-cases (first_rejection ss)) [
    | inl none' ↦ (ss, refl, none', ground arith)
    | inr (x, some') ↦ absurd (ground arith)
  ]

module _ {W X : Type 0} (input : IngestPageInput W X) where
  length-step_at :
      (n : ℕ) (ts : List (Task X)) (w : W) → length (step_at input n ts w).1 ≡ length ts
  unfolding step_at
  length-step_at n [] w = refl
  length-step_at zero (t ∷ ts) w = refl
  length-step_at (suc n) (t ∷ ts) w = ap suc (length-step_at n ts w)

  pub length-run_schedule :
      (ns : List ℕ) (ts : List (Task X)) (w : W) → length (run_schedule input ns ts w).1 ≡ length ts
  unfolding run_schedule
  length-run_schedule [] ts w = refl
  length-run_schedule (n ∷ ns) ts w =
      length-run_schedule ns (step_at input n ts w).1 (step_at input n ts w).0
      ∙ length-step_at n ts w

  -- Where a page is ingested, its counts agree with its results, of which there are as many of the store
  -- as of the staging, and every candidate was skipped or has its result.
  pub ingest_page_counts :
      (candidates : List ReplayCandidate) (schedule : List ℕ) (w : W) (r : IngestPageResult)
      → (ingest_page input candidates schedule w).1 ≡ completed r
      → IsTallied r
        × (r.counts.discovered ≡ length candidates)
        × (r.counts.skipped_by_source_id + length r.raw_storage ≡ length candidates)
  unfolding ingest_page fulfilled_in_order
  ingest_page_counts candidates schedule w r h =
      let start = start_tasks {X = X} 0 candidates in
      let ts = (run_schedule input schedule start w).1 in
      let (ss, all, fine, e) = gather-completed (length candidates) (all_settled ts) r h in
      let vs = sort_by_index (fulfilled_values ss) in
      let page = empty_page (length candidates) in
      let (d, a) = tally-accounts vs page in
      rw e (
        tally-IsTallied vs page (omega arith),
        d,
        omega (
          arith,
          a,
          length-sort_by_index (fulfilled_values ss),
          length-fulfilled_values ss fine,
          length-all_settled ts ss all,
          length-run_schedule schedule start w,
          length-start_tasks X 0 candidates,
        ),
      )
