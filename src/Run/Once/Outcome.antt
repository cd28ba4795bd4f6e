-- ===== src/Run/Once/Outcome.antt =====
-- src/run/run-once.ts: the whole run and its exit code.
use mathlib.Core.Path.{subst}
use replays_fetcher.Base.{
  Result-cases, ℕ, ◌≡◌, refl, ap, some, Text, All, true, inl, inr, arith, Result, ok, err,
}
use replays_fetcher.Types.{RunStatus}
use replays_fetcher.Run.Summary.{BuildRunSummaryInput, build_run_summary, run_exit_code}
use replays_fetcher.Run.Summary.Verdict.{RawFine, StagingFine, exit_code_zero_iff}
use replays_fetcher.Run.Once.Types.{RunOnceInput, RunOnceResult, LoopState}
use replays_fetcher.Run.Ingest.Matches.{Matched}
use replays_fetcher.Run.Once.Met.{Met, MetIfOk, run_page_loop-Met, read-Met}
use replays_fetcher.Run.Once.Rule.{LoopOk}
use replays_fetcher.Run.Once.Resume.{build_loop_state}
use replays_fetcher.Run.Once.Loop.{
  RunIdentity, StopReason, cap, LoopOutcome, stopped, loop_throws, loop_stalled, out_of_fuel,
}
use replays_fetcher.Run.Once.Result.{
  RunOutcome, mark_cap, status_of, finished, assemble_result, settle_run, run_from, run_once,
}

-- The run is complete, and the candidates that it met have results, which are stored and staged.
pub record IsSuccess {W X : Type 0} (input : RunOnceInput W X) (r : RunOnceResult) : Type 0 where
  pub met : Matched input.ingest r.summary.candidates r.summary.raw_storage r.summary.staging
  pub status_complete : r.summary.status ≡ some RunStatus.complete
  pub all_stored : All RawFine r.summary.raw_storage
  pub all_staged : All StagingFine r.summary.staging

finished_injective :
    (X : Type 0) (o : RunOutcome X) (a b : RunOnceResult) → o ≡ finished a → o ≡ finished b → a ≡ b
finished_injective X o a b h k = cc

module _ {W X : Type 0} (input : RunOnceInput W X) where
  build_run_summary-IsSuccess :
      (i : BuildRunSummaryInput) (status : RunStatus)
      → i.status ≡ some status
      → (i.discovery_report.ok ≡ true
          → Matched input.ingest i.discovery_report.candidates i.raw_storage i.staging)
      → run_exit_code (build_run_summary i).ok (build_run_summary i).status ≡ 0
      → IsSuccess input (record {
        exit_code = run_exit_code (build_run_summary i).ok (build_run_summary i).status;
        summary = build_run_summary i;
      })
  unfolding build_run_summary
  build_run_summary-IsSuccess i status h m e =
      let (complete, report, stored, staged) = (exit_code_zero_iff i).0.0 e in
      record {
        met = m report;
        status_complete = ground (arith, h, complete);
        all_stored = stored;
        all_staged = staged;
      }

  assemble_result-IsSuccess :
      (id : RunIdentity) (s : LoopState) (w : W)
      → MetIfOk input s
      → (assemble_result input id s w).1.exit_code ≡ 0
      → IsSuccess input (assemble_result input id s w).1
  unfolding assemble_result
  assemble_result-IsSuccess id s w m e = build_run_summary-IsSuccess _ (status_of s) refl m e

  mark_cap-Met :
      (reason : StopReason) (s : LoopState) → MetIfOk input s → MetIfOk input (mark_cap reason s)
  mark_cap-Met cap s m = m
  mark_cap-Met _ s m = m

  settle_run-IsSuccess :
      (id : RunIdentity) (o : W × LoopOutcome X) (r : RunOnceResult)
      → LoopOk input id (λ page p. Met input p.state) (λ reason p. MetIfOk input p.state) o.1
      → (settle_run input id o).1 ≡ finished r
      → r.exit_code ≡ 0
      → IsSuccess input r
  settle_run-IsSuccess id (w, stopped reason p) r m h e =
      let (_, result) = assemble_result input id (mark_cap reason p.state) w in
      let same = finished_injective X _ result r refl h in
      subst (IsSuccess input) same (
        assemble_result-IsSuccess id (mark_cap reason p.state) w (mark_cap-Met reason p.state m)
          (ground (arith, ap (λ x. x.exit_code) same, e)))
  settle_run-IsSuccess id (w, loop_throws x) r m h e = cc
  settle_run-IsSuccess id (w, loop_stalled) r m h e = cc
  settle_run-IsSuccess id (w, out_of_fuel) r m h e = cc

  -- A start without results and without candidates.
  abbrev StartOk : W × Result X LoopState → Type 0
  StartOk (w, ok s) = Met input s
  StartOk (w, err x) = Unit

  run_from-IsSuccess :
      (id : RunIdentity) (fuel : ℕ) (start : W × Result X LoopState) (r : RunOnceResult)
      → StartOk start
      → (run_from input id fuel start).1 ≡ finished r
      → r.exit_code ≡ 0
      → IsSuccess input r
  run_from-IsSuccess id fuel (w, ok s) r m h e =
      settle_run-IsSuccess id _ r (run_page_loop-Met input id fuel _ _ w m) h e
  run_from-IsSuccess id fuel (w, err x) r m h e = cc

  build_loop_state-StartOk : (slug : Text) (w : W) → StartOk (build_loop_state input slug w)
  unfolding build_loop_state
  build_loop_state-StartOk slug w = elim (Result-cases (input.read_checkpoint slug w).1) [
    | inl (a, fine) ↦ rw (fine, build_loop_state) (read-Met input slug _ a)
    | inr (x, failed) ↦ rw (failed, build_loop_state) tt
  ]

  -- A run that finishes with exit code 0 is complete. Going through the candidates that its pages
  -- reported, in order, each has the next stored result, which the store answered for it, and beside it
  -- the next staging result, which the staging answered for that; or, where the gate before the fetch is
  -- on, the gate skipped it. Every stored result says that the replay was stored or there already, and
  -- every staging result that it was staged or there already.
  pub run_once-IsSuccess :
      (slug : Text) (fuel : ℕ) (w : W) (r : RunOnceResult)
      → (run_once input slug fuel w).1 ≡ finished r
      → r.exit_code ≡ 0
      → IsSuccess input r
  unfolding run_once
  run_once-IsSuccess slug fuel w r h e =
      run_from-IsSuccess (record { slug = slug; started_at = input.to_iso (input.now w) }) fuel
        (build_loop_state input slug w) r (build_loop_state-StartOk slug w) h e
