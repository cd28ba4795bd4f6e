-- ===== src/Run/Ingest/Gate.antt =====
-- src/run/ingest-page.ts: the gate before the fetch.
use replays_fetcher.Base.{
  ◌≡◌, refl, Option, none, some, Bool, true, false, ◌&&◌, Text, or_else, Bool-cases, inl, inr,
  arith, Result, ok, err,
}
use mathlib.Core.Path.{subst}
use replays_fetcher.Types.{ReplayCandidate}
use replays_fetcher.Staging.{default_source_system}
use replays_fetcher.Run.Ingest.Defs.{
  IngestPageInput, TaskState, is_trustworthy_id, after_check, ask, check_step,
}

module _ {W X : Type 0} (input : IngestPageInput W X) where
  -- The source system that the existence check asks for.
  abbrev pub asked_system : Text
  asked_system = or_else input.source_system default_source_system

  -- A candidate with a trustworthy identifier, and a predicate that finds it staged.
  abbrev pub FoundStaged : ReplayCandidate → W → Type 0
  FoundStaged c w =
      (id : Text) × (exists : Text → Text → W → W × Result X Bool) × (c.source.external_id
        ≡ some id)
      × (is_trustworthy_id (some id) ≡ true)
      × (input.exists_by_source_identity ≡ some exists)
      × ((exists asked_system id w).1 ≡ ok true)

  after_check-skipped : (r : Result X Bool) → after_check r ≡ TaskState.done_skipped → r ≡ ok true
  after_check-skipped (ok true) h = refl
  after_check-skipped (ok false) h = cc
  after_check-skipped (err x) h = cc

  ask-skipped :
      (e : Option (Text → Text → W → W × Result X Bool)) (id : Option Text) (w : W)
      → (ask input e id w).1 ≡ TaskState.done_skipped
      → (i : Text) × (exists : Text → Text → W → W × Result X Bool) × (id ≡ some i)
        × (e ≡ some exists)
        × ((exists asked_system i w).1 ≡ ok true)
  ask-skipped none id w h = cc
  ask-skipped (some exists) none w h = cc
  ask-skipped (some exists) (some i) w h = (i, exists, refl, refl, after_check-skipped _ h)

  -- A candidate is skipped before the fetch only with the flag of the watcher on, and only if it has an
  -- identifier that is not blank and the existence check found that identifier staged: a candidate
  -- without such an identifier is always fetched.
  pub check_step_skips :
      (c : ReplayCandidate) (w : W)
      → (check_step input c w).1 ≡ TaskState.done_skipped
      → (input.prefetch_dedup ≡ true) × FoundStaged c w
  unfolding check_step
  check_step_skips c w h =
      elim (Bool-cases (input.prefetch_dedup && is_trustworthy_id c.source.external_id)) [
        | inl gate ↦
            let (i, exists, has, pred, found) =
              ask-skipped input.exists_by_source_identity c.source.external_id w (rw gate at h) in
            (
              ground arith,
              (
                i,
                exists,
                has,
                subst (λ x. is_trustworthy_id x ≡ true) has (ground arith),
                pred,
                found,
              ),
            )
        | inr no_gate ↦ cc (rw no_gate at h)
      ]
