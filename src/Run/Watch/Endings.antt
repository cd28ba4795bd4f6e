-- ===== src/Run/Watch/Endings.antt =====
-- src/run/watch-loop.ts: the ways in which the loop ends.
use replays_fetcher.Base.{
  ℕ, zero, suc, ◌≡◌, refl, ap, true, List, [], ◌∷◌, Bool-cases, inl, inr, Result, ok, err,
}
use replays_fetcher.Types.{CompactRunSummary}
use replays_fetcher.Source.Pacing.{Pacer}
use replays_fetcher.Run.Watch.Defs.{
  WatchLoopInput, WatchEvent, slept, CycleOutcome, cycle_done, cycle_throws, cycle_stalled,
  WatchResult, WatchRun, after_heartbeat, run_cycle, after_cycle, after_attempt, watch_cycles,
}

-- How many sleeps there are between cycles.
abbrev pub sleeps : {X : Type 0} → List (WatchEvent X) → ℕ
sleeps [] = 0
sleeps (slept ∷ es) = suc (sleeps es)
sleeps (_ ∷ es) = sleeps es

module _ {W X : Type 0} (input : WatchLoopInput W X) where
  -- Why a loop of `fuel` rounds ended, after `n` sleeps: the signal to stop was there, a cycle waits for
  -- a task that never settles, or every round was made and slept after.
  abbrev pub EndedAs : ℕ → WatchResult → ℕ → W → Type 0
  EndedAs fuel WatchResult.exit_zero n w = input.should_stop w ≡ true
  EndedAs fuel WatchResult.watch_stalled n w =
      (pacer : Pacer) × (start : W) × ((run_cycle input pacer start).1 ≡ (w, cycle_stalled))
  EndedAs fuel WatchResult.watch_out_of_fuel n w = n ≡ fuel

  abbrev pub Ended : ℕ → WatchRun W X → Type 0
  Ended fuel run = EndedAs fuel run.result (sleeps run.events) run.world

  one_more :
      (fuel : ℕ) (result : WatchResult) (n : ℕ) (w : W)
      → EndedAs fuel result n w
      → EndedAs (suc fuel) result (suc n) w
  one_more fuel WatchResult.exit_zero n w h = h
  one_more fuel WatchResult.watch_stalled n w h = h
  one_more fuel WatchResult.watch_out_of_fuel n w h = ap suc h

  next-Ended :
      (fuel : ℕ) (next : W → WatchRun W X) (w : W)
      → ((w : W) → Ended fuel (next w))
      → EndedAs (suc fuel) (next w).result (suc (sleeps (next w).events)) (next w).world
  next-Ended fuel next w h =
      one_more fuel (next w).result (sleeps (next w).events) (next w).world (h w)

  after_heartbeat-Ended :
      (fuel : ℕ) (s : CompactRunSummary) (written : W × Result X (Unit {0}))
      (next : W → WatchRun W X)
      → ((w : W) → Ended fuel (next w))
      → Ended (suc fuel) (after_attempt input (after_heartbeat s written) next)
  after_heartbeat-Ended fuel s (w, ok _) next h = elim (Bool-cases (input.should_stop w)) [
    | inl stop ↦ rw stop stop
    | inr go ↦ rw go (next-Ended fuel next (input.sleep input.interval_ms w) h)
  ]
  after_heartbeat-Ended fuel s (w, err x) next h = elim (Bool-cases (input.should_stop w)) [
    | inl stop ↦ rw stop stop
    | inr go ↦ rw go (next-Ended fuel next (input.sleep input.interval_ms w) h)
  ]

  after_attempt-Ended :
      (fuel : ℕ) (pacer : Pacer) (start : W) (cycle : W × CycleOutcome X) (next : W → WatchRun W X)
      → (run_cycle input pacer start).1 ≡ cycle
      → ((w : W) → Ended fuel (next w))
      → Ended (suc fuel) (after_attempt input (after_cycle input cycle) next)
  after_attempt-Ended fuel pacer start (w, cycle_done s) next e h =
      let (w', written) = input.write_heartbeat (input.to_iso (input.now w)) w in
      after_heartbeat-Ended fuel s (w', written) next h
  after_attempt-Ended fuel pacer start (w, cycle_throws x) next e h =
      elim (Bool-cases (input.should_stop w)) [
        | inl stop ↦ rw stop stop
        | inr go ↦ rw go (next-Ended fuel next (input.sleep input.interval_ms w) h)
      ]
  after_attempt-Ended fuel pacer start (w, cycle_stalled) next e h = (pacer, start, e)

  pub watch_cycles-Ended :
      (fuel : ℕ) (pacer : Pacer) (w : W) → Ended fuel (watch_cycles input fuel pacer w)
  unfolding watch_cycles
  watch_cycles-Ended zero pacer w = refl
  watch_cycles-Ended (suc fuel) pacer w = elim (Bool-cases (input.should_stop w)) [
    | inl stop ↦ rw stop stop
    | inr go ↦ rw go (
        after_attempt-Ended fuel pacer w (run_cycle input pacer w).1
          (watch_cycles input fuel (run_cycle input pacer w).0) refl
          (watch_cycles-Ended fuel (run_cycle input pacer w).0))
  ]
