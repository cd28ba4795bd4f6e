-- ===== src/Run/Watch/Trace.antt =====
-- src/run/watch-loop.ts: the events of the loop and its end.
use replays_fetcher.Base.{
  ℕ, zero, suc, ◌+◌, ◌≤◌, ◌<◌, ◌≡◌, ◌≢◌, Option, none, some, Bool, true, false, List, [], ◌∷◌,
  Bool-cases, inl, inr, arith, Result, ok, err,
}
use replays_fetcher.Types.{CompactRunSummary}
use replays_fetcher.Source.Pacing.{Pacer, create_pacer}
use replays_fetcher.Run.Watch.Endings.{Ended, watch_cycles-Ended}
use replays_fetcher.Run.Watch.Defs.{
  WatchLoopInput, WatchEvent, watch_cycle_complete, heartbeat, watch_cycle_failed, slept,
  CycleOutcome, cycle_done, cycle_throws, cycle_stalled, WatchResult, WatchRun, after_heartbeat,
  run_cycle, after_cycle, after_attempt, watch_cycles, run_watch_loop,
}

module _ {X : Type 0} where
  -- The events from the start of a cycle on (`true`), or from the end of one (`false`): a cycle is
  -- completed and followed by its heartbeat or by the failure to write it, or it fails; between two
  -- cycles there is a sleep.
  abbrev pub IsTrace : Bool → List (WatchEvent X) → Type 0
  IsTrace cycle [] = Unit
  IsTrace true (watch_cycle_complete s ∷ heartbeat ∷ es) = IsTrace false es
  IsTrace true (watch_cycle_complete s ∷ watch_cycle_failed x ∷ es) = IsTrace false es
  IsTrace true (watch_cycle_failed x ∷ es) = IsTrace false es
  IsTrace false (slept ∷ es) = IsTrace true es
  IsTrace _ _ = ⊥

module _ {W X : Type 0} (input : WatchLoopInput W X) where
  after_heartbeat-IsTrace :
      (s : CompactRunSummary) (written : W × Result X (Unit {0})) (next : W → WatchRun W X)
      → ((w : W) → IsTrace true (next w).events)
      → IsTrace true (after_attempt input (after_heartbeat s written) next).events
  after_heartbeat-IsTrace s (w, ok _) next h = elim (Bool-cases (input.should_stop w)) [
    | inl stop ↦ rw stop tt
    | inr go ↦ rw go (h (input.sleep input.interval_ms w))
  ]
  after_heartbeat-IsTrace s (w, err x) next h = elim (Bool-cases (input.should_stop w)) [
    | inl stop ↦ rw stop tt
    | inr go ↦ rw go (h (input.sleep input.interval_ms w))
  ]

  after_attempt-IsTrace :
      (cycle : W × CycleOutcome X) (next : W → WatchRun W X)
      → ((w : W) → IsTrace true (next w).events)
      → IsTrace true (after_attempt input (after_cycle input cycle) next).events
  after_attempt-IsTrace (w, cycle_done s) next h =
      let (w', written) = input.write_heartbeat (input.to_iso (input.now w)) w in
      after_heartbeat-IsTrace s (w', written) next h
  after_attempt-IsTrace (w, cycle_throws x) next h = elim (Bool-cases (input.should_stop w)) [
    | inl stop ↦ rw stop tt
    | inr go ↦ rw go (h (input.sleep input.interval_ms w))
  ]
  after_attempt-IsTrace (w, cycle_stalled) next h = tt

  watch_cycles-IsTrace :
      (fuel : ℕ) (pacer : Pacer) (w : W) → IsTrace true (watch_cycles input fuel pacer w).events
  unfolding watch_cycles
  watch_cycles-IsTrace zero pacer w = tt
  watch_cycles-IsTrace (suc fuel) pacer w = elim (Bool-cases (input.should_stop w)) [
    | inl stop ↦ rw stop tt
    | inr go ↦ rw go (
        after_attempt-IsTrace (run_cycle input pacer w).1
          (watch_cycles input fuel (run_cycle input pacer w).0)
          (watch_cycles-IsTrace fuel (run_cycle input pacer w).0))
  ]

  -- Whatever a cycle throws, the loop goes on: it ends only with the signal to stop, in a cycle that
  -- waits for a task that never settles, or, in the model, after all the rounds that it was given, with
  -- a sleep after each. Its events are cycles with a sleep between any two, a cycle being completed and
  -- then followed by its heartbeat or by the failure to write it, or failed. So there is a heartbeat only
  -- right after a cycle that was completed.
  pub run_watch_loop-IsTrace :
      (fuel : ℕ) (w : W)
      → let run = run_watch_loop input fuel w in IsTrace true run.events × Ended input fuel run
  unfolding run_watch_loop
  run_watch_loop-IsTrace fuel w =
      let pacer = create_pacer input.request_spacing_ms in
      (watch_cycles-IsTrace fuel pacer w, watch_cycles-Ended input fuel pacer w)

-- The signal to stop comes by the time that `clock` reads `limit`: a cycle and its heartbeat do not
-- turn the clock back, the sleep between two cycles moves it on, and from `limit` on the signal is
-- there.
pub record StopsBy {W X : Type 0} (input : WatchLoopInput W X) (clock : W → ℕ) (limit : ℕ)
    : Type 0 where
  pub cycle_keeps :
      (pacer : Pacer) (w : W) → clock w ≤ clock (after_cycle input (run_cycle input pacer w).1).0
  pub sleep_advances : (w : W) → clock w < clock (input.sleep input.interval_ms w)
  pub signalled : (w : W) → limit ≤ clock w → input.should_stop w ≡ true

module _ {W X : Type 0} (input : WatchLoopInput W X) (clock : W → ℕ) (limit : ℕ) where
  after_attempt-ends :
      (s : StopsBy input clock limit) (least fuel : ℕ) (done : W × Option (List (WatchEvent X)))
      (next : W → WatchRun W X)
      → least ≤ clock done.0
      → limit < suc fuel + least
      → ((w : W)
          → 0 < fuel
          → limit < fuel + clock w
          → (next w).result ≢ WatchResult.watch_out_of_fuel)
      → (after_attempt input done next).result ≢ WatchResult.watch_out_of_fuel
  after_attempt-ends s least fuel (w, none) next k b h = λ e. cc
  after_attempt-ends s least fuel (w, some events) next k b h =
      elim (Bool-cases (input.should_stop w)) [
        | inl stop ↦ rw stop (λ e. cc)
        | inr go ↦ rw go (
            h (input.sleep input.interval_ms w) (ground (arith, go, s.signalled w))
              (omega (arith, s.sleep_advances w)))
      ]

  watch_cycles-ends :
      (s : StopsBy input clock limit) (fuel : ℕ) (pacer : Pacer) (w : W)
      → 0 < fuel
      → limit < fuel + clock w
      → (watch_cycles input fuel pacer w).result ≢ WatchResult.watch_out_of_fuel
  unfolding watch_cycles
  watch_cycles-ends s zero pacer w f b = omega arith
  watch_cycles-ends s (suc fuel) pacer w f b = elim (Bool-cases (input.should_stop w)) [
    | inl stop ↦ rw stop (λ e. cc)
    | inr go ↦ rw go (
        after_attempt-ends s (clock w) fuel (after_cycle input (run_cycle input pacer w).1)
          (watch_cycles input fuel (run_cycle input pacer w).0) (s.cycle_keeps pacer w) b
          (watch_cycles-ends s fuel (run_cycle input pacer w).0))
  ]

  -- Where the signal to stop comes in time, the loop needs no more rounds than the clock has to go: it
  -- ends with exit code 0, unless a cycle waits for a task that never settles.
  pub run_watch_loop_ends :
      (fuel : ℕ) (w : W)
      → StopsBy input clock limit
      → 0 < fuel
      → limit < fuel + clock w
      → (run_watch_loop input fuel w).result ≢ WatchResult.watch_out_of_fuel
  unfolding run_watch_loop
  run_watch_loop_ends fuel w s f b =
      watch_cycles-ends s fuel (create_pacer input.request_spacing_ms) w f b
