-- ===== src/Run/Once/Limiter.antt =====
-- src/run/run-once-page-rate.ts: the limiter over a run.
use replays_fetcher.Base.{
  ℕ, ◌≡◌, ◌==◌, Bool-cases, Option-cases, inl, inr, arith, Result, ok, err, if◌then◌else◌,
}
use mathlib.Core.Path.{subst}
use replays_fetcher.Types.{DiscoveryReport}
use replays_fetcher.Source.Throttle.{create_throttle_controller, on_rate_limited, on_clean_window}
use replays_fetcher.Source.Pacing.{await_floor}
use replays_fetcher.Run.Summary.{derive_source_failure}
use replays_fetcher.Run.Ingest.{IngestPageResult, IngestOutcome, completed, threw, pending}
use replays_fetcher.Run.Once.Types.{RunOnceInput, LoopState, RunRuntime}
use replays_fetcher.Run.Once.Loop.{
  StopReason, Progress, stopped, RunIdentity, build_run_runtime, set_throttle,
  apply_rate_limit_throttle, is_all_duplicate, is_nil, finish_page, after_ingest, complete_ok_page,
  after_discovery, after_discovered, run_page, run_page_loop,
}
use replays_fetcher.Run.Once.Rule.{PageOk, LoopOk, run_page_loop-LoopOk}

-- The throttle at its maximum, with no rate-limited page counted.
pub record IsRelaxed (c : ℕ) (r : RunRuntime) : Type 0 where
  pub limit_full : r.limit_concurrency ≡ c
  pub throttle_full : r.throttle.concurrency ≡ c
  pub throttle_max : r.throttle.max_concurrency ≡ c
  pub no_streak : r.throttle.rate_limited_streak ≡ 0

build_run_runtime-IsRelaxed :
    {W X : Type 0} (input : RunOnceInput W X)
    → IsRelaxed input.concurrency (build_run_runtime input)
unfolding build_run_runtime create_throttle_controller
build_run_runtime-IsRelaxed input = ground arith

clean-IsRelaxed :
    (c now : ℕ) (r : RunRuntime)
    → IsRelaxed c r
    → IsRelaxed c (set_throttle (on_clean_window now r.throttle) r)
unfolding on_clean_window
clean-IsRelaxed c now r h = ground arith

limited-limit :
    (c now : ℕ) (report : DiscoveryReport) (r : RunRuntime)
    → IsRelaxed c r
    → (apply_rate_limit_throttle now report r).limit_concurrency ≡ c
unfolding apply_rate_limit_throttle on_rate_limited
limited-limit c now report r h = elim (Option-cases (derive_source_failure report)) [
  | inl none' ↦ rw (none', apply_rate_limit_throttle) h.limit_full
  | inr (f, some') ↦ rw (some', apply_rate_limit_throttle) (ground arith)
]

module _ {W X : Type 0} (input : RunOnceInput W X) (id : RunIdentity) where
  abbrev P : ℕ → Progress → Type 0
  P page p = IsRelaxed input.concurrency p.runtime

  abbrev Q : StopReason → Progress → Type 0
  Q reason p = p.runtime.limit_concurrency ≡ input.concurrency

  finish_page-ok :
      (page : ℕ) (p : Progress) (result : IngestPageResult) (w : W)
      → P page p
      → PageOk input id P Q page (finish_page input id page p result w).1
  unfolding finish_page
  finish_page-ok page p result w h = elim (Bool-cases (is_all_duplicate result.counts)) [
    | inl dup ↦ rw dup h.limit_full
    | inr more ↦ rw more h
  ]

  after_ingest-ok :
      (page : ℕ) (p : Progress) (o : W × IngestOutcome X)
      → P page p
      → PageOk input id P Q page (after_ingest input id page p o).1
  after_ingest-ok page p (w, completed r) h = finish_page-ok page p r w h
  after_ingest-ok page p (w, threw x) h = tt
  after_ingest-ok page p (w, pending) h = tt

  after_discovery-ok :
      (page : ℕ) (p : Progress) (report : DiscoveryReport) (w : W)
      → P page p
      → PageOk input id P Q page (after_discovery input id page p report w).1
  unfolding after_discovery complete_ok_page
  after_discovery-ok page p report w h = elim (Bool-cases report.ok) [
    | inr failed ↦ simp failed (limited-limit input.concurrency (input.now w) report p.runtime h)
    | inl fine ↦ elim (Bool-cases (is_nil report.candidates)) [
      | inl empty' ↦ simp (fine, empty') h.limit_full
      | inr more ↦
          simp (fine, more)
            (after_ingest-ok page _ _ (clean-IsRelaxed input.concurrency (input.now w) p.runtime h))
    ]
  ]

  after_discovered-ok :
      (page : ℕ) (p : Progress) (d : W × Result X DiscoveryReport)
      → P page p
      → PageOk input id P Q page (after_discovered input id page p d).1
  after_discovered-ok page p (w, ok report) h = after_discovery-ok page p report w h
  after_discovered-ok page p (w, err x) h = tt

  run_page-ok :
      (page : ℕ) (p : Progress) (w : W)
      → P page p
      → PageOk input id P Q page (run_page input id page p w).1
  unfolding run_page
  run_page-ok page p w h =
      let (pacer, ms) = await_floor (input.now w) p.runtime.pacer in
      after_discovered-ok page
        (record { state = p.state; runtime = record p.runtime { pacer = pacer } })
        (input.discover_replays page (if ms == 0 then w else input.sleep ms w))
        (record {
          limit_full = h.limit_full;
          throttle_full = h.throttle_full;
          throttle_max = h.throttle_max;
          no_streak = h.no_streak;
        })

  -- Whatever the source answers, page after page, when the loop of a run stops, its limiter has the
  -- concurrency that it was made with: a rate-limited page ends the run before the throttle's window
  -- of two such pages can fill.
  pub limiter_never_shrinks :
      (fuel page : ℕ) (state : LoopState) (w : W) {reason : StopReason} {p : Progress}
      → (run_page_loop input id fuel page
          (record { state = state; runtime = build_run_runtime input })
          w).1
        ≡ stopped reason p
      → p.runtime.limit_concurrency ≡ input.concurrency
  limiter_never_shrinks fuel page state w e = subst (LoopOk input id P Q) e (
      run_page_loop-LoopOk input id P Q (λ n p' w' inside h. run_page-ok n p' w' h)
        (λ n p' outside h. h.limit_full) fuel page _ w (build_run_runtime-IsRelaxed input))
