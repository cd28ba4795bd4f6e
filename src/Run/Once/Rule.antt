-- ===== src/Run/Once/Rule.antt =====
-- src/run/run-once-page.ts: the rule for invariants of the loop, and its end.
use replays_fetcher.Base.{
  ℕ, zero, suc, ◌+◌, ◌≤◌, ◌<◌, ◌≡◌, ◌≢◌, Option, none, some, true, false, Bool-cases, inl, inr,
  arith,
}
use replays_fetcher.Run.Once.Types.{RunOnceInput}
use replays_fetcher.Run.Once.Loop.{
  StopReason, cap, Progress, Iteration, next, stop, throws, stalled, LoopOutcome, stopped,
  out_of_fuel, RunIdentity, run_page, run_page_loop, after_page, within_cap,
}

module _ {W X : Type 0} (input : RunOnceInput W X) (id : RunIdentity) (P : ℕ → Progress → Type 0)
    (Q : StopReason → Progress → Type 0) where
  -- What holds of the end of the iteration for a page.
  abbrev pub PageOk : ℕ → Iteration X → Type 0
  PageOk page (next p) = P (page + 1) p
  PageOk page (stop reason p) = Q reason p
  PageOk page _ = Unit

  -- What holds of the end of the loop.
  abbrev pub LoopOk : LoopOutcome X → Type 0
  LoopOk (stopped reason p) = Q reason p
  LoopOk _ = Unit

  after_page-LoopOk :
      (page : ℕ) (i : W × Iteration X) (go : Progress → W → W × LoopOutcome X)
      → PageOk page i.1
      → ((p : Progress) (w : W) → P (page + 1) p → LoopOk (go p w).1)
      → LoopOk (after_page i go).1
  after_page-LoopOk page (w, next p) go h k = k p w h
  after_page-LoopOk page (w, stop reason p) go h k = h
  after_page-LoopOk page (w, throws x) go h k = tt
  after_page-LoopOk page (w, stalled) go h k = tt

  pub run_page_loop-LoopOk :
      ((page : ℕ) (p : Progress) (w : W)
        → within_cap input.max_pages page ≡ true
        → P page p
        → PageOk page (run_page input id page p w).1)
      → ((page : ℕ) (p : Progress) → within_cap input.max_pages page ≡ false → P page p → Q cap p)
      → (fuel page : ℕ) (p : Progress) (w : W) → P page p
      → LoopOk (run_page_loop input id fuel page p w).1
  unfolding run_page_loop
  run_page_loop-LoopOk step at_cap zero page p w h = tt
  run_page_loop-LoopOk step at_cap (suc fuel) page p w h =
      elim (Bool-cases (within_cap input.max_pages page)) [
        | inl inside ↦ rw inside (
            after_page-LoopOk page (run_page input id page p w)
              (run_page_loop input id fuel (page + 1)) (step page p w inside h)
              (λ p' w' h'. run_page_loop-LoopOk step at_cap fuel (page + 1) p' w' h'))
        | inr outside ↦ rw outside (at_cap page p outside h)
      ]

within_cap-le :
    (cap' : Option ℕ) (page m : ℕ) → cap' ≡ some m → within_cap cap' page ≡ true → page ≤ m
within_cap-le none page m e h = cc
within_cap-le (some n) page m e h = ground arith

module _ {W X : Type 0} (input : RunOnceInput W X) (id : RunIdentity) where
  after_page-ends :
      (i : W × Iteration X) (go : Progress → W → W × LoopOutcome X)
      → ((p : Progress) (w : W) → (go p w).1 ≢ out_of_fuel)
      → (after_page i go).1 ≢ out_of_fuel
  after_page-ends (w, next p) go h = h p w
  after_page-ends (w, stop reason p) go h = λ e. cc
  after_page-ends (w, throws x) go h = λ e. cc
  after_page-ends (w, stalled) go h = λ e. cc

  -- With a cap on the pages, the loop ends: it needs no more rounds than there are pages up to the
  -- cap, and one for the test that stops it.
  pub run_page_loop_ends :
      (max_pages fuel page : ℕ) (p : Progress) (w : W)
      → input.max_pages ≡ some max_pages
      → max_pages + 1 < fuel + page
      → 0 < fuel
      → (run_page_loop input id fuel page p w).1 ≢ out_of_fuel
  unfolding run_page_loop
  run_page_loop_ends m zero page p w e h f = absurd (omega arith)
  run_page_loop_ends m (suc fuel) page p w e h f =
      elim (Bool-cases (within_cap input.max_pages page)) [
        | inl inside ↦ rw inside (
            after_page-ends (run_page input id page p w) (run_page_loop input id fuel (page + 1))
              (λ p' w'.
                run_page_loop_ends m fuel (page + 1) p' w' e (omega arith)
                  (omega (arith, within_cap-le input.max_pages page m e inside))))
        | inr outside ↦ rw outside (λ x. cc)
      ]
