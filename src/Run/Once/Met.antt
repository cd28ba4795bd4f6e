-- ===== src/Run/Once/Met.antt =====
-- src/run/run-once-page.ts: the candidates that a run met, beside its results.
use mathlib.Core.Path.{subst}
use replays_fetcher.Base.{
  ℕ, ◌≡◌, refl, sym, ap, ◌∙◌, ◌==◌, true, false, Bool-cases, inl, inr, arith, List, [], ◌∷◌, ◌++◌,
  Text, Result, ok, err, if◌then◌else◌,
}
use replays_fetcher.Types.{DiscoveryReport, ReplayCandidate}
use replays_fetcher.Source.Pacing.{await_floor}
use replays_fetcher.Checkpoint.Store.{CheckpointReadResult}
use replays_fetcher.Run.Ingest.{IngestPageResult, IngestOutcome, completed, threw, pending}
use replays_fetcher.Run.Ingest.Matches.{
  Matched, nothing, Matched-append, append_nil, ingest_page-Matched,
}
use replays_fetcher.Run.Once.Types.{
  RunOnceInput, LoopState, append_discovery_report, empty_discovery_report,
}
use replays_fetcher.Run.Once.Resume.{loop_state, resolve_resume_state}
use replays_fetcher.Run.Once.Loop.{
  StopReason, Progress, RunIdentity, is_all_duplicate, is_nil, finish_page, after_ingest,
  complete_ok_page, after_discovery, after_discovered, run_page, run_page_loop,
}
use replays_fetcher.Run.Once.Rule.{PageOk, LoopOk, run_page_loop-LoopOk}

is_nil-nil : (cs : List ReplayCandidate) → is_nil cs ≡ true → cs ≡ []
is_nil-nil [] h = refl
is_nil-nil (c ∷ cs) h = cc

module _ {W X : Type 0} (input : RunOnceInput W X) where
  -- Every candidate discovered so far was skipped by the gate, or has its results.
  abbrev pub Met : LoopState → Type 0
  Met s = Matched input.ingest s.discovery_report.candidates s.raw_storage s.staging

  -- The same, where no discovery failed.
  abbrev pub MetIfOk : LoopState → Type 0
  MetIfOk s = s.discovery_report.ok ≡ true → Met s

module _ {W X : Type 0} (input : RunOnceInput W X) (id : RunIdentity) where
  abbrev P : ℕ → Progress → Type 0
  P page p = Met input p.state

  abbrev Q : StopReason → Progress → Type 0
  Q reason p = MetIfOk input p.state

  -- `p` has the candidates of the page, and not yet their results.
  finish_page-Met :
      (page : ℕ) (p : Progress) (r : IngestPageResult) (w : W)
      → Matched input.ingest p.state.discovery_report.candidates
          (p.state.raw_storage ++ r.raw_storage)
          (p.state.staging ++ r.staging)
      → PageOk input id P Q page (finish_page input id page p r w).1
  unfolding finish_page
  finish_page-Met page p r w h = elim (Bool-cases (is_all_duplicate r.counts)) [
    | inl dup ↦ rw dup (λ _. h)
    | inr more ↦ rw more h
  ]

  after_ingest-Met :
      (page : ℕ) (p : Progress) (o : W × IngestOutcome X)
      → ((r : IngestPageResult)
          → o.1 ≡ completed r
          → Matched input.ingest p.state.discovery_report.candidates
              (p.state.raw_storage ++ r.raw_storage)
              (p.state.staging ++ r.staging))
      → PageOk input id P Q page (after_ingest input id page p o).1
  after_ingest-Met page p (w, completed r) h = finish_page-Met page p r w (h r refl)
  after_ingest-Met page p (w, threw x) h = tt
  after_ingest-Met page p (w, pending) h = tt

  appended-failed :
      (target page : DiscoveryReport)
      → page.ok ≡ false
      → (append_discovery_report target page).ok ≡ false
  unfolding append_discovery_report
  appended-failed target page h = ground (arith, h)

  add_none :
      (cs : List ReplayCandidate) (s : LoopState)
      → is_nil cs ≡ true
      → Met input s
      → Matched input.ingest (s.discovery_report.candidates ++ cs) s.raw_storage s.staging
  add_none cs s e h =
      let old = s.discovery_report.candidates in
      subst (λ l. Matched input.ingest l s.raw_storage s.staging)
        (sym (ap (λ l. old ++ l) (is_nil-nil cs e) ∙ append_nil old)) h

  after_discovery-Met :
      (page : ℕ) (p : Progress) (report : DiscoveryReport) (w : W)
      → P page p
      → PageOk input id P Q page (after_discovery input id page p report w).1
  unfolding after_discovery complete_ok_page append_discovery_report
  after_discovery-Met page p report w h = elim (Bool-cases report.ok) [
    | inr failed ↦ simp failed (λ fine.
        absurd (ground (arith, appended-failed p.state.discovery_report report failed, fine)))
    | inl fine ↦ elim (Bool-cases (is_nil report.candidates)) [
      | inl empty' ↦ simp (fine, empty') (λ _. add_none report.candidates p.state empty' h)
      | inr more ↦
          simp (fine, more)
            (after_ingest-Met page _ _ (λ r done.
              Matched-append input.ingest p.state.discovery_report.candidates report.candidates
                p.state.raw_storage r.raw_storage p.state.staging r.staging h
                (ingest_page-Matched input.ingest report.candidates (input.schedule w) w r done).0))
    ]
  ]

  after_discovered-Met :
      (page : ℕ) (p : Progress) (d : W × Result X DiscoveryReport)
      → P page p
      → PageOk input id P Q page (after_discovered input id page p d).1
  after_discovered-Met page p (w, ok report) h = after_discovery-Met page p report w h
  after_discovered-Met page p (w, err x) h = tt

  run_page-Met :
      (page : ℕ) (p : Progress) (w : W)
      → P page p
      → PageOk input id P Q page (run_page input id page p w).1
  unfolding run_page
  run_page-Met page p w h =
      let (pacer, ms) = await_floor (input.now w) p.runtime.pacer in
      after_discovered-Met page
        (record { state = p.state; runtime = record p.runtime { pacer = pacer } })
        (input.discover_replays page (if ms == 0 then w else input.sleep ms w)) h

  pub run_page_loop-Met :
      (fuel page : ℕ) (p : Progress) (w : W)
      → Met input p.state
      → LoopOk input id P Q (run_page_loop input id fuel page p w).1
  run_page_loop-Met fuel page p w h =
      run_page_loop-LoopOk input id P Q (λ n p' w' inside h. run_page-Met n p' w' h)
        (λ page p outside h fine. h) fuel page p w h

module _ {W X : Type 0} (input : RunOnceInput W X) where
  pub read-Met :
      (slug at_time : Text) (r : CheckpointReadResult)
      → Met input (loop_state at_time slug (resolve_resume_state r))
  unfolding empty_discovery_report
  read-Met slug at_time r = nothing
