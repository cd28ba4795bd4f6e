-- ===== src/Run/Once/Pages.antt =====
-- src/run/run-once-page.ts: the pages that the loop enters.
use mathlib.Core.Path.{subst}
use replays_fetcher.Base.{
  ℕ, ◌+◌, ◌≤◌, ◌<◌, ◌≡◌, ◌≢◌, refl, ◌==◌, none, Bool, true, false, Bool-cases, inl, inr, arith, not,
  text_eq, text_eq_refl, codes, ap, ◌∙◌, Result, ok, err, if◌then◌else◌,
}
use replays_fetcher.Types.{DiscoveryReport}
use replays_fetcher.Source.Pacing.{await_floor}
use replays_fetcher.Checkpoint.{CheckpointPage, Pages, get_page, set_page}
use replays_fetcher.Checkpoint.Merge.{get_page-set_page}
use replays_fetcher.Run.Ingest.{IngestPageResult, IngestOutcome, completed, threw, pending}
use replays_fetcher.Run.Once.Types.{RunOnceInput, LoopState, append_discovery_report}
use replays_fetcher.Run.Once.Loop.{
  StopReason, all_duplicate, cap, page_failed, Progress, stopped, RunIdentity, is_all_duplicate,
  page_counts, is_nil, finish_page, after_ingest, complete_ok_page, after_discovery,
  after_discovered, run_page, run_page_loop, within_cap,
}
use replays_fetcher.Run.Once.Rule.{PageOk, LoopOk, run_page_loop-LoopOk}

module _ {W X : Type 0} (input : RunOnceInput W X) where
  -- Every page after `start`, up to `last`, has its entry.
  abbrev pub Entered : ℕ → ℕ → Pages → Type 0
  Entered start last pages =
      (q : ℕ) → start < q → q ≤ last → get_page (input.page_key q) pages ≢ none

  -- Before the iteration for `page`, in a run that started after the page `start`.
  pub record IsAt (start page : ℕ) (s : LoopState) : Type 0 where
    pub at_page : s.last_completed_page + 1 ≡ page
    pub from_start : start ≤ s.last_completed_page
    pub entered : Entered start s.last_completed_page s.pages
    pub clean : s.discovery_report.ok ≡ true

  abbrev pub is_failure : StopReason → Bool
  is_failure page_failed = true
  is_failure _ = false

  -- What the reason says of the last completed page.
  abbrev pub Cause : ℕ → StopReason → ℕ → Type 0
  Cause start cap last = within_cap input.max_pages (last + 1) ≡ false
  Cause start all_duplicate last = start < last
  Cause start _ last = Unit

  -- When the loop has stopped.
  pub record IsEnd (start : ℕ) (reason : StopReason) (s : LoopState) : Type 0 where
    pub from_start : start ≤ s.last_completed_page
    pub entered : Entered start s.last_completed_page s.pages
    pub failed_page : s.discovery_report.ok ≡ not (is_failure reason)
    pub cause : Cause start reason s.last_completed_page

  other_page : (q page : ℕ) → text_eq (input.page_key page) (input.page_key q) ≡ false → q ≢ page
  other_page q page other e = cc (text_eq_refl (input.page_key page))

  set_page-Entered :
      (start last page : ℕ) (entry : CheckpointPage) (pages : Pages)
      → last + 1 ≡ page
      → Entered start last pages
      → Entered start page (set_page (input.page_key page) entry pages)
  set_page-Entered start last page entry pages e h q lo hi =
      rw (get_page-set_page (input.page_key q) (input.page_key page) entry pages)
        (elim (Bool-cases (text_eq (input.page_key page) (input.page_key q))) [
          | inl same ↦ rw same (λ x. cc)
          | inr other ↦ rw other (h q lo (omega (arith, other_page q page other)))
        ])

module _ {W X : Type 0} (input : RunOnceInput W X) (id : RunIdentity) (start : ℕ) where
  abbrev P : ℕ → Progress → Type 0
  P page p = IsAt input start page p.state

  abbrev Q : StopReason → Progress → Type 0
  Q reason p = IsEnd input start reason p.state

  finish_page-ok :
      (page : ℕ) (p : Progress) (result : IngestPageResult) (w : W)
      → P page p
      → PageOk input id P Q page (finish_page input id page p result w).1
  unfolding finish_page
  finish_page-ok page p result w h =
      let entered =
        set_page-Entered input start p.state.last_completed_page page
          (record { counts = page_counts result.counts; status = codes "running" }) p.state.pages
          h.at_page h.entered in
      elim (Bool-cases (is_all_duplicate result.counts)) [
        | inl dup ↦ rw dup (record {
          from_start = omega (arith, h.at_page, h.from_start);
          entered = entered;
          failed_page = h.clean;
          cause = omega (arith, h.at_page, h.from_start);
        })
        | inr more ↦ rw more (record {
          at_page = refl;
          from_start = omega (arith, h.at_page, h.from_start);
          entered = entered;
          clean = h.clean;
        })
      ]

  after_ingest-ok :
      (page : ℕ) (p : Progress) (o : W × IngestOutcome X)
      → P page p
      → PageOk input id P Q page (after_ingest input id page p o).1
  after_ingest-ok page p (w, completed r) h = finish_page-ok page p r w h
  after_ingest-ok page p (w, threw x) h = tt
  after_ingest-ok page p (w, pending) h = tt

  -- The state after the report of a page is appended.
  appended-clean :
      (target page : DiscoveryReport)
      → target.ok ≡ true
      → (append_discovery_report target page).ok ≡ page.ok
  unfolding append_discovery_report
  appended-clean target page h = ground arith

  after_discovery-ok :
      (page : ℕ) (p : Progress) (report : DiscoveryReport) (w : W)
      → P page p
      → PageOk input id P Q page (after_discovery input id page p report w).1
  unfolding after_discovery complete_ok_page
  after_discovery-ok page p report w h =
      let appended = appended-clean p.state.discovery_report report h.clean in
      elim (Bool-cases report.ok) [
        | inr failed ↦ simp failed (record {
          from_start = h.from_start;
          entered = h.entered;
          failed_page = appended ∙ failed;
          cause = tt;
        })
        | inl fine ↦ elim (Bool-cases (is_nil report.candidates)) [
          | inl empty' ↦
              simp (fine, empty')
                (record {
                  from_start = h.from_start;
                  entered = h.entered;
                  failed_page = appended ∙ fine;
                  cause = tt;
                })
          | inr more ↦
              simp (fine, more)
                (after_ingest-ok page _ _ (record {
                  at_page = h.at_page;
                  from_start = h.from_start;
                  entered = h.entered;
                  clean = appended ∙ fine;
                }))
        ]
      ]

  after_discovered-ok :
      (page : ℕ) (p : Progress) (d : W × Result X DiscoveryReport)
      → P page p
      → PageOk input id P Q page (after_discovered input id page p d).1
  after_discovered-ok page p (w, ok report) h = after_discovery-ok page p report w h
  after_discovered-ok page p (w, err x) h = tt

  run_page-ok :
      (page : ℕ) (p : Progress) (w : W)
      → P page p
      → PageOk input id P Q page (run_page input id page p w).1
  unfolding run_page
  run_page-ok page p w h =
      let (pacer, ms) = await_floor (input.now w) p.runtime.pacer in
      after_discovered-ok page
        (record { state = p.state; runtime = record p.runtime { pacer = pacer } })
        (input.discover_replays page (if ms == 0 then w else input.sleep ms w)) h

  capped-IsEnd :
      (page : ℕ) (p : Progress) → within_cap input.max_pages page ≡ false → P page p → Q cap p
  capped-IsEnd page p outside h = record {
    from_start = h.from_start;
    entered = h.entered;
    failed_page = h.clean;
    cause = ap (within_cap input.max_pages) h.at_page ∙ outside;
  }

  -- Where the loop stops, in a run that starts with a clean report after the page `start`: it has not
  -- gone back before `start`; every page after it up to the last completed one has its entry; the
  -- report is marked as failed exactly if a failed page was the reason; the cap was the reason only
  -- if the next page is beyond it; and a page of duplicates only if some page was completed.
  pub run_page_loop-IsEnd :
      (fuel : ℕ) (p : Progress) (w : W) {reason : StopReason} {p' : Progress}
      → p.state.last_completed_page ≡ start
      → p.state.discovery_report.ok ≡ true
      → (run_page_loop input id fuel (start + 1) p w).1 ≡ stopped reason p'
      → IsEnd input start reason p'.state
  run_page_loop-IsEnd fuel p w at_start clean e = subst (LoopOk input id P Q) e (
      run_page_loop-LoopOk input id P Q (λ n p' w' inside h. run_page-ok n p' w' h) capped-IsEnd
        fuel (start + 1) p w
        (record {
          at_page = omega arith;
          from_start = omega arith;
          entered = λ q lo hi. absurd (omega arith);
          clean = clean;
        }))
