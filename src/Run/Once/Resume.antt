-- ===== src/Run/Once/Resume.antt =====
-- src/run/run-once-checkpoint.ts: where a run starts, and the checkpoints that it writes.
use replays_fetcher.Base.{
  ℕ, ◌+◌, ◌-◌, Option, none, some, Bool, true, false, [], ◌∷◌, Text, codes, ltb, or_else,
  if◌then◌else◌, Result, ok, err,
}
use replays_fetcher.Types.{RunStatus, PageRange}
use replays_fetcher.Checkpoint.{Checkpoint, CheckpointStatus, Pages, PageCounts}
use replays_fetcher.Checkpoint.Store.{CheckpointReadResult}
use replays_fetcher.Run.Once.Types.{RunOnceInput, LoopState, first_page, empty_discovery_report}

pub record ResumeState : Type 0 where
  pub etag : Option Text
  pub pages : Pages
  pub start_page : ℕ

abbrev pub start_fresh : Option Text → ResumeState
start_fresh etag = record { etag = etag; pages = []; start_page = first_page }

abbrev pub resume_from : Option Text → Checkpoint → ResumeState
resume_from etag c = record {
  etag = etag;
  pages = c.pages;
  start_page = c.last_completed_page + first_page;
}

abbrev pub is_complete_status : CheckpointStatus → Bool
is_complete_status CheckpointStatus.complete = true
is_complete_status _ = false

-- Without a checkpoint the ETag is dropped too; `resume` only changes what is logged.
unfoldable pub resolve_resume_state : CheckpointReadResult → ResumeState
resolve_resume_state read = elim (read.checkpoint) [
  | none ↦ start_fresh none
  | some c ↦ if is_complete_status c.status then start_fresh read.etag else resume_from read.etag c
]

abbrev pub loop_state : Text → Text → ResumeState → LoopState
loop_state generated_at slug r = record {
  discovery_report = empty_discovery_report generated_at slug;
  etag = r.etag;
  last_completed_page = r.start_page - first_page;
  page_timestamps_ms = [];
  pages = r.pages;
  raw_storage = [];
  reached_max_pages = false;
  staging = [];
}

-- `resumeInvocation`, for every status but complete.
abbrev pub resume_invocation_option : RunStatus → Option Text
resume_invocation_option RunStatus.complete = none
resume_invocation_option _ = some (codes "replays-fetcher run-once --resume")

abbrev pub discovered_range_option : ℕ → Option PageRange
discovered_range_option last =
    if ltb last first_page
    then none
    else some (record { first_page = first_page; last_page = last })

abbrev pub no_counts : PageCounts
no_counts = record { discovered = 0; failed = 0; staged = 0; stored = 0 }

abbrev pub add_counts : PageCounts → PageCounts → PageCounts
add_counts a b = record {
  discovered = a.discovered + b.discovered;
  failed = a.failed + b.failed;
  staged = a.staged + b.staged;
  stored = a.stored + b.stored;
}

abbrev pub aggregate_from : PageCounts → Pages → PageCounts
aggregate_from counts [] = counts
aggregate_from counts ((k, p) ∷ ps) = aggregate_from (add_counts counts p.counts) ps

unfoldable pub aggregate_page_counts : Pages → PageCounts
aggregate_page_counts = aggregate_from no_counts

pub record BuildCheckpointInput : Type 0 where
  pub discovered_last_page : Option ℕ
  pub last_completed_page : ℕ
  pub pages : Pages
  pub slug : Text
  pub started_at : Text
  pub status : CheckpointStatus

-- The ETag of the object now: the old one where the write failed, which does not fail the run.
abbrev pub etag_after : {X : Type 0} → Option Text → Result X (Option Text) → Option Text
etag_after etag (ok new) = new
etag_after etag (err x) = etag

module _ {W X : Type 0} where
  unfoldable pub build_loop_state : RunOnceInput W X → Text → W → W × Result X LoopState
  build_loop_state input slug w =
      let (w', read) = input.read_checkpoint slug w in
      elim read [
        | err x ↦ (w', err x)
        | ok r ↦ (w', ok (loop_state (input.to_iso (input.now w')) slug (resolve_resume_state r)))
      ]

  unfoldable pub build_checkpoint : RunOnceInput W X → BuildCheckpointInput → W → Checkpoint
  build_checkpoint input c w = record {
    counts = aggregate_page_counts c.pages;
    created_at = c.started_at;
    discovered_last_page = or_else c.discovered_last_page c.last_completed_page;
    last_completed_page = c.last_completed_page;
    last_source_failure = none;
    pages = c.pages;
    run_id = input.run_id;
    source_url = c.slug;
    status = c.status;
    updated_at = input.to_iso (input.now w);
  }

  unfoldable pub write_page_checkpoint :
      RunOnceInput W X → BuildCheckpointInput → Option Text → W → W × Option Text
  write_page_checkpoint input c etag w =
      let (w', written) =
        input.write_checkpoint
          (record { checkpoint = build_checkpoint input c w; etag = etag; slug = c.slug }) w in
      (w', etag_after etag written)

  unfoldable pub write_final_checkpoint :
      RunOnceInput W X → BuildCheckpointInput → Option Text → W → W
  write_final_checkpoint input c etag w =
      (input.write_checkpoint
        (record { checkpoint = build_checkpoint input c w; etag = etag; slug = c.slug }) w).0
