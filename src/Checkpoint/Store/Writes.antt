-- ===== src/Checkpoint/Store/Writes.antt =====
-- src/checkpoint/s3-checkpoint-store.ts: the progress that a write keeps.
use replays_fetcher.Base.{
  ℕ, zero, suc, ◌+◌, ◌≡◌, Option, none, some, true, Text, Bool-cases, inl, inr, Result, ok, err,
}
use mathlib.Core.Path.{subst}
use replays_fetcher.Checkpoint.Defs.{Checkpoint, merge_checkpoints}
use replays_fetcher.Checkpoint.Merge.{ProgressLe, ProgressLe-trans, ProgressLe-refl, merge-progress}
use replays_fetcher.Checkpoint.Store.Defs.{
  Thrown, StoreOptions, CheckpointWriteInput, CheckpointWriteResult, CheckpointReadResult,
  is_precondition_failed, put_checkpoint, read_checkpoint, merge_fresh, after_reread, after_put,
  write_rounds, write_checkpoint,
}
use replays_fetcher.Source.Backoff.{full_jitter_delay, default_bounds}

merge_fresh-ProgressLe :
    (intended : Checkpoint) (fresh : Option Checkpoint)
    → ProgressLe intended (merge_fresh intended fresh)
merge_fresh-ProgressLe intended none = ProgressLe-refl intended
merge_fresh-ProgressLe intended (some fresh) = (merge-progress intended fresh).0

module _ {W : Type 0} (o : StoreOptions W) where
  -- What was written, where something was, is at least as far as `least`.
  abbrev WroteAtLeast : Checkpoint → W × Result Thrown CheckpointWriteResult → Type 0
  WroteAtLeast least (w, ok r) = ProgressLe least r.written
  WroteAtLeast least (w, err e) = Unit

  WroteAtLeast-trans :
      (a b : Checkpoint) (run : W × Result Thrown CheckpointWriteResult)
      → ProgressLe a b
      → WroteAtLeast b run
      → WroteAtLeast a run
  WroteAtLeast-trans a b (w, ok r) h k = ProgressLe-trans a b r.written h k
  WroteAtLeast-trans a b (w, err e) h k = tt

  after_reread-WroteAtLeast :
      (input : CheckpointWriteInput) (read : W × Result Thrown CheckpointReadResult)
      (next : CheckpointWriteInput → W → W × Result Thrown CheckpointWriteResult)
      → ((i : CheckpointWriteInput) (w : W) → WroteAtLeast i.checkpoint (next i w))
      → WroteAtLeast input.checkpoint (after_reread input read next)
  after_reread-WroteAtLeast input (w, err e) next h = tt
  after_reread-WroteAtLeast input (w, ok fresh) next h =
      let merged = merge_fresh input.checkpoint fresh.checkpoint in
      let i : CheckpointWriteInput = record input { checkpoint = merged; etag = fresh.etag } in
      WroteAtLeast-trans input.checkpoint merged (next i w)
        (merge_fresh-ProgressLe input.checkpoint fresh.checkpoint) (h i w)

  after_put-WroteAtLeast :
      (round : ℕ) (input : CheckpointWriteInput) (put : W × Result Thrown (Option Text))
      (next : CheckpointWriteInput → W → W × Result Thrown CheckpointWriteResult)
      → ((i : CheckpointWriteInput) (w : W) → WroteAtLeast i.checkpoint (next i w))
      → WroteAtLeast input.checkpoint (after_put o round input put next)
  after_put-WroteAtLeast round input (w, ok etag) next h = ProgressLe-refl input.checkpoint
  after_put-WroteAtLeast round input (w, err e) next h =
      elim (Bool-cases (is_precondition_failed e)) [
        | inl lost ↦ rw lost (after_reread-WroteAtLeast input _ next h)
        | inr other ↦ rw other tt
      ]

  write_rounds-WroteAtLeast :
      (left round : ℕ) (input : CheckpointWriteInput) (w : W)
      → WroteAtLeast input.checkpoint (write_rounds o left round input w)
  unfolding write_rounds
  write_rounds-WroteAtLeast zero round input w = tt
  write_rounds-WroteAtLeast (suc left) round input w =
      after_put-WroteAtLeast round input (put_checkpoint o input w)
        (write_rounds o left (round + 1)) (write_rounds-WroteAtLeast left (round + 1))

  -- Where the first PUT loses to a concurrent writer whose checkpoint is then read, a write that goes
  -- through in the end has written a checkpoint that is at least as far as the winner's.
  pub write_checkpoint_merges_winner :
      (input : CheckpointWriteInput) (w w1 w2 : W) (fresh : CheckpointReadResult)
      (theirs : Checkpoint) {w3 : W} {e : Thrown} {r : CheckpointWriteResult}
      → put_checkpoint o input w ≡ (w1, err e)
      → is_precondition_failed e ≡ true
      → read_checkpoint o input.slug (o.delay (full_jitter_delay 0 (o.random 0) default_bounds) w1)
        ≡ (w2, ok fresh)
      → fresh.checkpoint ≡ some theirs
      → write_checkpoint o input w ≡ (w3, ok r)
      → ProgressLe theirs r.written
  unfolding write_checkpoint write_rounds
  write_checkpoint_merges_winner input w w1 w2 fresh theirs lost precondition read has done =
      let merged = merge_checkpoints input.checkpoint theirs in
      let i : CheckpointWriteInput = record input { checkpoint = merged; etag = fresh.etag } in
      subst (WroteAtLeast theirs) done (
        rw (lost, precondition, read, has)
          (WroteAtLeast-trans theirs merged (write_rounds o 4 1 i w2)
            (merge-progress input.checkpoint theirs).1 (write_rounds-WroteAtLeast 4 1 i w2)))
