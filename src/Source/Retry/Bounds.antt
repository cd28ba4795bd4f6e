-- ===== src/Source/Retry/Bounds.antt =====
-- src/source/retry.ts: the reads, the announcements and the pauses of `withRetry`.
use replays_fetcher.Base.{
  ℕ, zero, suc, ◌+◌, ◌≤◌, ◌<◌, ◌⊎◌, ◌≡◌, ◌≢◌, length, arith, Bool-cases, inl, inr, Option, none,
  some, Option-cases,
}
use replays_fetcher.Source.Retry.Defs.{
  RetrySourceReadOptions, RetryRun, RetryResult, ReadResult, RetryAttemptEvent, gives_up,
  with_retry, retry_rounds, after_read, resume, after_retry,
}

module _ {W A E R : Type 0} (o : RetrySourceReadOptions W A E R) where
  -- What holds of a run that may read `fuel` times.
  record Counts (fuel : ℕ) (run : RetryRun W A E R) : Type 0 where
    reads_le : run.reads ≤ fuel
    reads_events : run.reads ≤ length run.events + 1
    events_reads : length run.events ≤ run.reads
    events_lt : length run.events < fuel
    announced :
        ((reason : R) × (run.result ≡ RetryResult.aborted reason))
        ⊎ (run.reads ≡ length run.events + 1)
    ended : run.result ≢ RetryResult.out_of_fuel

  -- In the last round allowed the loop goes no further.
  after_read-last :
      (round : ℕ) (outcome : ReadResult A E) (w : W) (next : W → RetryRun W A E R)
      → o.attempts ≤ round
      → Counts 1 (after_read o round outcome w next)
  unfolding after_read
  after_read-last round (ReadResult.resolved a) w next h = ground arith
  after_read-last round (ReadResult.rejected error) w next h = ground arith

  resume-Counts :
      (fuel : ℕ) (event : RetryAttemptEvent) (pause : W × Option R) (next : W → RetryRun W A E R)
      → 1 ≤ fuel
      → ((w : W) → Counts fuel (next w))
      → Counts (suc fuel) (after_retry event (resume pause next))
  resume-Counts fuel event (w, some reason) next f h = ground arith
  resume-Counts fuel event (w, none) next f h = ground (arith, h w)

  after_read-Counts :
      (fuel round : ℕ) (outcome : ReadResult A E) (w : W) (next : W → RetryRun W A E R)
      → 1 ≤ fuel
      → ((w : W) → Counts fuel (next w))
      → Counts (suc fuel) (after_read o round outcome w next)
  unfolding after_read
  after_read-Counts fuel round (ReadResult.resolved a) w next f h = ground arith
  after_read-Counts fuel round (ReadResult.rejected error) w next f h =
      elim (Bool-cases (gives_up o (o.classify error) round)) [
        | inl e ↦ rw e (ground arith)
        | inr e ↦ rw e (resume-Counts fuel _ _ next f h)
      ]

  retry_rounds-Counts :
      (left round : ℕ) (w : W)
      → left + round ≡ o.attempts
      → Counts (suc left) (retry_rounds o (suc left) round w)
  unfolding retry_rounds
  retry_rounds-Counts zero round w e = elim (Option-cases (o.signal w)) [
    | inl none' ↦ rw (none', retry_rounds) (after_read-last round _ _ _ (omega arith))
    | inr (r, some') ↦ rw (some', retry_rounds) (ground arith)
  ]
  retry_rounds-Counts (suc left) round w e = elim (Option-cases (o.signal w)) [
    | inl none' ↦
        rw (none', retry_rounds)
          (after_read-Counts (suc left) round _ _ _ (omega arith)
            (λ w'. retry_rounds-Counts left (round + 1) w' (omega arith)))
    | inr (r, some') ↦ rw (some', retry_rounds) (ground arith)
  ]

  -- A call of `withRetry` settles; it reads at most once more than `attempts` says, announces at
  -- most `attempts` retries, and, unless it is aborted, every read but the last is followed by one
  -- announcement, and the last by none; where it is aborted, the last read may have one too.
  pub with_retry_bounds :
      (w : W)
      → let run = with_retry o w in
        (run.result ≢ RetryResult.out_of_fuel)
        × (run.reads ≤ o.attempts + 1)
        × (length run.events ≤ o.attempts)
        × (length run.events ≤ run.reads)
        × (run.reads ≤ length run.events + 1)
        × (((reason : R) × (run.result ≡ RetryResult.aborted reason))
            ⊎ (run.reads ≡ length run.events + 1))
  unfolding with_retry
  with_retry_bounds w =
      let c = retry_rounds-Counts o.attempts 0 w (omega arith) in
      (
        c.ended,
        omega (arith, c.reads_le),
        omega (arith, c.events_lt),
        c.events_reads,
        c.reads_events,
        c.announced,
      )
