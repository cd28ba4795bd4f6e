-- ===== src/Source/Retry/Outcome.antt =====
-- src/source/retry.ts: how a call of `withRetry` settles.
use replays_fetcher.Base.{
  ℕ, zero, suc, ◌+◌, ◌<◌, ◌≡◌, ◌⊎◌, [], arith, Bool-cases, inl, inr, Option, none, some,
  Option-cases, true, false,
}
use replays_fetcher.Source.Retry.Defs.{
  RetrySourceReadOptions, RetryRun, RetryResult, ReadResult, RetryAttemptEvent, gives_up,
  with_retry, retry_rounds, after_read, resume, resolve_delay, build_retry_event, abortable_sleep,
  is_retryable, after_retry,
}

module _ {W A E R : Type 0} (o : RetrySourceReadOptions W A E R) where
  -- An error that comes through: it is not to be retried, or no retry is left.
  abbrev ThrownFrom : ℕ → RetryRun W A E R → Type 0
  ThrownFrom round run =
      (error : E)
      → run.result ≡ RetryResult.thrown error
      → (is_retryable (o.classify error) ≡ false) ⊎ (o.attempts < run.reads + round)

  resume-ThrownFrom :
      (round : ℕ) (event : RetryAttemptEvent) (pause : W × Option R) (next : W → RetryRun W A E R)
      → ((w : W) → ThrownFrom (round + 1) (next w))
      → ThrownFrom round (after_retry event (resume pause next))
  resume-ThrownFrom round event (w, some reason) next h error e = cc
  resume-ThrownFrom round event (w, none) next h error e = ground (arith, h w error)

  after_read-ThrownFrom :
      (round : ℕ) (outcome : ReadResult A E) (w : W) (next : W → RetryRun W A E R)
      → ((w : W) → ThrownFrom (round + 1) (next w))
      → ThrownFrom round (after_read o round outcome w next)
  unfolding after_read
  after_read-ThrownFrom round (ReadResult.resolved a) w next h = λ error e. cc
  after_read-ThrownFrom round (ReadResult.rejected error') w next h =
      let c = o.classify error' in
      let delay = resolve_delay o c error' (o.now w) round in
      let event = build_retry_event o c round delay in
      elim (Bool-cases (gives_up o (o.classify error') round)) [
        | inl g ↦ rw g (λ error e. gave_up error' error g (ground (arith, e)))
        | inr g ↦ rw g (resume-ThrownFrom round event (abortable_sleep o delay w) next h)
      ]
    where
      gave_up :
          (error' error : E)
          → gives_up o (o.classify error') round ≡ true
          → error' ≡ error
          → (is_retryable (o.classify error) ≡ false) ⊎ (o.attempts < 1 + round)
      gave_up error' error g e = rw (← e) (ground arith)

  retry_rounds-ThrownFrom :
      (fuel round : ℕ) (w : W) → ThrownFrom round (retry_rounds o fuel round w)
  unfolding retry_rounds
  retry_rounds-ThrownFrom zero round w = λ error e. cc
  retry_rounds-ThrownFrom (suc fuel) round w = elim (Option-cases (o.signal w)) [
    | inl none' ↦
        rw (none', retry_rounds)
          (after_read-ThrownFrom round _ _ _ (retry_rounds-ThrownFrom fuel (round + 1)))
    | inr (reason, some') ↦ rw (some', retry_rounds) (λ error e. cc)
  ]

  -- A call of `withRetry` lets an error through only if the classifier calls it permanent, or if
  -- the read has failed once more often than `attempts` says: a transient or rate-limited failure
  -- is never given up before that.
  pub with_retry_thrown :
      (w : W) (error : E)
      → (with_retry o w).result ≡ RetryResult.thrown error
      → (is_retryable (o.classify error) ≡ false) ⊎ (o.attempts < (with_retry o w).reads)
  unfolding with_retry
  with_retry_thrown w error e = ground (arith, retry_rounds-ThrownFrom (suc o.attempts) 0 w error e)

  -- Where the signal is not aborted and the first read fails with a permanent error, that error is
  -- thrown at once: after one read, with no retry announced and no pause.
  pub with_retry_at_once :
      (w : W) {w' : W} {error : E}
      → o.signal w ≡ none
      → o.read w ≡ (w', ReadResult.rejected error)
      → is_retryable (o.classify error) ≡ false
      → with_retry o w
        ≡ record { result = RetryResult.thrown error; events = []; reads = 1; world = w' }
  unfolding with_retry retry_rounds after_read
  with_retry_at_once w s e p = ground arith
