-- ===== src/Source/Retry/Pauses.antt =====
-- src/source/retry.ts: the announcements and the pauses of `withRetry`.
use replays_fetcher.Base.{
  ℕ, zero, suc, ◌+◌, ◌*◌, ◌^◌, ◌≤◌, ◌≡◌, refl, List, [], ◌∷◌, arith, Bool-cases, inl, inr, Option,
  none, some, Option-cases, min, ap, ◌∙◌,
}
use replays_fetcher.Source.Backoff.{
  IsRandom, full_jitter_delay, default_bounds, cap_delay_ms, retry_after_cap_ms,
}
use replays_fetcher.Source.Failure.{FailureKind, rate_limited, FailureClassification}
use replays_fetcher.Source.Retry.Defs.{
  RetrySourceReadOptions, RetryRun, ReadResult, RetryAttemptEvent, gives_up, with_retry,
  retry_rounds, after_read, resume, resolve_delay, delay_for_kind, build_retry_event,
  abortable_sleep, after_retry,
}

-- The jitter never exceeds the cap, at the bounds by default.
pub full_jitter_delay-le-cap :
    (round : ℕ) (random : ℕ → ℕ)
    → IsRandom random
    → full_jitter_delay round random default_bounds ≤ cap_delay_ms
unfolding full_jitter_delay
full_jitter_delay-le-cap round random r = omega (arith, r.scale_le (min (500 * 2 ^ round) 30000))

delay_for_kind-le-cap :
    (k : FailureKind) (backoff retry_after : ℕ)
    → backoff ≤ cap_delay_ms
    → delay_for_kind k backoff retry_after ≤ cap_delay_ms
delay_for_kind-le-cap rate_limited b r h = omega arith
delay_for_kind-le-cap _ b r h = h

module _ {W A E R : Type 0} (o : RetrySourceReadOptions W A E R) where
  -- Retries are numbered from `round + 1` on, and none pauses for longer than the cap.
  abbrev pub EventsFrom : ℕ → List RetryAttemptEvent → Type 0
  EventsFrom round [] = Unit
  EventsFrom round (e ∷ es) =
      (e.attempt ≡ round + 1) × (e.delay_ms ≤ retry_after_cap_ms) × EventsFrom (round + 1) es

  resume-EventsFrom :
      (round : ℕ) (c : FailureClassification) (error : E) (w : W) (pause : W × Option R)
      (next : W → RetryRun W A E R)
      → IsRandom (o.random round)
      → ((w : W) → EventsFrom (round + 1) (next w).events)
      → EventsFrom round
          (after_retry
            (build_retry_event o c round (resolve_delay o c error (o.now w) round))
            (resume pause next)).events
  unfolding build_retry_event resolve_delay
  resume-EventsFrom round c error w (w', some reason) next r h =
      (refl, delay_for_kind-le-cap c.kind _ _ (full_jitter_delay-le-cap round _ r), tt)
  resume-EventsFrom round c error w (w', none) next r h =
      (refl, delay_for_kind-le-cap c.kind _ _ (full_jitter_delay-le-cap round _ r), h w')

  after_read-EventsFrom :
      (round : ℕ) (outcome : ReadResult A E) (w : W) (next : W → RetryRun W A E R)
      → ((n : ℕ) → IsRandom (o.random n))
      → ((w : W) → EventsFrom (round + 1) (next w).events)
      → EventsFrom round (after_read o round outcome w next).events
  unfolding after_read
  after_read-EventsFrom round (ReadResult.resolved a) w next r h = tt
  after_read-EventsFrom round (ReadResult.rejected error) w next r h =
      elim (Bool-cases (gives_up o (o.classify error) round)) [
        | inl e ↦ rw e tt
        | inr e ↦ rw e (
            resume-EventsFrom round (o.classify error) error w
              (abortable_sleep o (resolve_delay o (o.classify error) error (o.now w) round) w) next
              (r round) h)
      ]

  retry_rounds-EventsFrom :
      (fuel round : ℕ) (w : W)
      → ((n : ℕ) → IsRandom (o.random n))
      → EventsFrom round (retry_rounds o fuel round w).events
  unfolding retry_rounds
  retry_rounds-EventsFrom zero round w r = tt
  retry_rounds-EventsFrom (suc fuel) round w r = elim (Option-cases (o.signal w)) [
    | inl none' ↦
        rw (none', retry_rounds)
          (after_read-EventsFrom round _ _ _ r
            (λ w'. retry_rounds-EventsFrom fuel (round + 1) w' r))
    | inr (reason, some') ↦ rw (some', retry_rounds) tt
  ]

-- The same call with another pause.
abbrev pub with_sleep :
    {W A E R : Type 0}
    → RetrySourceReadOptions W A E R
    → (ℕ → W → W × Option R)
    → RetrySourceReadOptions W A E R
with_sleep o sleep = record o { sleep = sleep }

-- The two agree on pauses up to the cap.
module _ {W A E R : Type 0} (o : RetrySourceReadOptions W A E R) (sleep : ℕ → W → W × Option R)
    (agree : (ms : ℕ) (w : W) → ms ≤ retry_after_cap_ms → o.sleep ms w ≡ sleep ms w)
    (fraction : (n : ℕ) → IsRandom (o.random n)) where
  abortable_sleep-same :
      (delay : ℕ) (w : W)
      → delay ≤ retry_after_cap_ms
      → abortable_sleep o delay w ≡ abortable_sleep (with_sleep o sleep) delay w
  unfolding abortable_sleep
  abortable_sleep-same delay w h = elim (Option-cases (o.signal w)) [
    | inl none' ↦ rw (none', abortable_sleep) (agree delay w h)
    | inr (reason, some') ↦ rw (some', abortable_sleep) refl
  ]

  resume-same :
      (pause : W × Option R) (next next' : W → RetryRun W A E R)
      → ((w : W) → next w ≡ next' w)
      → resume pause next ≡ resume pause next'
  resume-same (w, some reason) next next' h = refl
  resume-same (w, none) next next' h = h w

  after_read-same :
      (round : ℕ) (outcome : ReadResult A E) (w : W) (next next' : W → RetryRun W A E R)
      → ((w : W) → next w ≡ next' w)
      → after_read o round outcome w next ≡ after_read (with_sleep o sleep) round outcome w next'
  unfolding after_read build_retry_event resolve_delay
  after_read-same round (ReadResult.resolved a) w next next' h = refl
  after_read-same round (ReadResult.rejected error) w next next' h =
      let c = o.classify error in
      let delay = resolve_delay o c error (o.now w) round in
      let short =
        delay_for_kind-le-cap c.kind _ _ (full_jitter_delay-le-cap round _ (fraction round)) in
      elim (Bool-cases (gives_up o c round)) [
        | inl e ↦ rw e refl
        | inr e ↦ rw e (
            ap (after_retry (build_retry_event o c round delay)) (
              ap (λ pause. resume pause next) (abortable_sleep-same delay w short)
              ∙ resume-same (abortable_sleep (with_sleep o sleep) delay w) next next' h))
      ]

  retry_rounds-same :
      (fuel round : ℕ) (w : W)
      → retry_rounds o fuel round w ≡ retry_rounds (with_sleep o sleep) fuel round w
  unfolding retry_rounds
  retry_rounds-same zero round w = refl
  retry_rounds-same (suc fuel) round w = elim (Option-cases (o.signal w)) [
    | inl none' ↦
        rw (none', retry_rounds)
          (after_read-same round (o.read w).1 (o.read w).0 (retry_rounds o fuel (round + 1))
            (retry_rounds (with_sleep o sleep) fuel (round + 1))
            (retry_rounds-same fuel (round + 1)))
    | inr (reason, some') ↦ rw (some', retry_rounds) refl
  ]

  -- Where each value of `random` is in [0, 1): the announced retries are numbered 1, 2, 3 and so on, each
  -- with a delay of at most 30 seconds, and, whatever the header `Retry-After` says, no pause is longer
  -- than that: what `sleep` does on more than 30 seconds makes no difference to the call.
  pub with_retry-events :
      (w : W)
      → EventsFrom o 0 (with_retry o w).events
        × (with_retry o w ≡ with_retry (with_sleep o sleep) w)
  unfolding with_retry
  with_retry-events w = (
    retry_rounds-EventsFrom o (suc o.attempts) 0 w fraction,
    retry_rounds-same (suc o.attempts) 0 w,
  )
