-- ===== src/Source/Throttle/Bounds.antt =====
-- src/source/throttle.ts: the range of the effective concurrency.
use replays_fetcher.Base.{ℕ, zero, suc, ◌+◌, ◌/◌, ◌≤◌, ◌<◌, ◌≡◌, min, max, List, [], ◌∷◌, arith}
use replays_fetcher.Source.Throttle.{
  ThrottleController, ThrottleControllerOptions, create_throttle_controller, on_rate_limited,
  on_clean_window, concurrency_floor, rate_limited_window, clean_window,
}

-- A page's signal with the time at which it was given.
pub data Signal : Type 0 where
  limited : ℕ → Signal
  clean : ℕ → Signal

abbrev pub signal : Signal → ThrottleController → ThrottleController
signal (limited at) t = on_rate_limited at t
signal (clean at) t = on_clean_window at t

abbrev pub signals : List Signal → ThrottleController → ThrottleController
signals [] t = t
signals (s ∷ ss) t = signals ss (signal s t)

-- Between two signals: the bounds are those of the start, the concurrency lies between them, and
-- neither window is full.
pub record IsBounded (lo hi : ℕ) (t : ThrottleController) : Type 0 where
  pub floor_kept : t.floor ≡ lo
  pub max_kept : t.max_concurrency ≡ hi
  pub above_floor : lo ≤ t.concurrency
  pub below_max : t.concurrency ≤ hi
  pub limited_streak : t.rate_limited_streak < rate_limited_window
  pub clean_streak_short : t.clean_streak < clean_window

abbrev pub lowest : ThrottleControllerOptions → ℕ
lowest o = max concurrency_floor o.min_concurrency

pub create-IsBounded :
    (o : ThrottleControllerOptions)
    → lowest o ≤ o.base_concurrency
    → o.base_concurrency ≤ o.max_concurrency
    → IsBounded (lowest o) o.max_concurrency (create_throttle_controller o)
unfolding create_throttle_controller
create-IsBounded o lo hi = ground arith

module _ (lo hi : ℕ) where
  signal-IsBounded :
      (s : Signal) (t : ThrottleController)
      → lo ≤ hi
      → IsBounded lo hi t
      → IsBounded lo hi (signal s t)
  unfolding on_rate_limited on_clean_window
  signal-IsBounded (limited at) t h b = ground arith
  signal-IsBounded (clean at) t h b = ground arith

  pub signals-IsBounded :
      (ss : List Signal) (t : ThrottleController)
      → lo ≤ hi
      → IsBounded lo hi t
      → IsBounded lo hi (signals ss t)
  signals-IsBounded [] t h b = b
  signals-IsBounded (s ∷ ss) t h b = signals-IsBounded ss (signal s t) h (signal-IsBounded s t h b)

-- A controller whose base lies between the floor and the maximum keeps its concurrency between the
-- two, and so at least at 1, after any sequence of signals.
pub signals_bounded :
    (o : ThrottleControllerOptions) (ss : List Signal)
    → lowest o ≤ o.base_concurrency
    → o.base_concurrency ≤ o.max_concurrency
    → let t = signals ss (create_throttle_controller o) in
      (1 ≤ t.concurrency) × (lowest o ≤ t.concurrency) × (t.concurrency ≤ o.max_concurrency)
signals_bounded o ss lo hi =
    let b =
      signals-IsBounded (lowest o) o.max_concurrency ss (create_throttle_controller o) (omega arith)
        (create-IsBounded o lo hi) in
    omega (arith, b.above_floor, b.below_max)

-- Three clean pages in a row: one full window.
abbrev clean_page_window : ℕ → ThrottleController → ThrottleController
clean_page_window at t = on_clean_window at (on_clean_window at (on_clean_window at t))

abbrev pub clean_windows : ℕ → ℕ → ThrottleController → ThrottleController
clean_windows zero at t = t
clean_windows (suc n) at t = clean_windows n at (clean_page_window at t)

clean_page_window_lem :
    (at : ℕ) (t : ThrottleController)
    → t.clean_streak ≡ 0
    → ((clean_page_window at t).concurrency ≡ min t.max_concurrency (t.concurrency + 1))
      × ((clean_page_window at t).clean_streak ≡ 0)
      × ((clean_page_window at t).max_concurrency ≡ t.max_concurrency)
unfolding on_clean_window
clean_page_window_lem at t h = ground arith

-- From a bounded state with no clean page counted yet, `n` windows of clean pages raise the
-- concurrency by `n`, or to the maximum where that is less: a throttled run recovers.
pub clean_windows_recover :
    (n at : ℕ) (t : ThrottleController)
    → t.clean_streak ≡ 0
    → t.concurrency ≤ t.max_concurrency
    → (clean_windows n at t).concurrency ≡ min t.max_concurrency (t.concurrency + n)
clean_windows_recover zero at t h b = omega arith
clean_windows_recover (suc n) at t h b =
    let (c, s, m) = clean_page_window_lem at t h in
    omega (arith, clean_windows_recover n at (clean_page_window at t) s (omega arith))

-- Two rate-limited pages in a row after a clean one or at the start halve the concurrency, but not
-- below the floor, and raise the pacing floor by its step; a single one changes neither.
pub on_rate_limited_halves :
    (first second : ℕ) (t : ThrottleController)
    → t.rate_limited_streak ≡ 0
    → let once = on_rate_limited first t in
      let twice = on_rate_limited second once in
      (once.concurrency ≡ t.concurrency)
      × (once.pacing_floor_ms ≡ t.pacing_floor_ms)
      × (twice.concurrency ≡ max t.floor (t.concurrency / 2))
      × (twice.pacing_floor_ms ≡ t.pacing_floor_ms + 100)
unfolding on_rate_limited
on_rate_limited_halves first second t h = ground arith
