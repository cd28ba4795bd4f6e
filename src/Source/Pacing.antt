-- ===== src/Source/Pacing.antt =====
-- src/source/pacing.ts: the floor on the time between two requests.
pub mod Floor
use replays_fetcher.Base.{ℕ, ◌+◌, ◌-◌, Option, none, some}

pub record Pacer : Type 0 where
  pub spacing_ms : ℕ
  -- `none` is `NaN`, before the first call
  pub last_request_at : Option ℕ

unfoldable pub create_pacer : ℕ → Pacer
create_pacer spacing = record { spacing_ms = spacing; last_request_at = none }

-- `spacingMs - (dispatchAt - lastRequestAt)` where it is positive, and 0 where the code does not
-- sleep: where it is negative or 0, and on the first call, where it is `NaN`.
unfoldable pub remaining_floor : ℕ → Option ℕ → ℕ → ℕ
remaining_floor spacing none dispatch_at = 0
remaining_floor spacing (some last) dispatch_at = spacing + last - dispatch_at

-- `awaitFloor` called at `dispatch_at`: the pacer it leaves, and how long it sleeps (0: it does not).
unfoldable pub await_floor : ℕ → Pacer → Pacer × ℕ
await_floor dispatch_at p = (
  record p { last_request_at = some dispatch_at },
  remaining_floor p.spacing_ms p.last_request_at dispatch_at,
)
