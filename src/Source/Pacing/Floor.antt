-- ===== src/Source/Pacing/Floor.antt =====
-- src/source/pacing.ts: the time between two requests.
use replays_fetcher.Base.{ℕ, ◌+◌, max, ◌≤◌, ◌<◌, ◌≡◌, some, arith}
use replays_fetcher.Source.Pacing.{Pacer, remaining_floor, await_floor}

-- When the request goes out that waited for the floor at `dispatch_at`.
abbrev pub request_at : ℕ → Pacer → ℕ
request_at dispatch_at p = dispatch_at + (await_floor dispatch_at p).1

-- A call that finds a previous one sleeps just long enough for its request to go out `spacing_ms`
-- after the previous call was made, and not at all when that much time has passed already; it
-- remembers the time at which it was made itself.
pub await_floor-request_at :
    (p : Pacer) (previous dispatch_at : ℕ)
    → p.last_request_at ≡ some previous
    → (request_at dispatch_at p ≡ max dispatch_at (p.spacing_ms + previous))
      × ((await_floor dispatch_at p).0.last_request_at ≡ some dispatch_at)
      × ((await_floor dispatch_at p).0.spacing_ms ≡ p.spacing_ms)
unfolding await_floor remaining_floor
await_floor-request_at p previous dispatch_at e = ground arith

-- The floor is measured from the moment of the previous call and not of its request: where a call
-- slept, and the next one is made as soon as its request has gone out, the time between the two
-- requests falls short of the spacing by exactly that sleep.
pub await_floor_shortfall :
    (p : Pacer) (previous dispatch_at : ℕ)
    → p.last_request_at ≡ some previous
    → previous ≤ dispatch_at
    → dispatch_at < p.spacing_ms + previous
    → let (next, slept) = await_floor dispatch_at p in
      let request = dispatch_at + slept in
      (0 < slept) × (request_at request next + slept ≡ request + p.spacing_ms)
unfolding await_floor remaining_floor
await_floor_shortfall p previous dispatch_at e h s = ground arith
