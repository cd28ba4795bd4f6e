-- ===== src/Source.antt =====
-- How the fetcher reads the source: pacing, throttling, backoff, the classification of failures and
-- retries (src/source).
pub mod Throttle
pub mod Pacing
pub mod Backoff
pub mod Failure
pub mod Classify
pub mod Retry
