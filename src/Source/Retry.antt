-- ===== src/Source/Retry.antt =====
-- src/source/retry.ts: the bounded retries of a read of the source.
mod Defs
pub mod Bounds
pub mod Pauses
pub mod Outcome
unfoldable pub use Defs.*
