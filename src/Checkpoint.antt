-- ===== src/Checkpoint.antt =====
-- src/checkpoint/checkpoint.ts: the durable record of how far a run has come, and its merge.
mod Defs
pub mod Merge
pub mod Store
unfoldable pub use Defs.*
