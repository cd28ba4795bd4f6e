-- ===== src/Checkpoint/Store.antt =====
-- src/checkpoint/s3-checkpoint-store.ts: reading the checkpoint, and the bounded compare-and-swap
-- loop that writes it.
mod Defs
pub mod Writes
pub mod Corrupt
unfoldable pub use Defs.*
