-- ===== src/Run/Ingest.antt =====
-- src/run/ingest-page.ts: the store and stage fan-out over the candidates of a page.
mod Defs
pub mod Tasks
pub mod Counts
pub mod Values
pub mod Matches
pub mod Schedule
pub mod Gate
unfoldable pub use Defs.*
