-- ===== src/Run/Summary.antt =====
-- src/run/summary.ts: the summary of a run, its status and the exit code.
mod Counting
mod Defs
pub mod Verdict
pub mod Categories
unfoldable pub use Counting.*
unfoldable pub use Defs.*
