-- ===== src/Run/Watch.antt =====
-- The always-on poll of the first page: src/run/watch-loop.ts.
mod Defs
pub mod Endings
pub mod Trace
pub mod Accounts
unfoldable pub use Defs.*
