-- ===== src/Run/Once.antt =====
-- src/run/run-once*.ts: one run over the pages of the source, from the checkpoint to the exit code.
mod Types
mod Resume
mod Loop
mod Result
pub mod Rule
pub mod Limiter
pub mod Pages
pub mod Verdict
pub mod Met
pub mod Outcome
pub mod Duplicates
unfoldable pub use Types.*
unfoldable pub use Resume.*
unfoldable pub use Loop.*
unfoldable pub use Result.*
